-- ===== src/GitReconciler.antt =====
-- The reconciler of GitRepository objects, internal/controller/gitrepository_controller.go: the
-- state of a reconciliation, and what it uses of other packages. The texts of messages are shortened
-- to their fixed parts, with the text of a wrapped error behind it.
pub mod Storing
pub mod Stored
pub mod Deleted
pub mod Authorising
pub mod Fetching
pub mod Sourcing
pub mod Fetched
pub mod Framed
pub mod Accepted
pub mod Sourced
pub mod Verifying
pub mod Verified
pub mod Looping
pub mod Looped
pub mod Including
pub mod Included
pub mod Archiving
pub mod Recorded
pub mod Archived
pub mod Chain
pub mod Chained
mod Example
mod Tests
mod RunTests
use Prim.Native.String as Text
use source_controller.Common.{
  ℕ, ◌≡◌, ◌≢◌, String, Bool, true, false, not, Option, none, some, List, [], ◌∷◌, ◌++◌,
  if◌then◌else◌, decide, String-discrete,
}
use source_controller.Common.GoMap.{GoMap}
use source_controller.Errors.{Err, plain, error, Fallible}
use source_controller.Conditions.{
  ConditionsApi, Condition, has_status, status_true, status_false, ready_condition,
  reconciling_condition,
}
use source_controller.Storage.{Artifact, StorageApi}
use source_controller.Common.Int.{ℤ}
use source_controller.Storage.Naming.{NamingApi}
use source_controller.Garbage.{DirEntry}
use source_controller.Removal.{RemovalApi}
use source_controller.Git.{GitRepositoryRef, GitRepository, GitRepositorySpec, GitRepositoryStatus}
use source_controller.Flow.{Step, go, modify}

-- The conditions and the reasons of api/v1.
abbrev pub artifact_in_storage_condition : String
artifact_in_storage_condition = "ArtifactInStorage"

abbrev pub artifact_outdated_condition : String
artifact_outdated_condition = "ArtifactOutdated"

abbrev pub source_verified_condition : String
source_verified_condition = "SourceVerified"

abbrev pub fetch_failed_condition : String
fetch_failed_condition = "FetchFailed"

abbrev pub storage_operation_failed_condition : String
storage_operation_failed_condition = "StorageOperationFailed"

abbrev pub include_unavailable_condition : String
include_unavailable_condition = "IncludeUnavailable"

abbrev pub patch_operation_failed_reason : String
patch_operation_failed_reason = "PatchOperationFailed"

abbrev pub dir_creation_failed_reason : String
dir_creation_failed_reason = "DirectoryCreationFailed"

abbrev pub succeeded_reason : String
succeeded_reason = "Succeeded"

abbrev pub progressing_reason : String
progressing_reason = "Progressing"

abbrev pub source_finalizer : String
source_finalizer = "finalizers.fluxcd.io"

-- fmt.Errorf with an error at the end.
abbrev pub wrap : String → Err → Err
wrap message e = plain (Text.◌++◌ message (Text.◌++◌ ": " (error e)))

-- metav1.ObjectMeta, and the kind of the object.
pub record ObjectMeta : Type 0 where
  pub kind : String
  pub namespace : String
  pub name : String
  pub generation : ℕ
  pub deletion_timestamp_is_zero : Bool
  pub finalizers : List String
  -- The annotation of a requested reconciliation.
  pub reconcile_annotation : Option String

-- An object of type GitRepository: its conditions are those of package conditions.
pub record GitObject (Conds : Type 0) : Type 0 where
  pub metadata : ObjectMeta
  pub spec : GitRepositorySpec
  pub status : GitRepositoryStatus
  pub conditions : Conds

abbrev pub repository_of : {Conds : Type 0} → GitObject Conds → GitRepository
repository_of obj = record { spec = obj.spec; status = obj.status }

-- A tag and a commit of package git, by what their methods answer.
pub record Tag : Type 0 where
  pub text : String
  pub is_signed : Bool
  pub verify : List String → Fallible String

pub record Commit : Type 0 where
  pub hash : String
  pub is_concrete : Bool
  pub short_message : String
  pub text : String
  pub absolute_reference : String
  pub referencing_tag : Option Tag
  pub verify : List String → Fallible String

abbrev name_of_reference : Option GitRepositoryRef → String
name_of_reference none = ""
name_of_reference (some reference) = reference.name

unfoldable pub commit_reference : {Conds : Type 0} → GitObject Conds → Commit → String
commit_reference obj commit =
    if decide (String-discrete (name_of_reference obj.spec.reference) "")
    then commit.text
    else commit.absolute_reference

pub record Event : Type 0 where
  pub type : String
  pub reason : String
  pub message : String

-- What a reconciliation changes: the object, the commit and the artifacts of the includes that the
-- sub-reconcilers share, the files, the cluster with the token cache, and the events that are sent.
pub record State (Conds FS Cluster : Type 0) : Type 0 where
  pub obj : GitObject Conds
  pub commit : Commit
  pub includes : List Artifact
  pub files : FS
  pub cluster : Cluster
  pub events : List Event

-- The conditions, the serial patcher, and the files.
pub record BaseApi (Conds FS Data Reader Cluster : Type 0) : Type 0 where
  pub conds : ConditionsApi Conds
  -- The commit before one is known.
  pub zero_commit : Commit
  -- ProgressiveStatus of package reconcile: it changes the Reconciling and Ready conditions alone.
  pub progressive_status : Bool → Conds → String → String → Conds
  pub progressive_status_frame :
      (drift : Bool) (c : Conds) (reason message t : String)
      → t ≢ ready_condition
      → t ≢ reconciling_condition
      → conds.get (progressive_status drift c reason message) t ≡ conds.get c t
  -- sp.Patch; the object is as it is sent.
  pub patch : GitObject Conds → Cluster → Cluster × Option Err
  -- The token cache forgets the events of an object that is deleted.
  pub forget_events : ObjectMeta → Cluster → Cluster
  pub storage : StorageApi FS Data Reader
  pub base_path : String
  pub hostname : String
  pub now : ℕ
  pub naming : NamingApi
  -- What the garbage collection of Storage uses: the sort, the walk over the directory of an
  -- artifact, the retention options, and the error of the context if it is done first.
  pub removal : RemovalApi FS
  pub aggregate : List Err → Err
  pub ext : String → String
  pub sort : List ℤ → List ℤ
  pub artifact_entries : Artifact → FS → List DirEntry
  pub timed_out : FS → Option Err
  pub garbage_count_limit : ℕ
  pub records : ℤ
  pub ttl : ℤ
  pub time : ℤ

module _ {Conds FS Data Reader Cluster : Type 0} (api : BaseApi Conds FS Data Reader Cluster) where
  abbrev pub Sub : Type 0 → Type 0
  Sub A = Step (State Conds FS Cluster) A

  abbrev pub with_object : (GitObject Conds → GitObject Conds) → Sub (Unit {0})
  with_object f = modify (λ s. record s { obj = f s.obj })

  abbrev pub with_conditions : (Conds → Conds) → Sub (Unit {0})
  with_conditions f =
      modify (λ s. record s { obj = record s.obj { conditions = f s.obj.conditions } })

  abbrev pub mark_true : String → String → String → Sub (Unit {0})
  mark_true t reason message = with_conditions (λ c. api.conds.mark_true c t reason message)

  abbrev pub mark_false : String → String → String → Sub (Unit {0})
  mark_false t reason message = with_conditions (λ c. api.conds.mark_false c t reason message)

  abbrev pub delete_condition : String → Sub (Unit {0})
  delete_condition t = with_conditions (λ c. api.conds.delete c t)

  abbrev pub progress : Bool → String → Sub (Unit {0})
  progress drift message =
      with_conditions (λ c. api.progressive_status drift c progressing_reason message)

  abbrev pub send : String → String → String → Sub (Unit {0})
  send type reason message = modify (λ s. record s {
    events = s.events ++ record { type = type; reason = reason; message = message } ∷ [];
  })

  -- A patch, with its error.
  abbrev pub patch_object : Sub (Option Err)
  patch_object s =
      let (cluster, err) = api.patch s.obj s.cluster in (record s { cluster = cluster }, go err)
