-- ===== src/GitReconciler/Recorded.antt =====
-- What a reconciliation of the artifact may leave: `reconcileArtifact` of
-- internal/controller/gitrepository_controller.go records an artifact, or leaves the status.
use Prim.Native.String as Text
use source_controller.Common.{◌≡◌, true, Option, some, map, is_some, ◌⊎◌}
use source_controller.Errors.{Err}
use source_controller.Reconcile.{Result, result_empty, result_success}
use source_controller.Storage.{Artifact, stored}
use source_controller.Git.{GitRepositoryStatus}
use source_controller.GitReconciler.{BaseApi, State, commit_reference}
use source_controller.GitReconciler.Storing.{new_artifact}
use source_controller.GitReconciler.Archiving.{ArchivingApi, path_of, is_current}

module _ {Conds FS Data Reader Cluster Pattern Matcher : Type 0}
    (api : BaseApi Conds FS Data Reader Cluster)
    (os : ArchivingApi FS Data Reader Pattern Matcher) where
  abbrev pub Reconciliation : Type 0
  Reconciliation = State Conds FS Cluster

  -- The artifact of the commit.
  abbrev pub artifact_of : Reconciliation → Artifact
  artifact_of s =
      new_artifact api s.obj (commit_reference s.obj s.commit) (Text.◌++◌ s.commit.hash ".tar.gz")

  module _ (s : Reconciliation) (a : Artifact) where
    -- A failure leaves the status.
    abbrev pub Unrecorded : Reconciliation → Result → Option Err → Type 0
    Unrecorded t res err =
        (res ≡ result_empty) × (is_some err ≡ true) × (t.obj.status ≡ s.obj.status)

    -- The file of the artifact holds the data that the second artifact describes.
    abbrev pub Holds : FS → Artifact → Type 0
    Holds fs a' =
        (d : Data) × (api.storage.read fs (path_of api os a) ≡ some d)
        × (a' ≡ stored api.storage api.base_path api.now a d)

    abbrev pub observed : Artifact → GitRepositoryStatus
    observed a' = record s.obj.status {
      artifact = some a';
      included_artifacts = map some s.includes;
      observed_ignore = s.obj.spec.ignore;
      observed_recurse_submodules = s.obj.spec.recurse_submodules;
      observed_include = s.obj.spec.include;
      observed_sparse_checkout = s.obj.spec.sparse_checkout;
    }

    -- The status names the artifact that the storage holds, with all that it was built from.
    abbrev pub IsBuilt : Reconciliation → Type 0
    IsBuilt t = (a' : Artifact) × (t.obj.status ≡ observed a') × Holds t.files a'

    -- The object had the artifact already, and nothing is built.
    abbrev pub IsUpToDate : Reconciliation → Type 0
    IsUpToDate t =
        (is_current api os a s ≡ true) × (t.obj.status ≡ s.obj.status) × (t.files ≡ s.files)

    abbrev pub IsReconciled : Reconciliation → Result → Type 0
    IsReconciled t res = (res ≡ result_success) × (IsUpToDate t ⊎ IsBuilt t)
