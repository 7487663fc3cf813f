-- ===== src/Git.antt =====
-- Decisions of the GitRepository reconciler, internal/controller/gitrepository_controller.go, on the
-- fields of api/v1/gitrepository_types.go that they read: when an artifact has to be built again, when
-- a verification is due, and when an event is sent. The set of the included artifacts is that of
-- internal/controller/artifact.go, whose elements are never nil.
pub mod Lists
pub mod Verification
pub mod Config
pub mod Notify
mod Tests
use source_controller.Common.{
  ℕ, ◌==◌, ◌≡◌, String, Bool, true, false, not, ◌&&◌, ◌||◌, Option, none, some, List, [], ◌∷◌,
  length, if◌then◌else◌, decide, String-discrete,
}
use source_controller.Errors.{Err, stalling, waiting, generic, plain}
use source_controller.Reconcile.{Result, result_empty, result_requeue, result_success}
use source_controller.Storage.{Artifact, has_revision, has_digest}

abbrev same : String → String → Bool
same a b = decide (String-discrete a b)

pub data GitVerificationMode : Type 0 where
  mode_git_head mode_git_tag mode_git_tag_and_head : GitVerificationMode
  -- Any other text.
  mode_unknown : String → GitVerificationMode

pub record GitRepositoryVerification : Type 0 where
  pub mode : GitVerificationMode
  pub secret_ref : String

unfoldable pub get_mode : GitRepositoryVerification → GitVerificationMode
get_mode v = elim v.mode [
  | mode_git_head ↦ mode_git_head
  | mode_git_tag ↦ mode_git_tag
  | mode_git_tag_and_head ↦ mode_git_tag_and_head
  | mode_unknown s ↦ mode_git_head
]

unfoldable pub verify_head : GitRepositoryVerification → Bool
unfolding get_mode
verify_head v = elim (get_mode v) [
  | mode_git_head ↦ true
  | mode_git_tag_and_head ↦ true
  | mode_git_tag ↦ false
  | mode_unknown s ↦ false
]

unfoldable pub verify_tag : GitRepositoryVerification → Bool
unfolding get_mode
verify_tag v = elim (get_mode v) [
  | mode_git_tag ↦ true
  | mode_git_tag_and_head ↦ true
  | mode_git_head ↦ false
  | mode_unknown s ↦ false
]

pub record GitRepositoryInclude : Type 0 where
  pub git_repository_ref : String
  pub from_path : String
  pub to_path : String

pub record GitRepositoryRef : Type 0 where
  pub branch : String
  pub tag : String
  pub sem_ver : String
  pub name : String
  pub commit : String

pub record GitRepositorySpec : Type 0 where
  pub url : String
  pub secret_ref : Option String
  pub provider : String
  pub reference : Option GitRepositoryRef
  pub proxy_secret_ref : Option String
  pub suspend : Bool
  pub ignore : Option String
  pub recurse_submodules : Bool
  pub include : List GitRepositoryInclude
  pub sparse_checkout : List String
  pub verification : Option GitRepositoryVerification

-- An included artifact may be nil.
pub record GitRepositoryStatus : Type 0 where
  pub observed_generation : ℕ
  pub last_handled_reconcile_at : String
  pub artifact : Option Artifact
  pub included_artifacts : List (Option Artifact)
  pub observed_ignore : Option String
  pub observed_recurse_submodules : Bool
  pub observed_include : List GitRepositoryInclude
  pub observed_sparse_checkout : List String
  pub source_verification_mode : Option GitVerificationMode

pub record GitRepository : Type 0 where
  pub spec : GitRepositorySpec
  pub status : GitRepositoryStatus

unfoldable pub git_repository_include_equal : GitRepositoryInclude → GitRepositoryInclude → Bool
git_repository_include_equal a b =
    same a.git_repository_ref b.git_repository_ref
    && (same a.from_path b.from_path && same a.to_path b.to_path)

-- Whether a verification of the second mode is due after one of the first.
unfoldable pub mode_changed : GitVerificationMode → GitVerificationMode → Bool
mode_changed mode_git_tag mode_git_head = true
mode_changed mode_git_tag mode_git_tag_and_head = true
mode_changed mode_git_head mode_git_tag = true
mode_changed mode_git_head mode_git_tag_and_head = true
mode_changed _ _ = false

unfoldable pub requires_verification : GitRepository → Bool
unfolding mode_changed get_mode
requires_verification obj = elim obj.spec.verification [
  | none ↦ false
  | some v ↦ elim obj.status.source_verification_mode [
    | none ↦ true
    | some observed ↦ mode_changed observed (get_mode v)
  ]
]

-- ptr.Equal.
unfoldable pub ptr_equal : Option String → Option String → Bool
ptr_equal none none = true
ptr_equal (some a) (some b) = same a b
ptr_equal _ _ = false

-- The loops over two or four lists by one index; their lengths have been compared before.
unfoldable pub dirs_changed : List String → List String → Bool
dirs_changed (dir ∷ dirs) (observed ∷ others) = not (same dir observed) || dirs_changed dirs others
dirs_changed _ _ = false

unfoldable pub included_changed : Option Artifact → Artifact → Bool
included_changed observed current =
    not (has_revision observed current.revision) || not (has_digest observed current.digest)

unfoldable pub includes_changed :
    List GitRepositoryInclude
    → List GitRepositoryInclude
    → List (Option Artifact)
    → List Artifact
    → Bool
unfolding git_repository_include_equal included_changed
includes_changed (incl ∷ incls) (observed ∷ others) (a ∷ observed_artifacts) (c ∷ current) =
    not (git_repository_include_equal incl observed)
    || (included_changed a c || includes_changed incls others observed_artifacts current)
includes_changed _ _ _ _ = false

abbrev pub sizes_differ : {A B : Type 0} → List A → List B → Bool
sizes_differ a b = not (length a == length b)

abbrev pub same_bool : Bool → Bool → Bool
same_bool true b = b
same_bool false b = not b

unfoldable pub git_content_config_changed : GitRepository → List Artifact → Bool
unfolding ptr_equal dirs_changed includes_changed requires_verification
git_content_config_changed obj artifacts =
    not (ptr_equal obj.spec.ignore obj.status.observed_ignore)
    || (not (same_bool obj.spec.recurse_submodules obj.status.observed_recurse_submodules)
        || (sizes_differ obj.spec.include obj.status.observed_include
            || (requires_verification obj
                || (sizes_differ obj.spec.sparse_checkout obj.status.observed_sparse_checkout
                    || (dirs_changed obj.spec.sparse_checkout obj.status.observed_sparse_checkout
                        || (sizes_differ obj.spec.include artifacts
                            || (sizes_differ obj.spec.include obj.status.included_artifacts
                                || includes_changed obj.spec.include obj.status.observed_include
                                    obj.status.included_artifacts artifacts)))))))

-- A revision that some artifact of a set has.
unfoldable pub has_any_revision : String → List (Option Artifact) → Bool
unfolding has_revision
has_any_revision revision [] = false
has_any_revision revision (k ∷ set) = has_revision k revision || has_any_revision revision set

unfoldable pub some_missing : List Artifact → List (Option Artifact) → Bool
unfolding has_any_revision
some_missing [] set = false
some_missing (j ∷ s) set = not (has_any_revision j.revision set) || some_missing s set

-- Diff of an artifactSet.
unfoldable pub diff : List Artifact → List (Option Artifact) → Bool
unfolding some_missing
diff s set = sizes_differ s set || some_missing s set

unfoldable pub ignored : Err → Bool
ignored (generic reason err config) = config.ignore
ignored (stalling reason err config) = false
ignored (waiting requeue_after reason err config) = false
ignored (plain message) = false

unfoldable pub should_notify : Option Artifact → Result → Option Err → Bool
unfolding ignored
should_notify none res err = false
should_notify (some artifact) res none = elim res [
  | result_success ↦ true
  | result_empty ↦ false
  | result_requeue ↦ false
]
should_notify (some artifact) res (some err) = elim res [
  | result_empty ↦ ignored err
  | result_requeue ↦ false
  | result_success ↦ false
]
