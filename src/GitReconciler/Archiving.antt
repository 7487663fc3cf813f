-- ===== src/GitReconciler/Archiving.antt =====
-- `reconcileArtifact` of internal/controller/gitrepository_controller.go, with `MkdirAll` and `Lock`
-- of internal/controller/storage.go.
use Prim.Native.String as Text
use source_controller.Common.{
  ℕ, String, Bool, true, false, not, ◌&&◌, Option, none, some, List, [], ◌∷◌, ◌++◌, map,
  if◌then◌else◌,
}
use source_controller.Errors.{Err, plain, error, Fallible, ok, fail, new_generic}
use source_controller.Processor.{event_type_trace}
use source_controller.Reconcile.{Result, result_success}
use source_controller.Storage.{Artifact, has_revision, local_path}
use source_controller.Removal.{lock_of}
use source_controller.Archive.{
  IgnoreApi, Entry, Member, is_directory, source_ignore_filter, archive,
}
use source_controller.Git.{diff, git_content_config_changed}
use source_controller.Flow.{Flow, go, ◌>>=◌, ◌>>◌, pass, modify, get_state, give_up}
use source_controller.GitReconciler.{
  BaseApi, State, Sub, wrap, repository_of, commit_reference, mark_true, delete_condition, send,
  artifact_in_storage_condition, artifact_outdated_condition, storage_operation_failed_condition,
  succeeded_reason, dir_creation_failed_reason,
}
use source_controller.GitReconciler.Storing.{new_artifact}

-- What else it uses of packages os and filepath, of the lock files, and of sourceignore and go-git.
pub record ArchivingApi (FS Data Reader Pattern Matcher : Type 0) : Type 0 where
  -- os.Stat: whether the path is a directory.
  pub stat_is_dir : String → FS → Fallible Bool
  -- os.Lstat: whether the path is a symbolic link.
  pub lstat_is_symlink : String → FS → Fallible Bool
  pub mkdir_all : String → ℕ → FS → FS × Option Err
  pub lock : String → FS → FS × Option Err
  pub unlock : String → FS → FS
  pub load_ignore_patterns : String → List String → FS → Fallible (List Pattern)
  pub read_patterns : String → List String → List Pattern
  pub ignore : IgnoreApi Pattern Matcher
  -- The walk of filepath over a directory.
  pub entries : String → FS → List (Entry Data)
  pub is_abs : String → Bool
  pub rel : String → String → Fallible String
  pub tar : List (Member Data) → Reader

module _ {Conds FS Data Reader Cluster Pattern Matcher : Type 0}
    (api : BaseApi Conds FS Data Reader Cluster)
    (os : ArchivingApi FS Data Reader Pattern Matcher) where
  abbrev pub path_of : Artifact → String
  path_of artifact = local_path api.storage api.base_path api.now artifact

  -- `MkdirAll` of Storage.
  unfoldable pub mkdir_all_of : Artifact → Sub api (Option Err)
  mkdir_all_of artifact s =
      let (files, err) = os.mkdir_all (api.removal.dir (path_of artifact)) 0o700 s.files in
      (record s { files = files }, go err)

  -- `Lock` of Storage, and the function that it returns.
  unfoldable pub lock_artifact : Artifact → Sub api (Option Err)
  lock_artifact artifact s =
      let (files, err) = os.lock (lock_of (path_of artifact)) s.files in
      (record s { files = files }, go err)

  unfoldable pub unlock_artifact : Artifact → State Conds FS Cluster → State Conds FS Cluster
  unlock_artifact artifact s = record s { files = os.unlock (lock_of (path_of artifact)) s.files }

  -- The object has an artifact of the revision, of the same includes and configuration.
  unfoldable pub is_current : Artifact → State Conds FS Cluster → Bool
  is_current artifact s =
      has_revision s.obj.status.artifact artifact.revision
      && (not (diff s.includes s.obj.status.included_artifacts)
          && not (git_content_config_changed (repository_of s.obj) s.includes))

  -- The deferred function.
  unfoldable pub mark_in_storage : Artifact → State Conds FS Cluster → State Conds FS Cluster
  unfolding is_current
  mark_in_storage artifact s =
      if is_current artifact s
      then (mark_true api artifact_in_storage_condition succeeded_reason
          (Text.◌++◌ "stored artifact for revision '" (Text.◌++◌ artifact.revision "'"))
          (delete_condition api artifact_outdated_condition s).0).0
      else s

  -- The storage operation failed with an error, which ends the sub-reconciler.
  unfoldable pub fail_storage : {A : Type 0} → Err → String → Sub api A
  fail_storage e reason = do
    mark_true api storage_operation_failed_condition reason (error (new_generic e reason))
    give_up (new_generic e reason)

  unfoldable pub check_dir : Fallible Bool → Sub api (Unit {0})
  unfolding fail_storage
  check_dir (fail e) =
      fail_storage (wrap "failed to stat target artifact path" e) "StatOperationFailed"
  check_dir (ok false) = fail_storage (plain "invalid target path: not a directory") "InvalidPath"
  check_dir (ok true) = pass

  unfoldable pub check_mkdir : Option Err → Sub api (Unit {0})
  unfolding fail_storage
  check_mkdir (some e) =
      fail_storage (wrap "failed to create artifact directory" e) dir_creation_failed_reason
  check_mkdir none = pass

  -- The patterns of the files in the directory, and those of the object.
  unfoldable pub all_patterns :
      Option String → List String → Fallible (List Pattern) → Sub api (List Pattern)
  all_patterns ignore domain (fail e) = give_up (
      new_generic (wrap "failed to load source ignore patterns from repository" e)
        "SourceIgnoreError")
  all_patterns none domain (ok ps) = λ s. (s, go ps)
  all_patterns (some ignore) domain (ok ps) = λ s. (s, go (ps ++ os.read_patterns ignore domain))

  abbrev pub archived :
      Artifact → String → List Pattern → List String → FS → FS × Artifact × Option Err
  archived artifact dir ps domain files =
      archive api.storage api.base_path api.now os.is_abs os.rel os.tar artifact dir is_directory
        (some (source_ignore_filter os.ignore ps domain)) (os.entries dir files) files

  unfoldable pub after_archive : FS × Artifact × Option Err → Sub api Artifact
  unfolding fail_storage
  after_archive (files, artifact, some e) = do
    modify (λ s. record s { files = files })
    fail_storage (wrap "unable to archive artifact to storage" e) "ArchiveOperationFailed"
  after_archive (files, artifact, none) = do
    modify (λ s. record s { files = files })
    λ s. (s, go artifact)

  unfoldable pub archive_dir : Artifact → String → List Pattern → List String → Sub api Artifact
  unfolding after_archive
  archive_dir artifact dir ps domain s = after_archive (archived artifact dir ps domain s.files) s

  unfoldable pub record_observations : Artifact → State Conds FS Cluster → State Conds FS Cluster
  record_observations artifact s = record s {
    obj = record s.obj {
      status = record s.obj.status {
        artifact = some artifact;
        included_artifacts = map some s.includes;
        observed_ignore = s.obj.spec.ignore;
        observed_recurse_submodules = s.obj.spec.recurse_submodules;
        observed_include = s.obj.spec.include;
        observed_sparse_checkout = s.obj.spec.sparse_checkout;
      };
    };
  }

  abbrev sym_path : Artifact → String
  sym_path artifact = path_of (record artifact {
    path = api.naming.path_join (api.removal.dir artifact.path ∷ "latest.tar.gz" ∷ []);
  })

  unfoldable pub after_sym_remove : FS × Option Err → Sub api (Unit {0})
  after_sym_remove (files, none) = modify (λ s. record s { files = files })
  after_sym_remove (files, some e) = do
    modify (λ s. record s { files = files })
    send api event_type_trace "SymlinkUpdateFailed" "failed to remove (deprecated) symlink"

  unfoldable pub remove_symlink : Artifact → Fallible Bool → Sub api (Unit {0})
  unfolding after_sym_remove
  remove_symlink artifact (fail e) s = pass s
  remove_symlink artifact (ok false) s = pass s
  remove_symlink artifact (ok true) s =
      after_sym_remove (api.storage.remove (sym_path artifact) s.files) s

  -- What happens under the lock.
  unfoldable pub build_locked : Artifact → String → Sub api Result
  unfolding all_patterns archive_dir record_observations remove_symlink
  build_locked artifact dir = do
    s ← get_state
    let domain = os.ignore.split dir
    ps ← all_patterns s.obj.spec.ignore domain (os.load_ignore_patterns dir domain s.files)
    stored ← archive_dir artifact dir ps domain
    modify (record_observations stored)
    recorded ← get_state
    remove_symlink stored (os.lstat_is_symlink (path_of stored) recorded.files)
    delete_condition api storage_operation_failed_condition
    λ s. (s, go result_success)

  unfoldable pub unlocked :
      Artifact → State Conds FS Cluster × Flow Result → State Conds FS Cluster × Flow Result
  unfolding unlock_artifact
  unlocked artifact (s, res) = (unlock_artifact artifact s, res)

  unfoldable pub with_lock : Artifact → String → Option Err → Sub api Result
  unfolding build_locked unlocked
  with_lock artifact dir (some e) s =
      give_up (new_generic (wrap "failed to acquire lock for artifact" e) "Failed") s
  with_lock artifact dir none s = unlocked artifact (build_locked artifact dir s)

  -- Past the check that the artifact is up to date: the directory is a directory, that of the
  -- artifact is made, and the archive is built under the lock.
  unfoldable pub build_artifact : Artifact → String → Sub api Result
  unfolding check_dir mkdir_all_of check_mkdir lock_artifact with_lock
  build_artifact artifact dir = do
    s ← get_state
    check_dir (os.stat_is_dir dir s.files)
    err ← mkdir_all_of artifact
    check_mkdir err
    lock_err ← lock_artifact artifact
    with_lock artifact dir lock_err

  unfoldable pub current_or_built :
      Artifact → String → State Conds FS Cluster → State Conds FS Cluster × Flow Result
  unfolding build_artifact is_current
  current_or_built artifact dir s =
      if is_current artifact s
      then (
        (send api event_type_trace "ArtifactUpToDate" "artifact up-to-date with remote revision"
            s).0,
        go result_success,
      )
      else build_artifact artifact dir s

  unfoldable pub artifact_marked :
      Artifact → State Conds FS Cluster × Flow Result → State Conds FS Cluster × Flow Result
  unfolding mark_in_storage
  artifact_marked artifact (s, res) = (mark_in_storage artifact s, res)

  unfoldable pub reconcile_artifact : String → Sub api Result
  unfolding current_or_built artifact_marked
  reconcile_artifact dir s =
      let artifact =
        new_artifact api s.obj (commit_reference s.obj s.commit)
          (Text.◌++◌ s.commit.hash ".tar.gz") in
      artifact_marked artifact (current_or_built artifact dir s)
