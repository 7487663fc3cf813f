-- ===== src/GitReconciler/Archived.antt =====
-- What the end of `reconcileArtifact` of internal/controller/gitrepository_controller.go says of the
-- status and the storage.

use source_controller.Common.{
  ◌≡◌, refl, ap, ◌∙◌, String, Bool, true, false, Option, none, some, List, inl, inr, Bool-cases,
}
use source_controller.Errors.{Err, Fallible, ok, fail}
use source_controller.Reconcile.{Result, result_success}
use source_controller.Storage.{Artifact, stored, local_path}
use source_controller.Storage.Atomic.{IsWritten}
use source_controller.Removal.{lock_of}
use source_controller.Archive.{is_directory, source_ignore_filter}
use source_controller.Archive.Stored.{archive-IsWritten}
use source_controller.Flow.{Flow, go, after_flow}
use source_controller.Flow.Laws.{Outcome, Outcome-bind, Outcome-if, Outcome-weaken, Outcome-map}
use source_controller.GitReconciler.{BaseApi, State, storage_operation_failed_condition}
use source_controller.GitReconciler.Archiving.{
  ArchivingApi, fail_storage, check_dir, check_mkdir, all_patterns, archived, after_archive,
  archive_dir, path_of, record_observations, remove_symlink, build_locked, unlocked,
  unlock_artifact, with_lock, lock_artifact, mkdir_all_of, build_artifact, is_current,
  current_or_built, mark_in_storage, artifact_marked, reconcile_artifact,
}
use source_controller.GitReconciler.Recorded.{
  artifact_of, Unrecorded, Holds, observed, IsBuilt, IsReconciled,
}

module _ {Conds FS Data Reader Cluster Pattern Matcher : Type 0}
    (api : BaseApi Conds FS Data Reader Cluster) (os : ArchivingApi FS Data Reader Pattern Matcher)
    -- A regular file is no symbolic link, and a lock is released without a change of other content.
    (lstat_regular : (p : String) (fs : FS) (d : Data)
      → api.storage.read fs p ≡ some d
      → os.lstat_is_symlink p fs ≡ ok false)
    (unlock_frame : (l p : String) (fs : FS)
      → api.storage.read (os.unlock l fs) p ≡ api.storage.read fs p) where
  abbrev S : Type 0
  S = State Conds FS Cluster

  module _ (s : S) (a : Artifact) where
    abbrev Kept : S → Type 0
    Kept t = (t.obj.status ≡ s.obj.status) × (t.obj.spec ≡ s.obj.spec) × (t.includes ≡ s.includes)

    abbrev Keeps : {A : Type 0} → S → A → Type 0
    Keeps t x = Kept t

    check_dir-Kept :
        (o : Fallible Bool) (t : S)
        → Kept t
        → Outcome (Unrecorded api os s a) Keeps (check_dir api os o t)
    unfolding check_dir fail_storage
    check_dir-Kept (fail e) t k = (refl, refl, k.0)
    check_dir-Kept (ok false) t k = (refl, refl, k.0)
    check_dir-Kept (ok true) t k = k

    check_mkdir-Kept :
        (o : Option Err) (t : S)
        → Kept t
        → Outcome (Unrecorded api os s a) Keeps (check_mkdir api os o t)
    unfolding check_mkdir fail_storage
    check_mkdir-Kept (some e) t k = (refl, refl, k.0)
    check_mkdir-Kept none t k = k

    all_patterns-Kept :
        (ignore : Option String) (domain : List String) (o : Fallible (List Pattern)) (t : S)
        → Kept t
        → Outcome (Unrecorded api os s a) Keeps (all_patterns api os ignore domain o t)
    unfolding all_patterns
    all_patterns-Kept ignore domain (fail e) t k = (refl, refl, k.0)
    all_patterns-Kept none domain (ok ps) t k = k
    all_patterns-Kept (some ignore) domain (ok ps) t k = k

    abbrev ArchivedIn : S → Artifact → Type 0
    ArchivedIn t a' = Kept t × (Holds api os s a) t.files a'

    after_archive-Archived :
        (fs : FS) (o : FS × Artifact × Option Err) (t : S)
        → Kept t
        → IsWritten api.storage api.base_path api.now a fs o
        → Outcome (Unrecorded api os s a) ArchivedIn (after_archive api os o t)
    unfolding after_archive IsWritten fail_storage
    after_archive-Archived fs (files, a', some e) t k w = (refl, refl, k.0)
    after_archive-Archived fs (files, a', none) t k w = (k, w)

    archive_dir-Archived :
        (dir : String) (ps : List Pattern) (domain : List String) (t : S)
        → Kept t
        → Outcome (Unrecorded api os s a) ArchivedIn (archive_dir api os a dir ps domain t)
    unfolding archive_dir
    archive_dir-Archived dir ps domain t k =
        after_archive-Archived t.files (archived api os a dir ps domain t.files) t k (
          archive-IsWritten api.storage api.base_path api.now os.is_abs os.rel os.tar a dir
            is_directory (some (source_ignore_filter os.ignore ps domain)) (os.entries dir t.files)
            t.files)

    abbrev BuiltWith : S → Result → Type 0
    BuiltWith t res = (res ≡ result_success) × (IsBuilt api os s a) t

    record_observations-observed :
        (a' : Artifact) (t : S)
        → Kept t
        → (record_observations api os a' t).obj.status ≡ (observed api os s a) a'
    unfolding record_observations
    record_observations-observed a' t k = rw (k.0, k.1, k.2) refl

    -- Behind the archive nothing fails.
    abbrev finish_build : Artifact → S → S × Flow Result
    finish_build a' t =
        after_flow
          (λ u v. (
            record v {
              obj = record v.obj {
                conditions = api.conds.delete v.obj.conditions storage_operation_failed_condition;
              };
            },
            go result_success,
          ))
          (remove_symlink api os a' (os.lstat_is_symlink (path_of api os a') t.files) t)

    finish_build-Built :
        (a' : Artifact) (t : S) (o : Fallible Bool)
        → os.lstat_is_symlink (path_of api os a') t.files ≡ o
        → o ≡ ok false
        → (IsBuilt api os s a) t
        → Outcome (Unrecorded api os s a) BuiltWith (finish_build a' t)
    unfolding remove_symlink
    finish_build-Built a' t o e u h = rw (e ∙ u) (refl, h)

    path_of-stored :
        (d : Data)
        → path_of api os (stored api.storage api.base_path api.now a d) ≡ path_of api os a
    unfolding local_path
    path_of-stored d = refl

    is_regular :
        (fs : FS) (a' : Artifact)
        → (Holds api os s a) fs a'
        → os.lstat_is_symlink (path_of api os a') fs ≡ ok false
    is_regular fs a' h =
        ap (λ x. os.lstat_is_symlink (path_of api os x) fs) h.2
        ∙ ap (λ p. os.lstat_is_symlink p fs) (path_of-stored h.0)
        ∙ lstat_regular (path_of api os a) fs h.0 h.1

    recorded-Built :
        (t : S) (a' : Artifact)
        → ArchivedIn t a'
        → Outcome
            (Unrecorded api os s a)
            BuiltWith
            (finish_build a' (record_observations api os a' t))
    unfolding record_observations
    recorded-Built t a' h =
        finish_build-Built a' (record_observations api os a' t) _ refl (is_regular t.files a' h.1)
          (a', record_observations-observed a' t h.0, h.1)

    build_locked-Built :
        (dir : String) (t : S)
        → Kept t
        → Outcome (Unrecorded api os s a) BuiltWith (build_locked api os a dir t)
    unfolding build_locked
    build_locked-Built dir t k =
        let domain = os.ignore.split dir in
        let built : Artifact → S → S × Flow Result =
          λ a' u. finish_build a' (record_observations api os a' u) in
        let archive_with : List Pattern → S → S × Flow Result =
          λ ps u. after_flow built (archive_dir api os a dir ps domain u) in
        Outcome-bind (Unrecorded api os s a) {A = List Pattern} Keeps BuiltWith archive_with _
          (all_patterns-Kept t.obj.spec.ignore domain (os.load_ignore_patterns dir domain t.files) t
            k)
          (λ u ps k'.
            Outcome-bind (Unrecorded api os s a) ArchivedIn BuiltWith built _
              (archive_dir-Archived dir ps domain u k') (λ v a' h. recorded-Built v a' h))

    unlock_artifact-Built :
        (t : S) (res : Result) → BuiltWith t res → BuiltWith (unlock_artifact api os a t) res
    unfolding unlock_artifact
    unlock_artifact-Built t res (r, (a', status, (d, read, e))) =
        (r, (a', status, (d, unlock_frame _ _ t.files ∙ read, e)))

    with_lock-Built :
        (dir : String) (err : Option Err) (t : S)
        → Kept t
        → Outcome (Unrecorded api os s a) BuiltWith (with_lock api os a dir err t)
    unfolding with_lock unlocked unlock_artifact
    with_lock-Built dir (some e) t k = (refl, refl, k.0)
    with_lock-Built dir none t k =
        Outcome-map (Unrecorded api os s a) BuiltWith BuiltWith (unlock_artifact api os a)
          (build_locked api os a dir t) unlock_artifact-Built (λ u res err f. f)
          (build_locked-Built dir t k)

    abbrev mkdir_of : S → FS × Option Err
    mkdir_of t = os.mkdir_all (api.removal.dir (path_of api os a)) 0o700 t.files

    abbrev lock_at : S → FS × Option Err
    lock_at t = os.lock (lock_of (path_of api os a)) t.files

    build_artifact-Built :
        (dir : String) → Outcome (Unrecorded api os s a) BuiltWith (build_artifact api os a dir s)
    unfolding build_artifact mkdir_all_of lock_artifact
    build_artifact-Built dir =
        let locked : S → S × Flow Result =
          λ t. after_flow (λ err. with_lock api os a dir err) (lock_artifact api os a t) in
        let made : S → S × Flow Result = λ t.
          after_flow (λ err u. after_flow (λ v. locked) (check_mkdir api os err u))
            (mkdir_all_of api os a t) in
        Outcome-bind (Unrecorded api os s a) {A = Unit {0}} Keeps BuiltWith (λ u. made) _
          (check_dir-Kept (os.stat_is_dir dir s.files) s (refl, refl, refl))
          (λ t u k.
            Outcome-bind (Unrecorded api os s a) {A = Unit {0}} Keeps BuiltWith (λ u. locked) _
              (check_mkdir-Kept (mkdir_of t).1 (record t { files = (mkdir_of t).0 }) k)
              (λ t u k. with_lock-Built dir (lock_at t).1 (record t { files = (lock_at t).0 }) k))

    current_or_built-IsReconciled :
        (dir : String)
        → Outcome
            (Unrecorded api os s a)
            (IsReconciled api os s a)
            (current_or_built api os a dir s)
    unfolding current_or_built
    current_or_built-IsReconciled dir =
        Outcome-if (Unrecorded api os s a) (IsReconciled api os s a) (is_current api os a s) _ _
          (λ u. (refl, inl (u, refl, refl)))
          (λ u.
            Outcome-weaken (Unrecorded api os s a) BuiltWith (IsReconciled api os s a)
              (build_artifact api os a dir s) (λ t res h. (h.0, inr h.1))
              (build_artifact-Built dir))

  mark_in_storage-IsReconciled :
      (s : S) (a : Artifact) (t : S) (res : Result)
      → IsReconciled api os s a t res
      → IsReconciled api os s a (mark_in_storage api os a t) res
  unfolding mark_in_storage
  mark_in_storage-IsReconciled s a t res h = elim (Bool-cases (is_current api os a t)) [
    | inl u ↦ rw u h
    | inr u ↦ rw u h
  ]

  mark_in_storage-status :
      (a : Artifact) (t : S) → (mark_in_storage api os a t).obj.status ≡ t.obj.status
  unfolding mark_in_storage
  mark_in_storage-status a t = elim (Bool-cases (is_current api os a t)) [
    | inl u ↦ rw u refl
    | inr u ↦ rw u refl
  ]

  -- However `reconcileArtifact` ends: with a success only if the object had the artifact of the
  -- commit, with its includes and its configuration, and then status and files are as they were, or
  -- if the file of that artifact holds the data whose digest and size the artifact in the new status
  -- has, which also names the includes and the configuration that it was built from; and without a
  -- success only with an error, and the status is as it was.
  pub reconcile_artifact-IsReconciled :
      (dir : String) (s : S)
      → Outcome
          (Unrecorded api os s (artifact_of api os s))
          (IsReconciled api os s (artifact_of api os s))
          (reconcile_artifact api os dir s)
  unfolding reconcile_artifact artifact_marked
  reconcile_artifact-IsReconciled dir s =
      let a = artifact_of api os s in
      Outcome-map (Unrecorded api os s a) (IsReconciled api os s a) (IsReconciled api os s a)
        (mark_in_storage api os a) (current_or_built api os a dir s)
        (λ t res h. mark_in_storage-IsReconciled s a t res h)
        (λ t res err f. (f.0, f.1, mark_in_storage-status a t ∙ f.2))
        (current_or_built-IsReconciled s a dir)
