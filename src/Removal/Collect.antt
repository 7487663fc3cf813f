-- ===== src/Removal/Collect.antt =====
-- What `GarbageCollect` of internal/controller/storage.go leaves.
use source_controller.Common.{
  ℕ, ◌≡◌, ◌≢◌, refl, ap, ◌∙◌, String, Option, List, [], ◌∷◌, arith, Option-cases, inl, inr, All,
  All-map,
}
use source_controller.Common.Int.{ℤ}
use source_controller.Errors.{Err}
use source_controller.Storage.{Artifact, StorageApi, local_path}
use source_controller.Garbage.{DirEntry, get_garbage_files}
use source_controller.Garbage.Selection.{IsSort}
use source_controller.Garbage.Policy.{get_garbage_files-IsArtifactFile}
use source_controller.Removal.{
  RemovalApi, Removed, removed_one, lock_of, remove_lock, remove_garbage, collect_garbage,
  garbage_collect,
}
use source_controller.Removal.Current.{removed_one_fs}

module _ {FS Data Reader : Type 0} (api : StorageApi FS Data Reader) (removal : RemovalApi FS)
    (base_path : String) (now : ℕ) where
  -- A file that is neither another nor its lock.
  abbrev pub IsApart : String → String → Type 0
  IsApart q file = (q ≢ file) × (q ≢ lock_of file)

  remove_lock_frame :
      (q file : String) (r : Removed api removal base_path now)
      → q ≢ lock_of file
      → api.read (remove_lock api removal base_path now file r).0 q ≡ api.read r.0 q
  unfolding remove_lock
  remove_lock_frame q file (fs, deleted, errors) n =
      elim (Option-cases (removal.lstat (lock_of file) fs)) [
        | inr (e, u) ↦ rw (u, remove_lock) refl
        | inl u ↦ elim (Option-cases (api.remove (lock_of file) fs).1) [
          | inl v ↦ rw (u, v, remove_lock) (api.remove_frame (lock_of file) q fs n)
          | inr (e, v) ↦ rw (u, v, remove_lock) (api.remove_frame (lock_of file) q fs n)
        ]
      ]

  remove_garbage_frame :
      (q : String) (files : List String) (r : Removed api removal base_path now)
      → All (IsApart q) files
      → api.read (remove_garbage api removal base_path now files r).0 q ≡ api.read r.0 q
  unfolding remove_garbage
  remove_garbage_frame q [] r h = refl
  remove_garbage_frame q (file ∷ files) (fs, deleted, errors) h =
      let removed =
        removed_one api removal base_path now file (fs, deleted, errors) (api.remove file fs) in
      remove_garbage_frame q files (remove_lock api removal base_path now file removed) h.1
      ∙ remove_lock_frame q file removed h.0.1
      ∙ ap (λ x. api.read x q)
          (removed_one_fs api removal base_path now file (fs, deleted, errors) (api.remove file fs))
      ∙ api.remove_frame file q fs h.0.0

  module _ (aggregate : List Err → Err) (ext : String → String) (sort : List ℤ → List ℤ)
      (sorts : IsSort sort) (garbage_count_limit : ℕ) (records ttl : ℤ) where
    abbrev garbage : Artifact → ℤ → List DirEntry → List String × Option Err
    garbage artifact time entries =
        get_garbage_files ext sort (local_path api base_path now artifact) garbage_count_limit
          records ttl time entries

    -- Whatever the goroutine meets, and whether or not there is a timeout, a file that is neither
    -- garbage nor the lock of garbage is as it was.
    pub garbage_collect_frame :
        (timeout : Option Err) (artifact : Artifact) (time : ℤ) (entries : List DirEntry) (fs : FS)
        (q : String)
        → All
            (λ file. (q ≢ file) × (q ≢ lock_of file))
            (get_garbage_files ext sort
              (local_path api base_path now artifact)
              garbage_count_limit
              records
              ttl
              time
              entries).0
        → api.read
            (garbage_collect api removal base_path now aggregate ext sort garbage_count_limit
              records ttl timeout artifact time entries fs).0
            q
          ≡ api.read fs q
    unfolding garbage_collect collect_garbage
    garbage_collect_frame timeout artifact time entries fs q h =
        elim (Option-cases (garbage artifact time entries).1) [
          | inr (e, u) ↦ rw (u, collect_garbage) refl
          | inl u ↦
              rw (u, collect_garbage)
                (remove_garbage_frame q (garbage artifact time entries).0 (fs, [], []) h)
        ]

    -- The current artifact is never removed, unless it is itself named like a lock file.
    pub garbage_collect-current :
        ((file : String) → ext (lock_of file) ≡ ".lock")
        → (timeout : Option Err) (artifact : Artifact) (time : ℤ) (entries : List DirEntry)
          (fs : FS)
        → ext (local_path api base_path now artifact) ≢ ".lock"
        → api.read
            (garbage_collect api removal base_path now aggregate ext sort garbage_count_limit
              records ttl timeout artifact time entries fs).0
            (local_path api base_path now artifact)
          ≡ api.read fs (local_path api base_path now artifact)
    garbage_collect-current lock timeout artifact time entries fs n =
        let local = local_path api base_path now artifact in
        garbage_collect_frame timeout artifact time entries fs local (
          All-map _ (IsApart local) _
            (λ file h. ((λ u. ground (arith, h.0, u)), λ u. n (ap ext u ∙ lock file)))
            (get_garbage_files-IsArtifactFile ext sort sorts local garbage_count_limit ttl time
              entries records))
