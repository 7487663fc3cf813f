-- ===== src/Removal.antt =====
-- The removal of artifacts, internal/controller/storage.go: `Remove`, `RemoveAll`,
-- `RemoveAllButCurrent` and `GarbageCollect`. The walks are the lists of the entries that package
-- filepath hands to the callback; a file is removed from the file system of Storage.
pub mod Current
pub mod Collect
mod Tests
use Prim.Native.String as Text
use source_controller.Common.{
  ℕ, ltb, ◌≡◌, ◌≢◌, String, Bool, true, false, not, ◌&&◌, Option, none, some, List, [], ◌∷◌, ◌++◌,
  is_some, if◌then◌else◌, length,
}
use source_controller.Common.Int.{ℤ}
use source_controller.Errors.{Err, plain}
use source_controller.Storage.{Artifact, StorageApi, local_path}
use source_controller.Garbage.{DirEntry, same, get_garbage_files}

-- What the removals use of packages os and filepath besides: the directory of a path, whether a
-- directory or a file is there, and the removal of a tree.
pub record RemovalApi (FS : Type 0) : Type 0 where
  pub dir : String → String
  pub stat : String → FS → Option Err
  pub lstat : String → FS → Option Err
  pub remove_all : String → FS → FS × Option Err

-- A call of the callback of `RemoveAllButCurrent`.
pub record WalkEntry : Type 0 where
  pub path : String
  pub walk_err : Option Err
  pub is_dir : Bool
  pub is_symlink : Bool

-- What the goroutine of `GarbageCollect` sends on one of its channels.
pub data Sent : Type 0 where
  sent_err : Err → Sent
  sent_files : List String → Sent

abbrev pub lock_of : String → String
lock_of file = Text.◌++◌ file ".lock"

module _ {FS Data Reader : Type 0} (api : StorageApi FS Data Reader) (removal : RemovalApi FS)
    (base_path : String) (now : ℕ) where
  unfoldable pub remove : Artifact → FS → FS × Option Err
  remove artifact fs = api.remove (local_path api base_path now artifact) fs

  -- The directory that was there, and the error of its removal.
  unfoldable pub remove_artifacts : Artifact → FS → FS × String × Option Err
  remove_artifacts artifact fs =
      let dir = removal.dir (local_path api base_path now artifact) in
      let deleted_dir : String = elim (removal.stat dir fs) [ none ↦ dir | some e ↦ "" ] in
      let (fs', err) = removal.remove_all dir fs in (fs', deleted_dir, err)

  -- The files, the deleted ones and the errors.
  abbrev pub Removed : Type 0
  Removed = FS × List String × List Err

  abbrev removed_one : String → Removed → FS × Option Err → Removed
  removed_one path (fs, deleted, errors) (fs', none) = (fs', deleted ++ path ∷ [], errors)
  removed_one path (fs, deleted, errors) (fs', some e) = (fs', deleted, errors ++ e ∷ [])

  unfoldable pub remove_other : String → WalkEntry → Removed → Removed
  remove_other local entry (fs, deleted, errors) = elim entry.walk_err [
    | some e ↦ (fs, deleted, errors ++ e ∷ [])
    | none ↦
        if not (same entry.path local) && (not entry.is_dir && not entry.is_symlink)
        then removed_one entry.path (fs, deleted, errors) (api.remove entry.path fs)
        else (fs, deleted, errors)
  ]

  unfoldable pub remove_others : String → List WalkEntry → Removed → Removed
  unfolding remove_other
  remove_others local [] r = r
  remove_others local (entry ∷ entries) r = remove_others local entries (remove_other local entry r)

  abbrev pub failed_to_remove : List Err → Option Err
  failed_to_remove [] = none
  failed_to_remove (e ∷ es) = some (plain "failed to remove files")

  unfoldable pub remove_all_but_current :
      Artifact → List WalkEntry → FS → FS × List String × Option Err
  unfolding remove_others
  remove_all_but_current artifact entries fs =
      let (fs', deleted, errors) =
        remove_others (local_path api base_path now artifact) entries (fs, [], []) in
      (fs', deleted, failed_to_remove errors)

  -- The lock file of a file of garbage goes with it.
  unfoldable pub remove_lock : String → Removed → Removed
  remove_lock file (fs, deleted, errors) = elim (removal.lstat (lock_of file) fs) [
    | some e ↦ (fs, deleted, errors)
    | none ↦
        let (fs', err) = api.remove (lock_of file) fs in
        elim err [ none ↦ (fs', deleted, errors) | some e ↦ (fs', deleted, errors ++ e ∷ []) ]
  ]

  unfoldable pub remove_garbage : List String → Removed → Removed
  unfolding remove_lock
  remove_garbage [] r = r
  remove_garbage (file ∷ files) (fs, deleted, errors) =
      remove_garbage files
        (remove_lock file (removed_one file (fs, deleted, errors) (api.remove file fs)))

  module _ (aggregate : List Err → Err) (ext : String → String) (sort : List ℤ → List ℤ)
      (garbage_count_limit : ℕ) (records ttl : ℤ) where
    sent : List String → List Err → Sent
    sent deleted [] = sent_files deleted
    sent deleted (e ∷ es) = sent_err (aggregate (e ∷ es))

    -- The goroutine of `GarbageCollect`.
    unfoldable pub collect_garbage : Artifact → ℤ → List DirEntry → FS → FS × Sent
    unfolding remove_garbage sent
    collect_garbage artifact time entries fs =
        let (files, err) =
          get_garbage_files ext sort (local_path api base_path now artifact) garbage_count_limit
            records ttl time entries in
        elim err [
          | some e ↦ (fs, sent_err e)
          | none ↦
              let (fs', deleted, errors) = remove_garbage files (fs, [], []) in
              (fs', sent deleted errors)
        ]

    unfoldable pub answer : Option Err → Sent → List String × Option Err
    answer (some e) sent = ([], some e)
    answer none (sent_err e) = ([], some e)
    answer none (sent_files files) = (files, none)

    -- `timeout` is the error of the context, if it is done before the goroutine sends. The files
    -- are those that the goroutine leaves: a timeout does not stop it.
    unfoldable pub garbage_collect :
        Option Err → Artifact → ℤ → List DirEntry → FS → FS × List String × Option Err
    unfolding collect_garbage answer
    garbage_collect timeout artifact time entries fs =
        let (fs', sent) = collect_garbage artifact time entries fs in
        let (files, err) = answer timeout sent in (fs', files, err)
