-- ===== src/Garbage.antt =====
-- Which files of an artifact's directory are garbage: `getGarbageFiles` of
-- internal/controller/storage.go. The walk over the directory is the list of the entries that
-- `filepath.WalkDir` hands to its callback, in order; `filepath.Ext` and the sort of the time stamps
-- are functions of Go's library, and parameters.
pub mod Walking
pub mod Retention
pub mod Oldest
pub mod Selection
pub mod Policy
pub mod Example
mod Tests
use source_controller.Common.{
  ℕ, zero, suc, ◌+◌, String, Bool, true, false, not, ◌&&◌, Option, none, some, List, [], ◌∷◌, ◌++◌,
  leb, ltb, if◌then◌else◌, decide, String-discrete, length,
}
use source_controller.Common.Int.{ℤ, pos, ◌-ℤ◌, ltb_ℤ, ℤ-discrete}
use source_controller.Common.GoMap
use source_controller.Common.GoMap.{GoMap}
use source_controller.Errors.{Err, plain, Fallible, ok, fail, ◌>>=◌}

-- fs.FileInfo, as far as it is looked at.
pub record FileInfo : Type 0 where
  pub mod_time : ℤ
  pub is_dir : Bool
  pub is_symlink : Bool

-- A call of the walk's callback: a path with an error, or with what `d.Info()` returns.
pub record DirEntry : Type 0 where
  pub path : String
  pub walk_err : Option Err
  pub info : Fallible FileInfo

-- The variables of `getGarbageFiles` that the callback changes.
pub record Walk : Type 0 where
  pub garbage_files : List String
  pub total_artifact_files : ℕ
  pub artifact_files_with_created_ts : GoMap ℤ String
  pub creation_timestamps : List ℤ
  pub errors : List Err

abbrev pub walk_start : Walk
walk_start = record {
  garbage_files = [];
  total_artifact_files = 0;
  artifact_files_with_created_ts = [];
  creation_timestamps = [];
  errors = [];
}

-- Path comparison, `a == b` on strings.
abbrev pub same : String → String → Bool
same a b = decide (String-discrete a b)

abbrev pub is_lock : (String → String) → String → Bool
is_lock ext path = same (ext path) ".lock"

unfoldable pub string_in_slice : String → List String → Bool
string_in_slice a [] = false
string_in_slice a (b ∷ list) = if same b a then true else string_in_slice a list

module _ (ext : String → String) (local_path : String) (total_count_limit : ℕ) (ttl now : ℤ) where
  -- An artifact file is recorded with its time, and is garbage if it is expired and not current.
  unfoldable pub record_file : String → FileInfo → Walk → Walk
  record_file path info w =
      let expired = ltb_ℤ ttl (now -ℤ info.mod_time) in
      if not info.is_dir && (not info.is_symlink && not (is_lock ext path))
      then record w {
        garbage_files =
            if not (same path local_path) && expired
            then w.garbage_files ++ path ∷ []
            else w.garbage_files;
        total_artifact_files = w.total_artifact_files + 1;
        artifact_files_with_created_ts =
            GoMap.put ℤ-discrete info.mod_time path w.artifact_files_with_created_ts;
        creation_timestamps = w.creation_timestamps ++ info.mod_time ∷ [];
      }
      else w

  record_info : String → Fallible FileInfo → Walk → Walk
  record_info path (fail e) w = record w { errors = w.errors ++ e ∷ [] }
  record_info path (ok info) w = record_file path info w

  visit_entry : Option Err → DirEntry → Walk → Option Walk
  visit_entry (some e) entry w = some (record w { errors = w.errors ++ e ∷ [] })
  visit_entry none entry w =
      if leb total_count_limit w.total_artifact_files
      then none
      else some (record_info entry.path entry.info w)

  -- The callback; `none` ends the walk.
  unfoldable pub visit : DirEntry → Walk → Option Walk
  unfolding visit_entry record_info record_file
  visit entry w = visit_entry entry.walk_err entry w

  unfoldable pub walk_dir : List DirEntry → Walk → Walk
  walk_dir [] w = w
  walk_dir (entry ∷ entries) w = elim (visit entry w) [ none ↦ w | some w' ↦ walk_dir entries w' ]

-- The paths in the order of the time stamps; a time stamp without a path is an error.
unfoldable pub sorted_paths : GoMap ℤ String → List ℤ → Fallible (List String)
sorted_paths files [] = ok []
sorted_paths files (ts ∷ timestamps) = elim (GoMap.get ℤ-discrete ts files) [
  | none ↦ fail (plain "failed to fetch file for created ts")
  | some path ↦ do paths ← sorted_paths files timestamps; ok (path ∷ paths)
]

module _ (ext : String → String) (local_path : String) (max_items_to_be_retained : ℤ) where
  -- How many of the `total` files remain, in the count of the last loop: it differs if the walk has
  -- found expired files.
  abbrev pub remaining : Bool → ℕ → ℕ → ℕ → ℤ
  remaining true total collected garbage = pos total -ℤ pos collected -ℤ pos garbage
  remaining false total collected garbage = pos total -ℤ pos collected

  -- The last loop: `expired` says that the walk has found garbage, `total` is the number of sorted
  -- paths, and `collected` counts what the loop has added.
  unfoldable pub collect : Bool → ℕ → ℕ → List String → List String → List String
  collect expired total collected [] garbage = garbage
  collect expired total collected (path ∷ paths) garbage =
      let skip = collect expired total collected paths garbage in
      let take = collect expired total (suc collected) paths (garbage ++ path ∷ []) in
      if not (same path local_path)
        && (not (is_lock ext path) && not (string_in_slice path garbage))
      then (if ltb_ℤ max_items_to_be_retained (remaining expired total collected (length garbage))
          then take
          else skip)
      else skip

module _ (ext : String → String) (sort : List ℤ → List ℤ) where
  -- The garbage files, beside the error that may come with them.
  unfoldable pub get_garbage_files :
      String → ℕ → ℤ → ℤ → ℤ → List DirEntry → List String × Option Err
  unfolding walk_dir collect
  get_garbage_files local_path total_count_limit max_items_to_be_retained ttl now entries =
      let w = walk_dir ext local_path total_count_limit ttl now entries walk_start in
      elim w.errors [
        | e ∷ es ↦ ([], some (plain "can't walk over file"))
        | [] ↦
            if ltb_ℤ (pos w.total_artifact_files -ℤ pos (length w.garbage_files))
              max_items_to_be_retained
            then (w.garbage_files, none)
            else elim (sorted_paths w.artifact_files_with_created_ts (sort w.creation_timestamps)) [
              | fail e ↦ (w.garbage_files, some e)
              | ok paths ↦ (
                collect ext local_path max_items_to_be_retained (ltb 0 (length w.garbage_files))
                    (length paths) 0 paths w.garbage_files,
                none,
              )
            ]
      ]
