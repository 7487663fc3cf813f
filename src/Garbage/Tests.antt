-- ===== src/Garbage/Tests.antt =====
-- The retention policy of internal/controller/storage.go at a directory of five files.
use source_controller.Common.{
  ◌+◌, ◌≤◌, ◌<◌, String, ◌≡◌, refl, ◌⊎◌, false, none, [], ◌∷◌, arith, length, take, All, Any,
  String-discrete,
}
use source_controller.Common.Int.{pos, ℤ-discrete, ◌-ℤ◌}
use source_controller.Common.GoMap
use source_controller.Garbage.{
  walk_start, walk_dir, visit, same, sorted_paths, collect, string_in_slice, get_garbage_files,
}
use source_controller.Garbage.Walking.{IsArtifactFile}
use source_controller.Garbage.Retention.{eligible}
use source_controller.Garbage.Policy
use source_controller.Garbage.Oldest.{drop, IsOlder}
use source_controller.Garbage.Example.{sort, sorts, five_files}

abbrev ext : String → String
ext path = ".tgz"

program : Unit {0}
unfolding get_garbage_files walk_dir visit sorted_paths collect string_in_slice String-discrete
    ℤ-discrete GoMap.get GoMap.put ◌-ℤ◌
program = tt

-- With nothing expired, the two newest files are left.
oldest_first :
    get_garbage_files ext sort "e" 1000 (pos 2) (pos 1000) (pos 100) five_files
    ≡ ("a" ∷ "b" ∷ "c" ∷ [], none)
unfolding program
oldest_first = refl

-- With one file expired, three files are left and not two.
one_expired :
    get_garbage_files ext sort "e" 1000 (pos 2) (pos 85) (pos 100) five_files
    ≡ ("a" ∷ "b" ∷ [], none)
unfolding program
one_expired = refl

get_garbage_files-IsArtifactFile_example :
    All
      (λ p. (same p "e" ≡ false) × Any (λ e. (e.path ≡ p) × IsArtifactFile ext e) five_files)
      (get_garbage_files ext sort "e" 1000 (pos 2) (pos 85) (pos 100) five_files).0
get_garbage_files-IsArtifactFile_example =
    Policy.get_garbage_files-IsArtifactFile ext sort sorts "e" 1000 (pos 85) (pos 100) five_files
      (pos 2)

get_garbage_files_retains_example :
    let w = walk_dir ext "e" 1000 (pos 85) (pos 100) five_files walk_start in
    let out = (get_garbage_files ext sort "e" 1000 (pos 2) (pos 85) (pos 100) five_files).0 in
    (length out ≤ length w.garbage_files) ⊎ (length out + 2 ≤ w.total_artifact_files)
unfolding program
get_garbage_files_retains_example =
    Policy.get_garbage_files_retains ext sort sorts "e" 1000 (pos 85) (pos 100) five_files 2 refl

get_garbage_files_leaves_more_example :
    length (get_garbage_files ext sort "e" 1000 (pos 2) (pos 85) (pos 100) five_files).0 + 2
    < (walk_dir ext "e" 1000 (pos 85) (pos 100) five_files walk_start).total_artifact_files
unfolding program
get_garbage_files_leaves_more_example =
    Policy.get_garbage_files_leaves_more ext sort sorts "e" 1000 (pos 85) (pos 100) five_files 2
      refl (omega arith) (omega arith)

get_garbage_files-take_example :
    let files =
      (walk_dir ext "e" 1000
        (pos 1000)
        (pos 100)
        five_files
        walk_start).artifact_files_with_created_ts in
    let garbage = (get_garbage_files ext sort "e" 1000 (pos 2) (pos 1000) (pos 100) five_files).0 in
    (garbage ≡ take 3 (eligible ext "e" ("a" ∷ "b" ∷ "c" ∷ "d" ∷ "e" ∷ [])))
    × All
        (λ p. All (IsOlder files p) (drop 3 (eligible ext "e" ("a" ∷ "b" ∷ "c" ∷ "d" ∷ "e" ∷ []))))
        garbage
unfolding program
get_garbage_files-take_example =
    Policy.get_garbage_files-take ext sort sorts "e" 1000 (pos 1000) (pos 100) five_files 2 refl
      ("a" ∷ "b" ∷ "c" ∷ "d" ∷ "e" ∷ []) refl refl
      (
        (refl, (refl, (refl, (refl, tt)))),
        ((refl, (refl, (refl, tt))), ((refl, (refl, tt)), ((refl, tt), (tt, tt)))),
      )
