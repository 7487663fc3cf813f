-- ===== src/Removal/Tests.antt =====
-- The removals of internal/controller/storage.go on a disk of three files.
use Prim.Native.String as Text
use text.Mathlib.TextPositions.{len-append}
use source_controller.Common.{
  ◌≡◌, ◌≢◌, refl, String, true, false, none, some, [], arith, String-discrete, if◌then◌else◌,
  decide, ◌==◌,
}
use source_controller.Common.Int.{pos}
use source_controller.Errors.{plain}
use source_controller.Storage.{Artifact, local_path}
use source_controller.Storage.Example.{Disk, disk_api}
use source_controller.Garbage.Example.{sort, sorts, five_files}
use source_controller.Removal.{RemovalApi, WalkEntry, lock_of, garbage_collect}
use source_controller.Removal.Collect

abbrev removal : RemovalApi Disk
removal = record {
  dir = λ p. "";
  stat = λ p disk. none;
  lstat = λ p disk. none;
  remove_all = λ p disk. (disk, none);
}

abbrev current : Artifact
current = record {
  path = "e";
  url = "";
  revision = "";
  digest = "";
  last_update_time = 0;
  size = none;
  metadata = [];
}

abbrev disk : Disk
disk = λ p. some true

abbrev entry : String → WalkEntry
entry p = record { path = p; walk_err = none; is_dir = false; is_symlink = false }

differ : (p q : String) → decide (String-discrete p q) ≡ false → p ≢ q
differ p q h = λ e. ground (arith, h, e)

-- An extension function that tells lock files from texts of one byte.
abbrev ext : String → String
ext s = if Text.len s == 1 then "" else ".lock"

ext-lock_of : (file : String) → ext (lock_of file) ≡ ".lock"
ext-lock_of file = ground (arith, len-append file ".lock")

garbage_collect-current_example :
    disk_api.read
      (garbage_collect disk_api removal "/data" 7
        (λ es. plain "aggregate")
        ext
        sort
        1000
        (pos 2)
        (pos 85)
        (some (plain "deadline"))
        current
        (pos 100)
        five_files
        disk).0
      (local_path disk_api "/data" 7 current)
    ≡ disk_api.read disk (local_path disk_api "/data" 7 current)
unfolding local_path disk_api String-discrete
garbage_collect-current_example =
    Collect.garbage_collect-current disk_api removal "/data" 7 (λ es. plain "aggregate") ext sort
      sorts 1000 (pos 2) (pos 85) ext-lock_of (some (plain "deadline")) current (pos 100) five_files
      disk (differ "" ".lock" refl)
