-- ===== src/Storage/Tests.antt =====
-- The writes of internal/controller/storage.go on a disk with one other file.
use source_controller.Common.{
  ap, ◌≡◌, refl, true, false, none, some, [], arith, String-discrete, if◌then◌else◌, decide,
}
use source_controller.Storage.{Artifact, local_path, atomic_write_file, copy}
use source_controller.Storage.Atomic
use source_controller.Storage.Atomic.{IsWritten}
use source_controller.Storage.Frame
use source_controller.Storage.Verify
use source_controller.Storage.Example.{Disk, disk_api}

abbrev new_artifact : Artifact
new_artifact = record {
  path = "a/b.tgz";
  url = "";
  revision = "main@sha1:1";
  digest = "";
  last_update_time = 0;
  size = none;
  metadata = [];
}

abbrev one_file : Disk
one_file = λ p. if decide (String-discrete p "a/old.tgz") then some true else none

copy-IsWritten_example :
    IsWritten disk_api "/data" 7 new_artifact one_file
      (atomic_write_file disk_api "/data" 7 new_artifact (some true) 420 one_file)
    × IsWritten disk_api "/data" 7 new_artifact one_file
        (copy disk_api "/data" 7 new_artifact (some true) one_file)
copy-IsWritten_example =
    Atomic.copy-IsWritten disk_api "/data" 7 420 new_artifact (some true) one_file

copy_frame_example :
    (disk_api.read
        (atomic_write_file disk_api "/data" 7 new_artifact (some false) 420 one_file).0
        "a/old.tgz"
      ≡ some true)
    × (disk_api.read (copy disk_api "/data" 7 new_artifact (some false) one_file).0 "a/old.tgz"
        ≡ some true)
unfolding local_path disk_api String-discrete
copy_frame_example =
    Frame.copy_frame disk_api "/data" 7 new_artifact "a/old.tgz"
      (λ e. absurd (ground (arith, ap (λ x. decide (String-discrete x "a/b.tgz")) e))) 420
      (some false) one_file true refl
