-- ===== src/Archive/Tests.antt =====
-- An archive of one file by internal/controller/storage.go.
use source_controller.Common.{
  ℕ, ◌≡◌, refl, String, Bool, true, false, Option, none, some, List, [], ◌∷◌, String-discrete,
}
use source_controller.Common.Int.{ℤ, pos}
use source_controller.Errors.{ok}
use source_controller.Storage.{Artifact, local_path, place, write_file}
use source_controller.Storage.Example.{disk_api, created, renamed, copied}
use source_controller.Archive.{
  Header, Entry, Member, is_directory, archive, archive_walk, archive_entry,
}
use source_controller.Archive.Reproducible
use source_controller.Archive.Stored
use source_controller.Archive.Stored.{IsCopy}

abbrev artifact : Artifact
artifact = record {
  path = "a/b.tgz";
  url = "";
  revision = "main@sha1:1";
  digest = "";
  last_update_time = 0;
  size = none;
  metadata = [];
}

abbrev header : ℕ → ℕ → ℤ → Header
header mode uid time = record {
  name = "main.go";
  mode = mode;
  uid = uid;
  gid = uid;
  uname = "root";
  gname = "root";
  mod_time = some time;
  access_time = none;
  change_time = none;
  size = 1;
  is_dir = false;
  is_regular = true;
}

abbrev entry : Header → Entry Bool
entry h = record {
  path = "main.go";
  walk_err = none;
  is_regular = true;
  is_dir = false;
  header = ok h;
  content = ok true;
}

abbrev tar : List (Member Bool) → Option Bool
tar members = some true

abbrev relative : String → Bool
relative path = false

archive-archive_walk_example :
    let o =
      archive disk_api "/data" 7 relative
        (λ a b. ok b)
        tar
        artifact
        "repo"
        is_directory
        none
        (entry (header 0o644 1 (pos 5)) ∷ [])
        (λ p. none) in
    let walked =
      archive_walk relative (λ a b. ok b) "repo" none (entry (header 0o644 1 (pos 5)) ∷ []) in
    (is_directory ≡ is_directory)
    × (walked.1 ≡ none)
    × IsCopy disk_api "/data" 7 artifact (tar walked.0) (λ p. none) o
unfolding archive archive_walk archive_entry write_file place local_path disk_api String-discrete
    created renamed copied
archive-archive_walk_example =
    Stored.archive-archive_walk disk_api "/data" 7 relative (λ a b. ok b) tar artifact "repo"
      is_directory none (entry (header 0o644 1 (pos 5)) ∷ []) (λ p. none) refl

archive_walk-same_example :
    archive_walk relative (λ a b. ok b) "repo" none (entry (header 0o644 1 (pos 5)) ∷ [])
    ≡ archive_walk relative (λ a b. ok b) "repo" none (entry (header 0o600 2 (pos 9)) ∷ [])
archive_walk-same_example =
    Reproducible.archive_walk-same relative (λ a b. ok b) "repo" none
      (entry (header 0o644 1 (pos 5)) ∷ []) (entry (header 0o600 2 (pos 9)) ∷ [])
      (
        record {
          same_path = refl;
          same_walk_err = refl;
          same_is_regular = refl;
          same_is_dir = refl;
          same_headers = (refl, refl, refl, refl, refl);
          same_content = refl;
        },
        tt,
      )
