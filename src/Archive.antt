-- ===== src/Archive.antt =====
-- The archive of a directory, internal/controller/storage.go: `Archive`, `SourceIgnoreFilter`,
-- `sanitizeHeader` and `setDefaultMode`. The walk is the list of the entries that `filepath.Walk`
-- hands to its callback. The tar and gzip writers are a parameter: a reader of all that they write,
-- which fails where the callback has failed.
pub mod Reproducible
pub mod Stored
mod Tests
use Prim.Native.Nat.{bit_and}
use source_controller.Common.{
  ℕ, ◌==◌, ◌≡◌, String, Bool, true, false, not, ◌&&◌, ◌||◌, Option, none, some, List, [], ◌∷◌, ◌++◌,
  if◌then◌else◌,
}
use source_controller.Common.Int.{ℤ, pos}
use source_controller.Errors.{Err, plain, Fallible, ok, fail}
use source_controller.Storage.{Artifact, StorageApi, after_create, give_up, Written, local_path}

-- tar.Header, as far as it is read or set, with what its FileInfo says.
pub record Header : Type 0 where
  pub name : String
  pub mode : ℕ
  pub uid : ℕ
  pub gid : ℕ
  pub uname : String
  pub gname : String
  pub mod_time : Option ℤ
  pub access_time : Option ℤ
  pub change_time : Option ℤ
  pub size : ℕ
  pub is_dir : Bool
  pub is_regular : Bool

abbrev pub default_file_mode : ℕ
default_file_mode = 0o600

abbrev pub default_dir_mode : ℕ
default_dir_mode = 0o750

abbrev pub default_exe_file_mode : ℕ
default_exe_file_mode = 0o700

-- `mode & 0o111 != 0`
abbrev pub is_executable : Header → Bool
is_executable h = not (bit_and h.mode 0o111 == 0)

unfoldable pub set_default_mode : Header → Header
set_default_mode h =
    if h.is_dir
    then record h { mode = default_dir_mode }
    else if h.is_regular
    then (if is_executable h
        then record h { mode = default_exe_file_mode }
        else record h { mode = default_file_mode })
    else h

-- The zero time is `none`.
unfoldable pub sanitize_header : String → Header → Header
unfolding set_default_mode
sanitize_header rel_p h = set_default_mode (record h {
  name = rel_p;
  gid = 0;
  uid = 0;
  uname = "";
  gname = "";
  mod_time = none;
  access_time = none;
  change_time = none;
})

-- A call of the walk's callback: the path with an error, or with the mode of the file, the header
-- that tar makes of it, and the content of a regular file, or the error of reading it.
pub record Entry (Data : Type 0) : Type 0 where
  pub path : String
  pub walk_err : Option Err
  pub is_regular : Bool
  pub is_dir : Bool
  pub header : Fallible Header
  pub content : Fallible Data

-- A member of the archive.
abbrev pub Member : Type 0 → Type 0
Member Data = Header × Option Data

-- The packages go-git and sourceignore.
pub record IgnoreApi (Pattern Matcher : Type 0) : Type 0 where
  pub new_default_matcher : List Pattern → List String → Matcher
  pub vcs_patterns : List String → List Pattern
  pub new_matcher : List Pattern → Matcher
  pub matches : Matcher → List String → Bool → Bool
  -- strings.Split at the separator.
  pub split : String → List String

unfoldable pub source_ignore_filter :
    {Pattern Matcher : Type 0}
    → IgnoreApi Pattern Matcher
    → List Pattern
    → List String
    → String
    → Bool
    → Bool
source_ignore_filter ignore [] domain p is_dir =
    ignore.matches (ignore.new_default_matcher [] domain) (ignore.split p) is_dir
source_ignore_filter ignore (q ∷ ps) domain p is_dir =
    ignore.matches (ignore.new_matcher (ignore.vcs_patterns domain ++ q ∷ ps)) (ignore.split p)
      is_dir

abbrev is_filtered : Option (String → Bool → Bool) → String → Bool → Bool
is_filtered none path is_dir = false
is_filtered (some f) path is_dir = f path is_dir

module _ {Data : Type 0} (is_abs : String → Bool) (rel : String → String → Fallible String)
    (dir : String) (filter : Option (String → Bool → Bool)) where
  -- A header that is written, and the content if the file is regular. The header stays if the
  -- content cannot be read.
  unfoldable pub write_content : Bool → Fallible Data → Header → List (Member Data) × Option Err
  write_content false content h = ((h, none) ∷ [], none)
  write_content true (ok d) h = ((h, some d) ∷ [], none)
  write_content true (fail e) h = ((h, none) ∷ [], some e)

  unfoldable pub write_named :
      Bool → Fallible Data → Header → Fallible String → List (Member Data) × Option Err
  unfolding write_content
  write_named is_regular content h (fail e) = ([], some e)
  write_named is_regular content h (ok rel_file_path) =
      write_content is_regular content (sanitize_header rel_file_path h)

  unfoldable pub write_header :
      String → Bool → Fallible Data → Fallible Header → List (Member Data) × Option Err
  unfolding write_named
  write_header path is_regular content (fail e) = ([], some e)
  write_header path is_regular content (ok h) =
      write_named is_regular content h (if is_abs dir then rel dir path else ok path)

  -- The callback: what it adds to the archive, and its error.
  unfoldable pub archive_entry : Entry Data → List (Member Data) × Option Err
  unfolding write_header
  archive_entry e = elim e.walk_err [
    | some x ↦ ([], some x)
    | none ↦
        if not (e.is_regular || e.is_dir)
        then ([], none)
        else if is_filtered filter e.path e.is_dir
        then ([], none)
        else write_header e.path e.is_regular e.content e.header
  ]

  -- The walk ends with the first error.
  unfoldable pub then_walk :
      List (Member Data) × Option Err
      → List (Member Data) × Option Err
      → List (Member Data) × Option Err
  then_walk (members, some x) rest = (members, some x)
  then_walk (members, none) (more, err) = (members ++ more, err)

  unfoldable pub archive_walk : List (Entry Data) → List (Member Data) × Option Err
  unfolding then_walk
  archive_walk [] = ([], none)
  archive_walk (e ∷ es) = then_walk (archive_entry e) (archive_walk es)

-- os.Stat of the directory to be archived: whether it is there, and is a directory.
pub data DirStat : Type 0 where
  not_exist not_dir : DirStat
  is_directory : DirStat

module _ {FS Data Reader : Type 0} (api : StorageApi FS Data Reader) (base_path : String) (now : ℕ)
    (is_abs : String → Bool) (rel : String → String → Fallible String)
    (tar : List (Member Data) → Reader) where
  -- An error of the walk: what the walk had written is in the temporary file, which is closed and
  -- removed. An error of writing that is the error that the walk ended with.
  unfoldable pub after_walk_error :
      Artifact → String → Err → FS × Fallible Data → Written api base_path now
  after_walk_error artifact tmp_name e (fs, fail x) =
      give_up api base_path now artifact tmp_name (api.close tmp_name fs).0 x
  after_walk_error artifact tmp_name e (fs, ok d) =
      give_up api base_path now artifact tmp_name (api.close tmp_name fs).0 e

  -- What follows on the creation of the temporary file, given what the walk adds and its error.
  unfoldable pub archive_into :
      Artifact → List (Member Data) × Option Err → FS × Fallible String → Written api base_path now
  unfolding after_walk_error
  archive_into artifact (members, none) created =
      after_create api base_path now (some 0o600) artifact (tar members) created
  archive_into artifact (members, some e) (fs, fail x) = (fs, artifact, some x)
  archive_into artifact (members, some e) (fs, ok tmp_name) =
      after_walk_error artifact tmp_name e (api.copy_into tmp_name (tar members) fs)

  unfoldable pub archive :
      Artifact
      → String
      → DirStat
      → Option (String → Bool → Bool)
      → List (Entry Data)
      → FS
      → FS × Artifact × Option Err
  unfolding archive_into
  archive artifact dir not_exist filter entries fs = (fs, artifact, some (plain "invalid dir path"))
  archive artifact dir not_dir filter entries fs = (fs, artifact, some (plain "invalid dir path"))
  archive artifact dir is_directory filter entries fs =
      archive_into artifact (archive_walk is_abs rel dir filter entries)
        (api.create_temp (local_path api base_path now artifact) fs)
