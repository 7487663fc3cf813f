-- ===== src/Storage.antt =====
-- The artifact storage, internal/controller/storage.go, and the artifact of api/v1. The file
-- system, the names of temporary files and paths, and digests are other packages': a parameter
-- with laws. Among them is the repository's copy of a rename with fallback, internal/fs/fs.go, whose
-- source and target are in one directory here. A function that changes files returns the new file
-- system beside its results.
pub mod Naming
pub mod Atomic
pub mod Frame
pub mod Verify
pub mod Example
mod Tests
use source_controller.Common.{
  ℕ, zero, suc, String, ◌≡◌, ◌≢◌, Bool, true, false, not, ◌&&◌, ◌||◌, Option, none, some, List, [],
  ◌∷◌, if◌then◌else◌, decide, String-discrete,
}
use source_controller.Errors.{Err, plain, Fallible, ok, fail, ◌>>=◌}

pub record Artifact : Type 0 where
  pub path : String
  pub url : String
  pub revision : String
  pub digest : String
  pub last_update_time : ℕ
  pub size : Option ℕ
  pub metadata : List (String × String)

-- Package os and the packages around it. `read` is the content of the regular file at a path.
pub record StorageApi (FS Data Reader : Type 0) : Type 0 where
  pub read : FS → String → Option Data
  -- os.CreateTemp in the directory of a path and with its name.
  pub create_temp : String → FS → FS × Fallible String
  -- io.Copy into the temporary file, the digester and the counter: what has been copied.
  pub copy_into : String → Reader → FS → FS × Fallible Data
  pub close : String → FS → FS × Option Err
  pub chmod : String → ℕ → FS → FS × Option Err
  pub rename_with_fallback : String → String → FS → FS × Option Err
  pub remove : String → FS → FS × Option Err
  pub open_file : String → FS → Fallible Reader
  pub close_reader : Reader → Option Err
  -- io.Copy of what is read into a verifier: the data, or the error.
  pub read_all : Reader → Fallible Data
  pub secure_join : String → String → Fallible String
  -- The canonical digest, and the number of bytes.
  pub digest : Data → String
  pub size : Data → ℕ
  -- digest.Parse, and the check of data against a parsed digest.
  pub parse_digest : String → Option Err
  pub verify : String → Data → Bool
  pub create_temp_frame :
      (p q : String) (fs fs' : FS) (t : Fallible String)
      → create_temp p fs ≡ (fs', t)
      → ((t' : String) → t ≡ ok t' → q ≢ t')
      → read fs' q ≡ read fs q
  -- The temporary file is new, and is not the file that it is created for.
  pub create_temp_new :
      (p t : String) (fs fs' : FS) → create_temp p fs ≡ (fs', ok t) → (read fs t ≡ none) × (t ≢ p)
  pub copy_into_frame :
      (t q : String) (r : Reader) (fs : FS) → q ≢ t → read (copy_into t r fs).0 q ≡ read fs q
  pub copy_into_read :
      (t : String) (r : Reader) (d : Data) (fs fs' : FS)
      → copy_into t r fs ≡ (fs', ok d)
      → read fs' t ≡ some d
  pub close_frame : (t q : String) (fs : FS) → read (close t fs).0 q ≡ read fs q
  pub chmod_frame : (t q : String) (mode : ℕ) (fs : FS) → read (chmod t mode fs).0 q ≡ read fs q
  -- A rename that fails leaves the target, and one that succeeds puts the source there.
  pub rename_frame :
      (s t q : String) (fs : FS)
      → q ≢ s
      → q ≢ t
      → read (rename_with_fallback s t fs).0 q ≡ read fs q
  pub rename_failed :
      (s t : String) (fs fs' : FS) (e : Err)
      → rename_with_fallback s t fs ≡ (fs', some e)
      → read fs' t ≡ read fs t
  pub rename_done :
      (s t : String) (fs fs' : FS)
      → rename_with_fallback s t fs ≡ (fs', none)
      → read fs' t ≡ read fs s
  -- A regular file that is opened and read to its end gives its content.
  pub read_all-open_file :
      (p : String) (r : Reader) (d d' : Data) (fs : FS)
      → open_file p fs ≡ ok r
      → read_all r ≡ ok d
      → read fs p ≡ some d'
      → d ≡ d'
  pub remove_done : (t : String) (fs fs' : FS) → remove t fs ≡ (fs', none) → read fs' t ≡ none
  pub remove_frame : (t q : String) (fs : FS) → q ≢ t → read (remove t fs).0 q ≡ read fs q

-- HasRevision and HasDigest; a nil artifact has none.
unfoldable pub has_revision : Option Artifact → String → Bool
has_revision none revision = false
has_revision (some a) revision = decide (String-discrete a.revision revision)

unfoldable pub has_digest : Option Artifact → String → Bool
has_digest none digest = false
has_digest (some a) digest = decide (String-discrete a.digest digest)

module _ {FS Data Reader : Type 0} (api : StorageApi FS Data Reader) (base_path : String)
    (now : ℕ) where
  local_join : Fallible String → String
  local_join (ok path) = path
  local_join (fail e) = ""

  unfoldable pub local_path : Artifact → String
  unfolding local_join
  local_path artifact =
      if decide (String-discrete artifact.path "")
      then ""
      else local_join (api.secure_join base_path artifact.path)

  -- What the success of a write records on the artifact.
  abbrev pub stored : Artifact → Data → Artifact
  stored artifact d = record artifact {
    digest = api.digest d;
    last_update_time = now;
    size = some (api.size d);
  }

  abbrev pub Written : Type 0
  Written = FS × Artifact × Option Err

  -- The deferred removal of the temporary file, on an error.
  abbrev pub give_up : Artifact → String → FS → Err → Written
  give_up artifact tf_name fs e = ((api.remove tf_name fs).0, artifact, some e)

  -- The rename, and the fields of the artifact.
  unfoldable pub place_result : Artifact → String → Data → FS × Option Err → Written
  place_result artifact tf_name d (fs, some e) = give_up artifact tf_name fs e
  place_result artifact tf_name d (fs, none) = (fs, stored artifact d, none)

  unfoldable pub place : Artifact → String → Data → FS → Written
  unfolding place_result
  place artifact tf_name d fs =
      place_result artifact tf_name d (api.rename_with_fallback tf_name (local_path artifact) fs)

  -- The mode of the file, where the function sets one.
  unfoldable pub set_mode : Option ℕ → String → FS → FS × Option Err
  set_mode none tf_name fs = (fs, none)
  set_mode (some mode) tf_name fs = api.chmod tf_name mode fs

  unfoldable pub after_mode : Artifact → String → Data → FS × Option Err → Written
  unfolding place
  after_mode artifact tf_name d (fs, some e) = give_up artifact tf_name fs e
  after_mode artifact tf_name d (fs, none) = place artifact tf_name d fs

  unfoldable pub after_close : Option ℕ → Artifact → String → Data → FS × Option Err → Written
  unfolding set_mode after_mode
  after_close mode artifact tf_name d (fs, some e) = give_up artifact tf_name fs e
  after_close mode artifact tf_name d (fs, none) =
      after_mode artifact tf_name d (set_mode mode tf_name fs)

  unfoldable pub after_copy : Option ℕ → Artifact → String → FS × Fallible Data → Written
  unfolding after_close
  after_copy mode artifact tf_name (fs, fail e) =
      give_up artifact tf_name (api.close tf_name fs).0 e
  after_copy mode artifact tf_name (fs, ok d) =
      after_close mode artifact tf_name d (api.close tf_name fs)

  unfoldable pub after_create : Option ℕ → Artifact → Reader → FS × Fallible String → Written
  unfolding after_copy
  after_create mode artifact reader (fs, fail e) = (fs, artifact, some e)
  after_create mode artifact reader (fs, ok tf_name) =
      after_copy mode artifact tf_name (api.copy_into tf_name reader fs)

  -- The body that `AtomicWriteFile` and `Copy` share: the first sets a mode.
  unfoldable pub write_file : Option ℕ → Artifact → Reader → FS → Written
  unfolding after_create
  write_file mode artifact reader fs =
      after_create mode artifact reader (api.create_temp (local_path artifact) fs)

  unfoldable pub atomic_write_file : Artifact → Reader → ℕ → FS → Written
  unfolding write_file
  atomic_write_file artifact reader mode fs = write_file (some mode) artifact reader fs

  unfoldable pub copy : Artifact → Reader → FS → Written
  unfolding write_file
  copy artifact reader fs = write_file none artifact reader fs

  -- The error of closing the source counts only if there is no other.
  close_source : Reader → Written → Written
  close_source f (fs, artifact, some e) = (fs, artifact, some e)
  close_source f (fs, artifact, none) = (fs, artifact, api.close_reader f)

  copy_opened : Artifact → FS → Fallible Reader → Written
  copy_opened artifact fs (fail e) = (fs, artifact, some e)
  copy_opened artifact fs (ok f) = close_source f (copy artifact f fs)

  unfoldable pub copy_from_path : Artifact → String → FS → Written
  unfolding copy_opened close_source copy
  copy_from_path artifact path fs = copy_opened artifact fs (api.open_file path fs)

  -- os.Lstat of a regular file.
  unfoldable pub artifact_exist : Artifact → FS → Bool
  artifact_exist artifact fs = elim (api.read fs (local_path artifact)) [
    | none ↦ false
    | some d ↦ true
  ]

  unfoldable pub verify_content : String → Fallible Data → Option Err
  verify_content digest (fail e) = some e
  verify_content digest (ok d) =
      if api.verify digest d then none else some (plain "computed digest doesn't match")

  unfoldable pub verify_opened : String → Fallible Reader → Option Err
  unfolding verify_content
  verify_opened digest (fail e) = some e
  verify_opened digest (ok f) = verify_content digest (api.read_all f)

  unfoldable pub verify_parsed : Artifact → FS → Option Err → Option Err
  unfolding verify_opened
  verify_parsed artifact fs (some e) = some e
  verify_parsed artifact fs none =
      verify_opened artifact.digest (api.open_file (local_path artifact) fs)

  unfoldable pub verify_artifact : Artifact → FS → Option Err
  unfolding verify_parsed
  verify_artifact artifact fs =
      if decide (String-discrete artifact.digest "")
      then some (plain "artifact has no digest")
      else verify_parsed artifact fs (api.parse_digest artifact.digest)
