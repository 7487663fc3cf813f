-- ===== src/Archive/Stored.antt =====
-- An archive in the storage: `Archive` of internal/controller/storage.go.
use source_controller.Common.{
  ◌≡◌, ◌≢◌, refl, sym, ◌∙◌, ℕ, String, Bool, Option, none, some, List, arith,
}
use source_controller.Errors.{Err, Fallible, ok, fail}
use source_controller.Storage.{
  Artifact, StorageApi, Written, local_path, stored, place, place_result, after_mode, after_close,
  after_copy, after_create, set_mode,
}
use source_controller.Storage.Atomic.{
  IsWritten, give_up-IsWritten, after_create-IsWritten, set_mode_frame,
}
use source_controller.Archive.{
  Entry, Member, DirStat, not_exist, not_dir, is_directory, archive, archive_into, archive_walk,
  after_walk_error,
}

module _ {FS Data Reader : Type 0} (api : StorageApi FS Data Reader) (base_path : String)
    (now : ℕ) where
  module _ (artifact : Artifact) (tf : String) (d : Data) where
    abbrev lp : String
    lp = local_path api base_path now artifact

    -- Without an error the path holds the data, which the artifact describes.
    abbrev pub IsPlaced : Written api base_path now → Type 0
    IsPlaced o =
        o.2 ≡ none → (api.read o.0 lp ≡ some d) × (o.1 ≡ stored api base_path now artifact d)

    place_result-IsPlaced :
        (fs : FS)
        → api.read fs tf ≡ some d
        → (o : FS × Option Err) → api.rename_with_fallback tf lp fs ≡ o
        → IsPlaced (place_result api base_path now artifact tf d o)
    unfolding place_result
    place_result-IsPlaced fs r (fs', some e) q h = absurd (ground (arith, h))
    place_result-IsPlaced fs r (fs', none) q h = (api.rename_done tf lp fs fs' q ∙ r, refl)

    after_mode-IsPlaced :
        (o : FS × Option Err)
        → api.read o.0 tf ≡ some d
        → IsPlaced (after_mode api base_path now artifact tf d o)
    unfolding after_mode place
    after_mode-IsPlaced (fs, some e) r h = absurd (ground (arith, h))
    after_mode-IsPlaced (fs, none) r h =
        place_result-IsPlaced fs r (api.rename_with_fallback tf lp fs) refl h

    after_close-IsPlaced :
        (mode : Option ℕ) (o : FS × Option Err)
        → api.read o.0 tf ≡ some d
        → IsPlaced (after_close api base_path now mode artifact tf d o)
    unfolding after_close
    after_close-IsPlaced mode (fs, some e) r h = absurd (ground (arith, h))
    after_close-IsPlaced mode (fs, none) r h =
        after_mode-IsPlaced (set_mode api base_path now mode tf fs)
          (set_mode_frame api base_path now artifact fs tf mode tf fs ∙ r) h

  -- From these files on, a temporary file was created for the artifact and the reader was copied into
  -- it; the path holds the data that was copied, and the artifact describes it.
  abbrev pub IsCopy : Artifact → Reader → FS → Written api base_path now → Type 0
  IsCopy artifact reader start o =
      (t : String) × (fs : FS) × (fs' : FS) × (d : Data) × (api.create_temp
          (local_path api base_path now artifact) start
        ≡ (fs, ok t))
      × (api.copy_into t reader fs ≡ (fs', ok d))
      × (api.read o.0 (local_path api base_path now artifact) ≡ some d)
      × (o.1 ≡ stored api base_path now artifact d)

  after_create-IsCopy :
      (mode : Option ℕ) (artifact : Artifact) (reader : Reader) (start : FS)
      (o : FS × Fallible String)
      → api.create_temp (local_path api base_path now artifact) start ≡ o
      → (after_create api base_path now mode artifact reader o).2 ≡ none
      → IsCopy artifact reader start (after_create api base_path now mode artifact reader o)
  unfolding after_create after_copy
  after_create-IsCopy mode artifact reader start (fs, fail e) c h = absurd (ground (arith, h))
  after_create-IsCopy mode artifact reader start (fs, ok t) c h =
      copied (api.copy_into t reader fs) refl h
    where
      copied :
          (r : FS × Fallible Data)
          → api.copy_into t reader fs ≡ r
          → (after_copy api base_path now mode artifact t r).2 ≡ none
          → IsCopy artifact reader start (after_copy api base_path now mode artifact t r)
      copied (fs', fail e) q u = absurd (ground (arith, u))
      copied (fs', ok d) q u =
          let read = api.close_frame t t fs' ∙ api.copy_into_read t reader d fs fs' q in
          let placed = after_close-IsPlaced artifact t d mode (api.close t fs') read u in
          (t, fs, fs', d, c, q, placed.0, placed.1)

  module _ (is_abs : String → Bool) (rel : String → String → Fallible String)
      (tar : List (Member Data) → Reader) where
    after_walk_error-fails :
        (artifact : Artifact) (t : String) (e : Err) (c : FS × Fallible Data)
        → ¬ ((after_walk_error api base_path now is_abs rel tar artifact t e c).2 ≡ none)
    unfolding after_walk_error
    after_walk_error-fails artifact t e (fs, fail x) h = ground (arith, h)
    after_walk_error-fails artifact t e (fs, ok d) h = ground (arith, h)

    archive_into-IsCopy :
        (artifact : Artifact) (r : List (Member Data) × Option Err) (start : FS)
        (o : FS × Fallible String)
        → api.create_temp (local_path api base_path now artifact) start ≡ o
        → let w = archive_into api base_path now is_abs rel tar artifact r o in
          w.2 ≡ none → (r.1 ≡ none) × IsCopy artifact (tar r.0) start w
    unfolding archive_into
    archive_into-IsCopy artifact (members, none) start o c h =
        (refl, after_create-IsCopy (some 0o600) artifact (tar members) start o c h)
    archive_into-IsCopy artifact (members, some e) start (fs, fail x) c h =
        absurd (ground (arith, h))
    archive_into-IsCopy artifact (members, some e) start (fs, ok t) c h =
        absurd (after_walk_error-fails artifact t e _ h)

    -- An archive without an error comes from a walk without one, over a directory that is there. The
    -- file at the artifact's path holds what was copied, into the new temporary file, of the tarball of
    -- all members that the walk has added, and the artifact has the digest and the size of that data.
    pub archive-archive_walk :
        (artifact : Artifact) (dir : String) (stat : DirStat)
        (filter : Option (String → Bool → Bool)) (entries : List (Entry Data)) (fs : FS)
        → (archive api base_path now is_abs rel tar artifact dir stat filter entries fs).2 ≡ none
        → let walked = archive_walk is_abs rel dir filter entries in
          (stat ≡ is_directory)
          × (walked.1 ≡ none)
          × IsCopy artifact
              (tar walked.0)
              fs
              (archive api base_path now is_abs rel tar artifact dir stat filter entries fs)
    unfolding archive
    archive-archive_walk artifact dir not_exist filter entries fs h = absurd (ground (arith, h))
    archive-archive_walk artifact dir not_dir filter entries fs h = absurd (ground (arith, h))
    archive-archive_walk artifact dir is_directory filter entries fs h =
        let (walked, copy) =
          archive_into-IsCopy artifact (archive_walk is_abs rel dir filter entries) fs
            (api.create_temp (local_path api base_path now artifact) fs) refl h in
        (refl, walked, copy)

    after_walk_error-IsWritten :
        (artifact : Artifact) (fs : FS) (t : String) (e : Err) (c : FS × Fallible Data)
        → local_path api base_path now artifact ≢ t
        → api.read c.0 (local_path api base_path now artifact)
          ≡ api.read fs (local_path api base_path now artifact)
        → IsWritten api base_path now artifact fs
            (after_walk_error api base_path now is_abs rel tar artifact t e c)
    unfolding after_walk_error
    after_walk_error-IsWritten artifact fs t e (fs', fail x) n h =
        give_up-IsWritten api base_path now artifact fs t (api.close t fs').0 x n
          (api.close_frame t _ fs' ∙ h)
    after_walk_error-IsWritten artifact fs t e (fs', ok d) n h =
        give_up-IsWritten api base_path now artifact fs t (api.close t fs').0 e n
          (api.close_frame t _ fs' ∙ h)

    archive_into-IsWritten :
        (artifact : Artifact) (r : List (Member Data) × Option Err) (fs : FS)
        (o : FS × Fallible String)
        → api.create_temp (local_path api base_path now artifact) fs ≡ o
        → IsWritten api base_path now artifact fs
            (archive_into api base_path now is_abs rel tar artifact r o)
    unfolding archive_into after_create
    archive_into-IsWritten artifact (members, none) fs o q =
        after_create-IsWritten api base_path now (some 0o600) artifact (tar members) fs o q
    archive_into-IsWritten artifact (members, some e) fs (fs', fail x) q =
        after_create-IsWritten api base_path now (some 0o600) artifact (tar members) fs
          (fs', fail x) q
    archive_into-IsWritten artifact (members, some e) fs (fs', ok t) q =
        let p = local_path api base_path now artifact in
        let apart : p ≢ t = λ u. (api.create_temp_new p t fs fs' q).1 (sym u) in
        after_walk_error-IsWritten artifact fs t e (api.copy_into t (tar members) fs') apart (
          api.copy_into_frame t p (tar members) fs' apart
          ∙ api.create_temp_frame p p fs fs' (ok t) q (λ t' u. ground (arith, u, apart)))

    -- An archive is atomic: on an error the artifact and the file at its path are as they were, and
    -- else the path holds the data that the artifact describes.
    pub archive-IsWritten :
        (artifact : Artifact) (dir : String) (stat : DirStat)
        (filter : Option (String → Bool → Bool)) (entries : List (Entry Data)) (fs : FS)
        → IsWritten api base_path now artifact fs
            (archive api base_path now is_abs rel tar artifact dir stat filter entries fs)
    unfolding archive IsWritten
    archive-IsWritten artifact dir not_exist filter entries fs = (refl, refl)
    archive-IsWritten artifact dir not_dir filter entries fs = (refl, refl)
    archive-IsWritten artifact dir is_directory filter entries fs =
        archive_into-IsWritten artifact (archive_walk is_abs rel dir filter entries) fs
          (api.create_temp (local_path api base_path now artifact) fs) refl
