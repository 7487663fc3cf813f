-- ===== src/Storage/Atomic.antt =====
-- The writes of internal/controller/storage.go are atomic.
use source_controller.Common.{ℕ, String, ◌≡◌, ◌≢◌, refl, sym, ap, ◌∙◌, Option, none, some, arith}
use source_controller.Errors.{Err, Fallible, ok, fail}
use source_controller.Storage.{
  Artifact, StorageApi, local_path, stored, place, place_result, after_mode, after_close,
  after_copy, after_create, set_mode, write_file, atomic_write_file, copy,
}

module _ {FS Data Reader : Type 0} (api : StorageApi FS Data Reader) (base_path : String)
    (now : ℕ) where
  -- What a write may leave: on an error the artifact and the file at its path as they were, and
  -- else data at its path that the artifact describes.
  unfoldable pub IsWritten : Artifact → FS → FS × Artifact × Option Err → Type 0
  IsWritten artifact fs (fs', artifact', some e) =
      (artifact' ≡ artifact)
      × (api.read fs' (local_path api base_path now artifact)
          ≡ api.read fs (local_path api base_path now artifact))
  IsWritten artifact fs (fs', artifact', none) =
      (d : Data) × (api.read fs' (local_path api base_path now artifact) ≡ some d)
      × (artifact' ≡ stored api base_path now artifact d)

  module _ (artifact : Artifact) (fs : FS) (tf : String) where
    abbrev lp : String
    lp = local_path api base_path now artifact

    pub give_up-IsWritten :
        (fs1 : FS) (e : Err)
        → lp ≢ tf
        → api.read fs1 lp ≡ api.read fs lp
        → IsWritten artifact fs ((api.remove tf fs1).0, artifact, some e)
    unfolding IsWritten
    give_up-IsWritten fs1 e n h = (refl, api.remove_frame tf lp fs1 n ∙ h)

    place_result-IsWritten :
        (d : Data) (fs1 : FS)
        → lp ≢ tf
        → api.read fs1 lp ≡ api.read fs lp
        → api.read fs1 tf ≡ some d
        → (o : FS × Option Err) → api.rename_with_fallback tf lp fs1 ≡ o
        → IsWritten artifact fs (place_result api base_path now artifact tf d o)
    unfolding place_result IsWritten
    place_result-IsWritten d fs1 n h r (fs2, some e) q =
        give_up-IsWritten fs2 e n (api.rename_failed tf lp fs1 fs2 e q ∙ h)
    place_result-IsWritten d fs1 n h r (fs2, none) q =
        (d, api.rename_done tf lp fs1 fs2 q ∙ r, refl)

    after_mode-IsWritten :
        (d : Data) (o : FS × Option Err)
        → lp ≢ tf
        → api.read o.0 lp ≡ api.read fs lp
        → api.read o.0 tf ≡ some d
        → IsWritten artifact fs (after_mode api base_path now artifact tf d o)
    unfolding after_mode place
    after_mode-IsWritten d (fs1, some e) n h r = give_up-IsWritten fs1 e n h
    after_mode-IsWritten d (fs1, none) n h r =
        place_result-IsWritten d fs1 n h r (api.rename_with_fallback tf lp fs1) refl

    -- The mode changes no content.
    pub set_mode_frame :
        (mode : Option ℕ) (q : String) (fs1 : FS)
        → api.read (set_mode api base_path now mode tf fs1).0 q ≡ api.read fs1 q
    unfolding set_mode
    set_mode_frame none q fs1 = refl
    set_mode_frame (some mode) q fs1 = api.chmod_frame tf q mode fs1

    after_close-IsWritten :
        (mode : Option ℕ) (d : Data) (o : FS × Option Err)
        → lp ≢ tf
        → api.read o.0 lp ≡ api.read fs lp
        → api.read o.0 tf ≡ some d
        → IsWritten artifact fs (after_close api base_path now mode artifact tf d o)
    unfolding after_close
    after_close-IsWritten mode d (fs1, some e) n h r = give_up-IsWritten fs1 e n h
    after_close-IsWritten mode d (fs1, none) n h r =
        after_mode-IsWritten d (set_mode api base_path now mode tf fs1) n
          (set_mode_frame mode lp fs1 ∙ h) (set_mode_frame mode tf fs1 ∙ r)

    after_copy-IsWritten :
        (mode : Option ℕ) (o : FS × Fallible Data)
        → lp ≢ tf
        → api.read o.0 lp ≡ api.read fs lp
        → ((d : Data) → o.1 ≡ ok d → api.read o.0 tf ≡ some d)
        → IsWritten artifact fs (after_copy api base_path now mode artifact tf o)
    unfolding after_copy
    after_copy-IsWritten mode (fs1, fail e) n h r =
        give_up-IsWritten (api.close tf fs1).0 e n (api.close_frame tf lp fs1 ∙ h)
    after_copy-IsWritten mode (fs1, ok d) n h r =
        after_close-IsWritten mode d (api.close tf fs1) n (api.close_frame tf lp fs1 ∙ h)
          (api.close_frame tf tf fs1 ∙ r d refl)

  pub after_create-IsWritten :
      (mode : Option ℕ) (artifact : Artifact) (reader : Reader) (fs : FS) (o : FS × Fallible String)
      → api.create_temp (local_path api base_path now artifact) fs ≡ o
      → IsWritten artifact fs (after_create api base_path now mode artifact reader o)
  unfolding after_create IsWritten
  after_create-IsWritten mode artifact reader fs (fs1, fail e) q = (
    refl,
    api.create_temp_frame (local_path api base_path now artifact) _ fs fs1 (fail e) q
        (λ t' u. absurd (ground (arith, u))),
  )
  after_create-IsWritten mode artifact reader fs (fs1, ok tf) q =
      let lp = local_path api base_path now artifact in
      let apart : lp ≢ tf = λ u. (api.create_temp_new lp tf fs fs1 q).1 (sym u) in
      after_copy-IsWritten artifact fs tf mode (api.copy_into tf reader fs1) apart
        (api.copy_into_frame tf lp reader fs1 apart
          ∙ api.create_temp_frame lp lp fs fs1 (ok tf) q (λ t' u. ground (arith, u, apart)))
        (λ d u.
          api.copy_into_read tf reader d fs1 (api.copy_into tf reader fs1).0
            (ap (λ x. ((api.copy_into tf reader fs1).0, x)) u))

  pub write_file-IsWritten :
      (mode : Option ℕ) (artifact : Artifact) (reader : Reader) (fs : FS)
      → IsWritten artifact fs (write_file api base_path now mode artifact reader fs)
  unfolding write_file
  write_file-IsWritten mode artifact reader fs =
      after_create-IsWritten mode artifact reader fs
        (api.create_temp (local_path api base_path now artifact) fs) refl

  -- Both writes of a reader are atomic: on an error the artifact and the file at its path are as
  -- they were, and else the path holds the data that the artifact describes.
  pub copy-IsWritten :
      (mode : ℕ) (artifact : Artifact) (reader : Reader) (fs : FS)
      → IsWritten artifact fs (atomic_write_file api base_path now artifact reader mode fs)
        × IsWritten artifact fs (copy api base_path now artifact reader fs)
  unfolding atomic_write_file copy
  copy-IsWritten mode artifact reader fs = (
    write_file-IsWritten (some mode) artifact reader fs,
    write_file-IsWritten none artifact reader fs,
  )
