-- ===== src/Storage/Frame.antt =====
-- The writes of internal/controller/storage.go touch no file but the artifact's and a new one.
use source_controller.Common.{ℕ, String, ◌≡◌, ◌≢◌, refl, ◌∙◌, Option, none, some, arith}
use source_controller.Errors.{Err, Fallible, ok, fail}
use source_controller.Storage.{
  Artifact, StorageApi, local_path, place, place_result, after_mode, after_close, after_copy,
  after_create, set_mode, write_file, atomic_write_file, copy,
}

module _ {FS Data Reader : Type 0} (api : StorageApi FS Data Reader) (base_path : String) (now : ℕ)
    (artifact : Artifact) (q : String) (other : q ≢ local_path api base_path now artifact) where
  module _ (tf : String) (new : q ≢ tf) where
    place_result_frame :
        (d : Data) (o : FS × Option Err)
        → api.read (place_result api base_path now artifact tf d o).0 q ≡ api.read o.0 q
    unfolding place_result
    place_result_frame d (fs, some e) = api.remove_frame tf q fs new
    place_result_frame d (fs, none) = refl

    after_mode_frame :
        (d : Data) (o : FS × Option Err)
        → api.read (after_mode api base_path now artifact tf d o).0 q ≡ api.read o.0 q
    unfolding after_mode place
    after_mode_frame d (fs, some e) = api.remove_frame tf q fs new
    after_mode_frame d (fs, none) =
        place_result_frame d _
        ∙ api.rename_frame tf (local_path api base_path now artifact) q fs new other

    set_mode_frame :
        (mode : Option ℕ) (fs : FS)
        → api.read (set_mode api base_path now mode tf fs).0 q ≡ api.read fs q
    unfolding set_mode
    set_mode_frame none fs = refl
    set_mode_frame (some mode) fs = api.chmod_frame tf q mode fs

    after_close_frame :
        (mode : Option ℕ) (d : Data) (o : FS × Option Err)
        → api.read (after_close api base_path now mode artifact tf d o).0 q ≡ api.read o.0 q
    unfolding after_close
    after_close_frame mode d (fs, some e) = api.remove_frame tf q fs new
    after_close_frame mode d (fs, none) = after_mode_frame d _ ∙ set_mode_frame mode fs

    after_copy_frame :
        (mode : Option ℕ) (o : FS × Fallible Data)
        → api.read (after_copy api base_path now mode artifact tf o).0 q ≡ api.read o.0 q
    unfolding after_copy
    after_copy_frame mode (fs, fail e) =
        api.remove_frame tf q (api.close tf fs).0 new ∙ api.close_frame tf q fs
    after_copy_frame mode (fs, ok d) = after_close_frame mode d _ ∙ api.close_frame tf q fs

  after_create_frame :
      (mode : Option ℕ) (reader : Reader) (fs : FS) (d : Data)
      → api.read fs q ≡ some d
      → (o : FS × Fallible String) → api.create_temp (local_path api base_path now artifact) fs ≡ o
      → api.read (after_create api base_path now mode artifact reader o).0 q ≡ some d
  unfolding after_create
  after_create_frame mode reader fs d h (fs1, fail e) u =
      api.create_temp_frame _ q fs fs1 (fail e) u (λ t' v. absurd (ground (arith, v))) ∙ h
  after_create_frame mode reader fs d h (fs1, ok tf) u =
      let unused : api.read fs tf ≡ none = (api.create_temp_new _ tf fs fs1 u).0 in
      let new : q ≢ tf = λ v. absurd (ground (arith, h, unused, v)) in
      after_copy_frame tf new mode (api.copy_into tf reader fs1)
      ∙ api.copy_into_frame tf q reader fs1 new
      ∙ api.create_temp_frame _ q fs fs1 (ok tf) u (λ t' v. ground (arith, v, new))
      ∙ h

  -- Every other file is after either write as it was before it, also if the write fails.
  pub copy_frame :
      (mode : ℕ) (reader : Reader) (fs : FS) (d : Data)
      → api.read fs q ≡ some d
      → (api.read (atomic_write_file api base_path now artifact reader mode fs).0 q ≡ some d)
        × (api.read (copy api base_path now artifact reader fs).0 q ≡ some d)
  unfolding atomic_write_file copy write_file
  copy_frame mode reader fs d h = (
    after_create_frame (some mode) reader fs d h _ refl,
    after_create_frame none reader fs d h _ refl,
  )
