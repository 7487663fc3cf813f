-- ===== src/Storage/Verify.antt =====
-- What is written is found: `ArtifactExist` and `VerifyArtifact` of internal/controller/storage.go
-- after a write.
use source_controller.Common.{ℕ, String, ◌≡◌, ◌≢◌, true, none, ◌⊎◌}
use source_controller.Errors.{Err, ok, fail}
use source_controller.Storage.{Artifact, StorageApi, local_path}

-- What the storage relies on of the digest library: a computed digest is not empty, parses, and
-- verifies the data.
pub record DigestLaws {FS Data Reader : Type 0} (api : StorageApi FS Data Reader) : Type 0 where
  pub digest_non_empty : (d : Data) → api.digest d ≢ ""
  pub digest_parses : (d : Data) → api.parse_digest (api.digest d) ≡ none
  pub digest_verifies : (d : Data) → api.verify (api.digest d) d ≡ true

module _ {FS Data Reader : Type 0} (api : StorageApi FS Data Reader) (laws : DigestLaws api)
    (base_path : String) (now : ℕ) where
  -- The file of the artifact cannot be opened, or not be read to its end.
  abbrev pub IsUnreadable : Artifact → FS → Err → Type 0
  IsUnreadable artifact fs e =
      (api.open_file (local_path api base_path now artifact) fs ≡ fail e)
      ⊎ ((r : Reader) × (api.open_file (local_path api base_path now artifact) fs ≡ ok r)
          × (api.read_all r ≡ fail e))
