-- ===== src/Git/Tests.antt =====
-- The decisions of internal/controller/gitrepository_controller.go for one object.
use source_controller.Common.{
  ◌≡◌, refl, ◌↔◌, ◌⊎◌, true, false, not, ◌||◌, none, some, [], ◌∷◌, length, is_some,
}
use source_controller.Errors.{plain, new_generic}
use source_controller.Reconcile.{result_empty, result_success}
use source_controller.Storage.{Artifact}
use source_controller.Git.{
  GitRepositoryInclude, GitRepositoryVerification, GitRepository, mode_git_tag,
  mode_git_tag_and_head, verify_head, verify_tag, requires_verification, git_content_config_changed,
  should_notify,
}
use source_controller.Git.Config
use source_controller.Git.Verification
use source_controller.Git.Verification.{covers_head, covers_tag}
use source_controller.Git.Lists.{AllMatch}
use source_controller.Git.Notify
use source_controller.Git.Notify.{IsIgnored, RevisionIs}

abbrev artifact : Artifact
artifact = record {
  path = "a.tgz";
  url = "";
  revision = "main@sha1:1";
  digest = "sha256:1";
  last_update_time = 0;
  size = none;
  metadata = [];
}

abbrev one_include : GitRepositoryInclude
one_include = record { git_repository_ref = "other"; from_path = "/"; to_path = "/lib" }

abbrev verification : GitRepositoryVerification
verification = record { mode = mode_git_tag_and_head; secret_ref = "keys" }

abbrev repository : GitRepository
repository = record {
  spec = record {
    url = "https://example.com/repo";
    secret_ref = none;
    provider = "";
    reference = none;
    proxy_secret_ref = none;
    suspend = false;
    ignore = none;
    recurse_submodules = true;
    include = one_include ∷ [];
    sparse_checkout = "docs" ∷ [];
    verification = some verification;
  };
  status = record {
    observed_generation = 1;
    last_handled_reconcile_at = "";
    artifact = some artifact;
    included_artifacts = some artifact ∷ [];
    observed_ignore = none;
    observed_recurse_submodules = true;
    observed_include = one_include ∷ [];
    observed_sparse_checkout = "docs" ∷ [];
    source_verification_mode = some mode_git_tag;
  };
}

requires_verification-covers_example : (requires_verification repository ≡ false) ↔ (
    ((not (verify_head verification) || covers_head mode_git_tag) ≡ true)
    × ((not (verify_tag verification) || covers_tag mode_git_tag) ≡ true))
requires_verification-covers_example =
    Verification.requires_verification-covers repository verification mode_git_tag refl refl refl

git_content_config_changed-false_example :
    (git_content_config_changed repository (artifact ∷ []) ≡ false) ↔ (
      (repository.spec.ignore ≡ repository.status.observed_ignore)
      × (repository.spec.recurse_submodules ≡ repository.status.observed_recurse_submodules)
      × (repository.spec.include ≡ repository.status.observed_include)
      × (requires_verification repository ≡ false)
      × (repository.spec.sparse_checkout ≡ repository.status.observed_sparse_checkout)
      × (length repository.spec.include ≡ length (artifact ∷ []))
      × AllMatch repository.status.included_artifacts (artifact ∷ []))
git_content_config_changed-false_example =
    Config.git_content_config_changed-false repository (artifact ∷ [])

should_notify-IsIgnored_example :
    (should_notify (some artifact) result_empty (some (new_generic (plain "no change") "NoChange"))
      ≡ true)
    ↔ ((is_some (some artifact) ≡ true)
        × (((some (new_generic (plain "no change") "NoChange") ≡ none)
              × (result_empty ≡ result_success))
            ⊎ ((result_empty ≡ result_empty)
                × IsIgnored (some (new_generic (plain "no change") "NoChange")))))
should_notify-IsIgnored_example =
    Notify.should_notify-IsIgnored (some artifact) result_empty
      (some (new_generic (plain "no change") "NoChange"))
