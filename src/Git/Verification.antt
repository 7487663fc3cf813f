-- ===== src/Git/Verification.antt =====
-- When the verification of a GitRepository is due: `requiresVerification` of
-- internal/controller/gitrepository_controller.go.
use source_controller.Common.{◌≡◌, ◌↔◌, String, Bool, true, false, not, ◌||◌, some, arith}
use source_controller.Git.{
  GitVerificationMode, mode_git_head, mode_git_tag, mode_git_tag_and_head, mode_unknown,
  GitRepositoryVerification, GitRepository, get_mode, verify_head, verify_tag, mode_changed,
  requires_verification,
}

-- The verification that a mode stands for.
abbrev pub covers_head : GitVerificationMode → Bool
covers_head mode_git_head = true
covers_head mode_git_tag_and_head = true
covers_head mode_git_tag = false
covers_head (mode_unknown s) = false

abbrev pub covers_tag : GitVerificationMode → Bool
covers_tag mode_git_tag = true
covers_tag mode_git_tag_and_head = true
covers_tag mode_git_head = false
covers_tag (mode_unknown s) = false

mode_changed-covered :
    (a mode : GitVerificationMode) (secret : String)
    → (covers_head a || covers_tag a) ≡ true
    → let v : GitRepositoryVerification = record { mode = mode; secret_ref = secret } in
      (mode_changed a (get_mode v) ≡ false) ↔ (
        ((not (verify_head v) || covers_head a) ≡ true)
        × ((not (verify_tag v) || covers_tag a) ≡ true))
unfolding mode_changed get_mode verify_head verify_tag
mode_changed-covered a mode secret h = ground arith

-- For an observed mode that is one of the three, a verification is not due exactly if the observed
-- one covers the HEAD and the tag as far as they are to be verified.
pub requires_verification-covers :
    (obj : GitRepository) (v : GitRepositoryVerification) (a : GitVerificationMode)
    → obj.spec.verification ≡ some v
    → obj.status.source_verification_mode ≡ some a
    → (covers_head a || covers_tag a) ≡ true
    → (requires_verification obj ≡ false) ↔ (
        ((not (verify_head v) || covers_head a) ≡ true)
        × ((not (verify_tag v) || covers_tag a) ≡ true))
unfolding requires_verification
requires_verification-covers obj v a e f h =
    rw (e, f, requires_verification) (mode_changed-covered a v.mode v.secret_ref h)
