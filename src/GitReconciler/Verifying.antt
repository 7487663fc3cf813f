-- ===== src/GitReconciler/Verifying.antt =====
-- `verifySignature` of internal/controller/gitrepository_controller.go. The secrets of the cluster
-- are a parameter: the values of the data of one, in the order in which a map is ranged over.
use Prim.Native.String as Text
use source_controller.Common.{
  String, Bool, false, Option, none, some, List, decide, String-discrete, if◌then◌else◌,
}
use source_controller.Errors.{Err, plain, error, Fallible, ok, fail, new_generic, new_stalling}
use source_controller.Processor.{event_type_trace}
use source_controller.Reconcile.{Result, result_success}
use source_controller.Git.{
  GitRepositoryVerification, GitVerificationMode, mode_unknown, verify_head, verify_tag, get_mode,
}
use source_controller.Flow.{go, ◌>>=◌, ◌>>◌, give_up}
use source_controller.GitReconciler.{
  BaseApi, Sub, Tag, Commit, wrap, with_object, mark_true, mark_false, delete_condition, send,
  source_verified_condition, succeeded_reason,
}

-- `obj.Spec.Verification.Mode == ""`
unfoldable pub is_empty_mode : GitVerificationMode → Bool
is_empty_mode (mode_unknown s) = decide (String-discrete s "")
is_empty_mode _ = false

module _ {Conds FS Data Reader Cluster : Type 0} (api : BaseApi Conds FS Data Reader Cluster)
    (get_secret : String → String → Cluster → Fallible (List String)) where
  -- The condition is false with the error, which ends the sub-reconciler.
  unfoldable pub fail_verification : {A : Type 0} → Err → String → Sub api A
  fail_verification e reason = do
    mark_false api source_verified_condition reason (error e)
    give_up e

  abbrev pub set_verification_mode : Option GitVerificationMode → Sub api (Unit {0})
  set_verification_mode mode =
      with_object api
        (λ obj. record obj { status = record obj.status { source_verification_mode = mode } })

  abbrev pub join_line : String → String → String
  join_line message line =
      if decide (String-discrete message "")
      then Text.◌++◌ "verified signature of\n\t- " line
      else Text.◌++◌ message (Text.◌++◌ "\n\t- " line)

  abbrev pub verified_line : String → String → String → String
  verified_line kind name entity =
      Text.◌++◌ kind
        (Text.◌++◌ " '" (Text.◌++◌ name (Text.◌++◌ "' with key '" (Text.◌++◌ entity "'"))))

  -- The signature of the tag, with the message on it.
  unfoldable pub after_tag_verify : Tag → Fallible String → Sub api String
  unfolding fail_verification
  after_tag_verify tag (fail e) =
      fail_verification
        (new_generic (wrap "signature verification of tag failed" e) "InvalidTagSignature")
        "InvalidTagSignature"
  after_tag_verify tag (ok entity) =
      λ s. (s, go (join_line "" (verified_line "tag" tag.text entity)))

  unfoldable pub check_tag : List String → Option Tag → Sub api String
  unfolding after_tag_verify fail_verification
  check_tag key_rings none s =
      fail_verification
        (new_stalling
          (plain "cannot verify tag object's signature if a tag reference is not specified")
          "InvalidVerificationMode")
        "InvalidVerificationMode" s
  check_tag key_rings (some tag) s =
      if tag.is_signed
      then after_tag_verify tag (tag.verify key_rings) s
      else fail_verification
          (new_generic (plain "cannot verify signature of tag since it is not signed")
            "InvalidGitObject")
          "InvalidGitObject" s

  unfoldable pub verify_tag_object :
      GitRepositoryVerification → List String → Commit → Sub api String
  unfolding check_tag
  verify_tag_object v key_rings commit s =
      if verify_tag v then check_tag key_rings commit.referencing_tag s else (s, go "")

  unfoldable pub after_head_verify : String → String → Fallible String → Sub api String
  unfolding fail_verification
  after_head_verify message hash (fail e) =
      fail_verification
        (new_generic (wrap "signature verification of commit failed" e) "InvalidCommitSignature")
        "InvalidCommitSignature"
  after_head_verify message hash (ok entity) =
      λ s. (s, go (join_line message (verified_line "commit" hash entity)))

  unfoldable pub verify_head_commit :
      GitRepositoryVerification → List String → Commit → String → Sub api String
  unfolding after_head_verify
  verify_head_commit v key_rings commit message s =
      if verify_head v
      then after_head_verify message commit.hash (commit.verify key_rings) s
      else (s, go message)

  -- What is recorded on the object when all signatures that the mode asks for are verified.
  unfoldable pub record_verified : GitRepositoryVerification → String → Sub api Result
  record_verified v message = do
    set_verification_mode (some (get_mode v))
    mark_true api source_verified_condition succeeded_reason message
    send api event_type_trace succeeded_reason message
    λ s. (s, go result_success)

  unfoldable pub verify_with :
      GitRepositoryVerification → Commit → Fallible (List String) → Sub api Result
  unfolding fail_verification verify_tag_object verify_head_commit record_verified
  verify_with v commit (fail e) =
      fail_verification (new_generic (wrap "PGP public keys secret error" e) "VerificationError")
        "VerificationError"
  verify_with v commit (ok key_rings) = do
    message ← verify_tag_object v key_rings commit
    message' ← verify_head_commit v key_rings commit message
    record_verified v message'

  unfoldable pub forget_verification : Sub api Result
  forget_verification = do
    set_verification_mode none
    delete_condition api source_verified_condition
    λ s. (s, go result_success)

  unfoldable pub verify_configured : Option GitRepositoryVerification → Commit → Sub api Result
  unfolding verify_with is_empty_mode forget_verification
  verify_configured none commit s = forget_verification s
  verify_configured (some v) commit s =
      if is_empty_mode v.mode
      then forget_verification s
      else verify_with v commit (get_secret s.obj.metadata.namespace v.secret_ref s.cluster) s

  unfoldable pub verify_signature : Commit → Sub api Result
  unfolding verify_configured
  verify_signature commit s = verify_configured s.obj.spec.verification commit s
