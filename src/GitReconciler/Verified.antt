-- ===== src/GitReconciler/Verified.antt =====
-- What the end of `verifySignature` of internal/controller/gitrepository_controller.go says of the
-- signatures.
use source_controller.Common.{
  is_some, ◌≡◌, refl, String, true, false, Option, none, some, List, arith, inl, inr, ◌⊎◌,
}
use source_controller.Errors.{Err, Fallible, ok, fail}
use source_controller.Conditions.{Condition, has_status, status_true, status_false}
use source_controller.Reconcile.{Result, result_empty, result_success}
use source_controller.Git.{GitRepositoryVerification, verify_head, verify_tag, get_mode}
use source_controller.Flow.{Flow, after_flow}
use source_controller.Flow.Laws.{Outcome, Outcome-bind, Outcome-if, Outcome-weaken}
use source_controller.GitReconciler.{BaseApi, State, Tag, Commit, source_verified_condition}
use source_controller.GitReconciler.Verifying.{
  is_empty_mode, fail_verification, after_tag_verify, check_tag, verify_tag_object,
  after_head_verify, verify_head_commit, record_verified, verify_with, forget_verification,
  verify_configured, verify_signature,
}

module _ {Conds FS Data Reader Cluster : Type 0} (api : BaseApi Conds FS Data Reader Cluster)
    (get_secret : String → String → Cluster → Fallible (List String)) where
  abbrev S : Type 0
  S = State Conds FS Cluster

  -- Some key of the rings verifies the tag, which is signed.
  abbrev pub IsVerifiedTag : List String → Option Tag → Type 0
  IsVerifiedTag key_rings none = ⊥
  IsVerifiedTag key_rings (some tag) =
      (tag.is_signed ≡ true) × ((entity : String) × (tag.verify key_rings ≡ ok entity))

  abbrev pub IsVerifiedHead : List String → Commit → Type 0
  IsVerifiedHead key_rings commit = (entity : String) × (commit.verify key_rings ≡ ok entity)

  -- The condition that reports the verification has the status.
  abbrev pub condition_of : S → Option Condition
  condition_of s = api.conds.get s.obj.conditions source_verified_condition

  -- The sub-reconciler fails with an error, and the condition is false.
  abbrev pub Unverified : S → Result → Option Err → Type 0
  Unverified s res err =
      (res ≡ result_empty)
      × (is_some err ≡ true)
      × (has_status status_false (condition_of s) ≡ true)

  marked_false :
      (c : Conds) (t reason message : String)
      → has_status status_false (api.conds.get (api.conds.mark_false c t reason message) t) ≡ true
  marked_false c t reason message =
      rw
        (
          api.conds.mark_false_lem c t reason message,
          api.conds.get-set_self c
              (record { type = t; status = status_false; reason = reason; message = message }),
        )
        refl

  marked_true :
      (c : Conds) (t reason message : String)
      → has_status status_true (api.conds.get (api.conds.mark_true c t reason message) t) ≡ true
  marked_true c t reason message =
      rw
        (
          api.conds.mark_true_lem c t reason message,
          api.conds.get-set_self c
              (record { type = t; status = status_true; reason = reason; message = message }),
        )
        refl

  fail_verification-Unverified :
      {A : Type 0} (P : S → A → Type 0) (e : Err) (reason : String) (s : S)
      → Outcome Unverified P (fail_verification api get_secret e reason s)
  unfolding fail_verification
  fail_verification-Unverified P e reason s =
      (refl, refl, marked_false s.obj.conditions source_verified_condition reason _)

  abbrev TagDone : List String → Option Tag → S → String → Type 0
  TagDone key_rings tag t message = IsVerifiedTag key_rings tag

  after_tag_verify-Outcome :
      (key_rings : List String) (tag : Tag) (o : Fallible String) (s : S)
      → tag.is_signed ≡ true
      → tag.verify key_rings ≡ o
      → Outcome Unverified (TagDone key_rings (some tag)) (after_tag_verify api get_secret tag o s)
  unfolding after_tag_verify
  after_tag_verify-Outcome key_rings tag (ok entity) s u e = (u, (entity, e))
  after_tag_verify-Outcome key_rings tag (fail x) s u e =
      fail_verification-Unverified (TagDone key_rings (some tag)) _ _ s

  check_tag-Outcome :
      (key_rings : List String) (tag : Option Tag) (s : S)
      → Outcome Unverified (TagDone key_rings tag) (check_tag api get_secret key_rings tag s)
  unfolding check_tag
  check_tag-Outcome key_rings none s = fail_verification-Unverified (TagDone key_rings none) _ _ s
  check_tag-Outcome key_rings (some tag) s =
      let P = TagDone key_rings (some tag) in
      Outcome-if Unverified P tag.is_signed _ _
        (λ u. after_tag_verify-Outcome key_rings tag (tag.verify key_rings) s u refl)
        (λ u. fail_verification-Unverified P _ _ s)

  abbrev TagsDone : GitRepositoryVerification → List String → Commit → Type 0
  TagsDone v key_rings commit = verify_tag v ≡ true → IsVerifiedTag key_rings commit.referencing_tag

  verify_tag_object-Outcome :
      (v : GitRepositoryVerification) (key_rings : List String) (commit : Commit) (s : S)
      → Outcome Unverified
          (λ t m. TagsDone v key_rings commit)
          (verify_tag_object api get_secret v key_rings commit s)
  unfolding verify_tag_object
  verify_tag_object-Outcome v key_rings commit s =
      Outcome-if Unverified (λ t m. TagsDone v key_rings commit) (verify_tag v) _ _
        (λ u.
          Outcome-weaken Unverified (TagDone key_rings commit.referencing_tag)
            (λ t m. TagsDone v key_rings commit)
            (check_tag api get_secret key_rings commit.referencing_tag s) (λ t m h w. h)
            (check_tag-Outcome key_rings commit.referencing_tag s))
        (λ u w. absurd (ground (arith, u, w)))

  abbrev HeadDone : GitRepositoryVerification → List String → Commit → Type 0
  HeadDone v key_rings commit = verify_head v ≡ true → IsVerifiedHead key_rings commit

  after_head_verify-Outcome :
      (v : GitRepositoryVerification) (key_rings : List String) (commit : Commit) (message : String)
      → (o : Fallible String) (s : S) → commit.verify key_rings ≡ o
      → Outcome Unverified
          (λ t m. HeadDone v key_rings commit)
          (after_head_verify api get_secret message commit.hash o s)
  unfolding after_head_verify
  after_head_verify-Outcome v key_rings commit message (ok entity) s e = λ w. (entity, e)
  after_head_verify-Outcome v key_rings commit message (fail x) s e =
      fail_verification-Unverified {A = String} (λ t m. HeadDone v key_rings commit) _ _ s

  verify_head_commit-Outcome :
      (v : GitRepositoryVerification) (key_rings : List String) (commit : Commit) (message : String)
      → (s : S)
      → Outcome Unverified
          (λ t m. HeadDone v key_rings commit)
          (verify_head_commit api get_secret v key_rings commit message s)
  unfolding verify_head_commit
  verify_head_commit-Outcome v key_rings commit message s =
      Outcome-if Unverified (λ t m. HeadDone v key_rings commit) (verify_head v) _ _
        (λ u. after_head_verify-Outcome v key_rings commit message (commit.verify key_rings) s refl)
        (λ u w. absurd (ground (arith, u, w)))

  -- The signatures that the mode asks for are verified by the keys of the secret, and the object
  -- says so.
  abbrev pub IsVerified :
      GitRepositoryVerification → Commit → Fallible (List String) → S → Result → Type 0
  IsVerified v commit secret s res =
      (res ≡ result_success)
      × (s.obj.status.source_verification_mode ≡ some (get_mode v))
      × (has_status status_true (condition_of s) ≡ true)
      × ((key_rings : List String) × (secret ≡ ok key_rings)
          × (verify_tag v ≡ true → IsVerifiedTag key_rings commit.referencing_tag)
          × (verify_head v ≡ true → IsVerifiedHead key_rings commit))

  -- Nothing is to be verified, and nothing is recorded as verified.
  abbrev pub IsForgotten : S → Result → Type 0
  IsForgotten s res =
      (res ≡ result_success)
      × (s.obj.status.source_verification_mode ≡ none)
      × (condition_of s ≡ none)

  verify_with-Outcome :
      (v : GitRepositoryVerification) (commit : Commit) (secret : Fallible (List String)) (s : S)
      → Outcome Unverified
          (IsVerified v commit secret)
          (verify_with api get_secret v commit secret s)
  unfolding verify_with record_verified
  verify_with-Outcome v commit (fail e) s =
      fail_verification-Unverified (IsVerified v commit (fail e)) _ _ s
  verify_with-Outcome v commit (ok key_rings) s =
      let Q = IsVerified v commit (ok key_rings) in
      let last : String → S → S × Flow Result = λ m. record_verified api get_secret v m in
      Outcome-bind Unverified (λ t m. TagsDone v key_rings commit) Q
        (λ m t. after_flow last (verify_head_commit api get_secret v key_rings commit m t)) _
        (verify_tag_object-Outcome v key_rings commit s)
        (λ t m tags.
          Outcome-bind Unverified (λ u m. HeadDone v key_rings commit) Q last _
            (verify_head_commit-Outcome v key_rings commit m t)
            (λ u m' head. (
              refl,
              refl,
              marked_true u.obj.conditions source_verified_condition _ m',
              (key_rings, refl, tags, head),
            )))

  -- What a success of the verification says, by the configuration of the object.
  abbrev pub IsSettled : Option GitRepositoryVerification → Commit → S → S → Result → Type 0
  IsSettled none commit s = IsForgotten
  IsSettled (some v) commit s = λ t res.
      (is_empty_mode v.mode ≡ true × IsForgotten t res)
      ⊎ ((is_empty_mode v.mode ≡ false)
          × IsVerified v commit (get_secret s.obj.metadata.namespace v.secret_ref s.cluster) t res)

  forget_verification-IsForgotten :
      (s : S) → Outcome Unverified IsForgotten (forget_verification api get_secret s)
  unfolding forget_verification
  forget_verification-IsForgotten s =
      (refl, refl, api.conds.get-delete_self s.obj.conditions source_verified_condition)

  verify_configured-IsSettled :
      (v : Option GitRepositoryVerification) (commit : Commit) (s : S)
      → Outcome Unverified (IsSettled v commit s) (verify_configured api get_secret v commit s)
  unfolding verify_configured
  verify_configured-IsSettled none commit s = forget_verification-IsForgotten s
  verify_configured-IsSettled (some v) commit s =
      Outcome-if Unverified (IsSettled (some v) commit s) (is_empty_mode v.mode) _ _
        (λ u.
          Outcome-weaken Unverified IsForgotten (IsSettled (some v) commit s)
            (forget_verification api get_secret s) (λ t r h. inl (u, h))
            (forget_verification-IsForgotten s))
        (λ u.
          Outcome-weaken Unverified
            (IsVerified v commit (get_secret s.obj.metadata.namespace v.secret_ref s.cluster))
            (IsSettled (some v) commit s)
            (verify_with api get_secret v commit
              (get_secret s.obj.metadata.namespace v.secret_ref s.cluster) s)
            (λ t r h. inr (u, h)) (verify_with-Outcome v commit _ s))

  -- However `verifySignature` ends: with a success only if the object asks for no verification, and
  -- then the condition and the observed mode are gone, or if the keys of the secret verify the signed
  -- tag and the commit as far as the mode asks for them, and then the condition is true and the mode
  -- observed; and without a success only with an error and the condition false.
  pub verify_signature-IsSettled :
      (commit : Commit) (s : S)
      → Outcome Unverified
          (IsSettled s.obj.spec.verification commit s)
          (verify_signature api get_secret commit s)
  unfolding verify_signature
  verify_signature-IsSettled commit s = verify_configured-IsSettled s.obj.spec.verification commit s
