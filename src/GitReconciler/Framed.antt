-- ===== src/GitReconciler/Framed.antt =====
-- What `verifySignature` and the report of a new revision leave, of
-- internal/controller/gitrepository_controller.go.

use source_controller.Common.{
  ◌≡◌, ◌≢◌, refl, ◌∙◌, String, Bool, true, false, Option, none, some, List, arith, String-discrete,
  decide,
}
use source_controller.Errors.{Err, Fallible, ok, fail}
use source_controller.Reconcile.{Result}
use source_controller.Storage.{has_revision}
use source_controller.Git.{GitRepositoryVerification, verify_head, verify_tag}
use source_controller.Flow.{Flow, after_flow}
use source_controller.Flow.Laws.{Outcome, Outcome-bind, Outcome-if}
use source_controller.GitReconciler.{
  BaseApi, State, Commit, Tag, commit_reference, source_verified_condition,
  artifact_outdated_condition, progressing_reason,
}
use source_controller.GitReconciler.Authorising.{AuthApi}
use source_controller.GitReconciler.Fetching.{GitApi}
use source_controller.GitReconciler.Sourcing
use source_controller.GitReconciler.Verifying
use source_controller.GitReconciler.Verified.{condition_of}
use source_controller.GitReconciler.Fetched.{IsFailed}

module _ {Conds FS Data Reader Cluster : Type 0} (api : BaseApi Conds FS Data Reader Cluster)
    (get_secret : String → String → Cluster → Fallible (List String))
    (s : State Conds FS Cluster) where
  abbrev S : Type 0
  S = State Conds FS Cluster

  -- The shared commit stays.
  abbrev pub SameCommit : {A : Type 0} → S → A → Type 0
  SameCommit t x = t.commit ≡ s.commit

  abbrev pub Any : S → Result → Option Err → Type 0
  Any t res err = Unit {0}

  after_tag_verify-SameCommit :
      (tag : Tag) (o : Fallible String) (t : S)
      → t.commit ≡ s.commit
      → Outcome Any SameCommit (Verifying.after_tag_verify api get_secret tag o t)
  unfolding Verifying.after_tag_verify Verifying.fail_verification
  after_tag_verify-SameCommit tag (ok entity) t k = k
  after_tag_verify-SameCommit tag (fail e) t k = tt

  check_tag-SameCommit :
      (key_rings : List String) (tag : Option Tag) (t : S)
      → t.commit ≡ s.commit
      → Outcome Any SameCommit (Verifying.check_tag api get_secret key_rings tag t)
  unfolding Verifying.check_tag Verifying.fail_verification
  check_tag-SameCommit key_rings none t k = tt
  check_tag-SameCommit key_rings (some tag) t k =
      let P : S → String → Type 0 = SameCommit in
      Outcome-if Any P tag.is_signed _ _
        (λ u. after_tag_verify-SameCommit tag (tag.verify key_rings) t k) (λ u. tt)

  after_head_verify-SameCommit :
      (message hash : String) (o : Fallible String) (t : S)
      → t.commit ≡ s.commit
      → Outcome Any SameCommit (Verifying.after_head_verify api get_secret message hash o t)
  unfolding Verifying.after_head_verify Verifying.fail_verification
  after_head_verify-SameCommit message hash (ok entity) t k = k
  after_head_verify-SameCommit message hash (fail e) t k = tt

  verify_with-SameCommit :
      (v : GitRepositoryVerification) (commit : Commit) (o : Fallible (List String)) (t : S)
      → t.commit ≡ s.commit
      → Outcome Any SameCommit (Verifying.verify_with api get_secret v commit o t)
  unfolding Verifying.verify_with Verifying.verify_tag_object Verifying.verify_head_commit
      Verifying.record_verified Verifying.fail_verification
  verify_with-SameCommit v commit (fail e) t k = tt
  verify_with-SameCommit v commit (ok key_rings) t k =
      let P : S → String → Type 0 = SameCommit in
      let Q : S → Result → Type 0 = SameCommit in
      let last : String → S → S × Flow Result = λ m. Verifying.record_verified api get_secret v m in
      Outcome-bind Any P Q
        (λ m u.
          after_flow last (Verifying.verify_head_commit api get_secret v key_rings commit m u))
        _
        (Outcome-if Any P (verify_tag v) _ _
          (λ u. check_tag-SameCommit key_rings commit.referencing_tag t k) (λ u. k))
        (λ u m k'.
          Outcome-bind Any P Q last _
            (Outcome-if Any P (verify_head v) _ _
              (λ w. after_head_verify-SameCommit m commit.hash (commit.verify key_rings) u k')
              (λ w. k'))
            (λ w m' k''. k''))

  verify_configured-SameCommit :
      (v : Option GitRepositoryVerification) (commit : Commit)
      → Outcome Any SameCommit (Verifying.verify_configured api get_secret v commit s)
  unfolding Verifying.verify_configured Verifying.forget_verification
  verify_configured-SameCommit none commit = refl
  verify_configured-SameCommit (some v) commit =
      let Q : S → Result → Type 0 = SameCommit in
      Outcome-if Any Q (Verifying.is_empty_mode v.mode) _ _ (λ u. refl)
        (λ u. verify_with-SameCommit v commit _ s refl)

  pub verify_signature-SameCommit :
      (commit : Commit)
      → Outcome Any SameCommit (Verifying.verify_signature api get_secret commit s)
  unfolding Verifying.verify_signature
  verify_signature-SameCommit commit = verify_configured-SameCommit s.obj.spec.verification commit

module _ {Conds FS Data Reader Cluster Url Client : Type 0}
    (api : BaseApi Conds FS Data Reader Cluster) (auth : AuthApi Cluster Url)
    (git : GitApi FS Cluster Client) (s : State Conds FS Cluster) where
  -- The commit, the status and the condition of the verification stay.
  abbrev pub SameVerification : {A : Type 0} → State Conds FS Cluster → A → Type 0
  SameVerification t x =
      (t.commit ≡ s.commit)
      × (t.obj.status ≡ s.obj.status)
      × (condition_of api (Sourcing.get_key_rings api auth git) t
          ≡ condition_of api (Sourcing.get_key_rings api auth git) s)

  conds_differ : (p q : String) → decide (String-discrete p q) ≡ false → p ≢ q
  conds_differ p q h = λ e. ground (arith, h, e)

  -- The report of an outdated artifact changes three other conditions.
  progressed :
      (c : Conds) (message : String)
      → api.conds.get
          (api.progressive_status true c progressing_reason message)
          source_verified_condition
        ≡ api.conds.get c source_verified_condition
  unfolding String-discrete
  progressed c message =
      api.progressive_status_frame true c progressing_reason message source_verified_condition
        (conds_differ _ _ refl) (conds_differ _ _ refl)

  outdated :
      (c : Conds) (reason message : String)
      → api.conds.get
          (api.conds.mark_true c artifact_outdated_condition reason message)
          source_verified_condition
        ≡ api.conds.get c source_verified_condition
  unfolding String-discrete
  outdated c reason message =
      rw (api.conds.mark_true_lem c artifact_outdated_condition reason message)
        (api.conds.get-set_ne c _ source_verified_condition (conds_differ _ _ refl))

  after_outdated_patch-Same :
      (err : Option Err) (t : State Conds FS Cluster)
      → SameVerification t tt
      → Outcome
          (IsFailed api auth git)
          SameVerification
          (Sourcing.after_outdated_patch api auth git err t)
  unfolding Sourcing.after_outdated_patch
  after_outdated_patch-Same none t k = k
  after_outdated_patch-Same (some e) t k = (refl, refl)

  report_outdated-Same :
      (has_old : Bool) (reason message : String)
      → Outcome
          (IsFailed api auth git)
          SameVerification
          (Sourcing.report_outdated api auth git has_old reason message s)
  unfolding Sourcing.report_outdated Sourcing.mark_outdated
  report_outdated-Same true reason message =
      let c = api.conds.mark_true s.obj.conditions artifact_outdated_condition reason message in
      after_outdated_patch-Same _ _
        (refl, refl, progressed c _ ∙ outdated s.obj.conditions reason message)
  report_outdated-Same false reason message =
      after_outdated_patch-Same _ _ (refl, refl, progressed s.obj.conditions _)

  pub observe_revision-Same :
      (commit : Commit)
      → Outcome
          (IsFailed api auth git)
          SameVerification
          (Sourcing.observe_revision api auth git commit s)
  unfolding Sourcing.observe_revision
  observe_revision-Same commit =
      let P : State Conds FS Cluster → Unit {0} → Type 0 = SameVerification in
      Outcome-if (IsFailed api auth git) P
        (has_revision s.obj.status.artifact (commit_reference s.obj commit)) _ _
        (λ u. (refl, refl, refl)) (λ u. report_outdated-Same _ _ _)
