-- ===== src/GitReconciler/Accepted.antt =====
-- What follows on the checkout of a commit in `reconcileSource` of
-- internal/controller/gitrepository_controller.go: the verification is settled for that commit.
use source_controller.Common.{
  ◌≡◌, refl, sym, ap, subst, ◌∙◌, String, Option, none, some, List, inl, inr,
}
use source_controller.Errors.{Err, Fallible}
use source_controller.Conditions.{has_status, status_true}
use source_controller.Reconcile.{Result, result_success}
use source_controller.Git.{GitRepositoryVerification}
use source_controller.Flow.{Flow, go, after_flow}
use source_controller.Flow.Laws.{Outcome, Outcome-bind, Outcome-both}
use source_controller.GitReconciler.{
  BaseApi, State, Commit, delete_condition, fetch_failed_condition,
}
use source_controller.GitReconciler.Authorising.{fail_fetch, AuthApi}
use source_controller.GitReconciler.Fetching.{GitApi}
use source_controller.GitReconciler.Sourcing
use source_controller.GitReconciler.Verifying
use source_controller.GitReconciler.Verified.{
  Unverified, IsSettled, condition_of, verify_signature-IsSettled,
}
use source_controller.GitReconciler.Fetched.{IsFailed, Kept}
use source_controller.GitReconciler.Framed.{
  SameCommit, SameVerification, verify_signature-SameCommit, observe_revision-Same,
}

module _ {Conds FS Data Reader Cluster Url Client : Type 0}
    (api : BaseApi Conds FS Data Reader Cluster) (auth : AuthApi Cluster Url)
    (git : GitApi FS Cluster Client) where
  abbrev S : Type 0
  S = State Conds FS Cluster

  abbrev keys : String → String → Cluster → Fallible (List String)
  keys = Sourcing.get_key_rings api auth git

  -- The shared commit is settled by the verification of the object as it was in a state.
  abbrev pub IsTrusted : S → S → Result → Type 0
  IsTrusted u t res = IsSettled api keys u.obj.spec.verification t.commit u t res

  -- The facts of a verification are about the condition and the status alone.
  IsSettled-moved :
      (v : Option GitRepositoryVerification) (commit : Commit) (u t t' : S) (res : Result)
      → t'.obj.status ≡ t.obj.status
      → condition_of api keys t' ≡ condition_of api keys t
      → IsSettled api keys v commit u t res
      → IsSettled api keys v commit u t' res
  IsSettled-moved none commit u t t' res e c h =
      (h.0, ap (λ x. x.source_verification_mode) e ∙ h.1, c ∙ h.2)
  IsSettled-moved (some v) commit u t t' res e c (inl h) =
      inl (h.0, (h.1.0, ap (λ x. x.source_verification_mode) e ∙ h.1.1, c ∙ h.1.2))
  IsSettled-moved (some v) commit u t t' res e c (inr h) = inr (
    h.0,
    (
      h.1.0,
      ap (λ x. x.source_verification_mode) e ∙ h.1.1,
      ap (has_status status_true) c ∙ h.1.2,
      h.1.3,
    ),
  )

  IsSettled-success :
      (v : Option GitRepositoryVerification) (commit : Commit) (u t : S) (res : Result)
      → IsSettled api keys v commit u t res
      → res ≡ result_success
  IsSettled-success none commit u t res h = h.0
  IsSettled-success (some v) commit u t res (inl h) = h.1.0
  IsSettled-success (some v) commit u t res (inr h) = h.1.0

  module _ (s : S) where
    -- The shared commit is settled by the verification that the object asks for.
    abbrev pub IsAccepted : S → Result → Type 0
    IsAccepted t res =
        (res ≡ result_success)
        × ((u : S) × (u.obj.spec ≡ s.obj.spec)
            × (u.obj.metadata ≡ s.obj.metadata)
            × IsTrusted u t result_success)

    abbrev Ready : Commit → S → Type 0
    Ready commit t = Kept api auth git s t × (t.commit ≡ commit)

    check_sparse-Ready :
        (err : Option Err) (commit : Commit) (t : S)
        → Ready commit t
        → Outcome
            (IsFailed api auth git)
            (λ u x. Ready commit u)
            (Sourcing.check_sparse api auth git err t)
    unfolding Sourcing.check_sparse fail_fetch
    check_sparse-Ready none commit t k = k
    check_sparse-Ready (some e) commit t k = (refl, refl)

    -- The verification of a commit that is the shared one.
    abbrev Verified : Commit → S → S → Result → Type 0
    Verified commit u w res =
        IsSettled api keys u.obj.spec.verification commit u w res × (w.commit ≡ u.commit)

    verify_signature-Verified :
        (commit : Commit) (u : S)
        → Outcome
            (IsFailed api auth git)
            (Verified commit u)
            (Verifying.verify_signature api keys commit u)
    verify_signature-Verified commit u =
        Outcome-both (Unverified api keys) (IsFailed api auth git)
          (IsSettled api keys u.obj.spec.verification commit u) (SameCommit api keys u)
          (Verified commit u) _ (λ w res h i. (h, i)) (λ w res err f. (f.0, f.1))
          (verify_signature-IsSettled api keys commit u)
          (verify_signature-SameCommit api keys u commit)

    abbrev observed : Commit → Result → S → S × Flow Result
    observed commit res w =
        after_flow (λ x v. (v, go result_success)) (Sourcing.observe_revision api auth git commit w)

    observed-IsAccepted :
        (commit : Commit) (u w : S) (res : Result)
        → Ready commit u
        → Verified commit u w res
        → Outcome (IsFailed api auth git) IsAccepted (observed commit res w)
    observed-IsAccepted commit u w res k v =
        Outcome-bind (IsFailed api auth git) {A = Unit {0}} (SameVerification api auth git w)
          IsAccepted (λ x v. (v, go result_success)) _ (observe_revision-Same api auth git w commit)
          (λ t x same.
            let success : res ≡ result_success =
              IsSettled-success u.obj.spec.verification commit u w res v.0 in
            let moved =
              IsSettled-moved u.obj.spec.verification commit u w t res same.1 same.2 v.0 in
            let shared : commit ≡ t.commit = sym k.1 ∙ sym v.1 ∙ sym same.0 in
            (
              refl,
              (
                u,
                k.0.0,
                k.0.1,
                subst (λ c. IsSettled api keys u.obj.spec.verification c u t result_success) shared
                    (subst (λ r. IsSettled api keys u.obj.spec.verification commit u t r) success
                      moved),
              ),
            ))

    pub accept_commit-IsAccepted :
        (dir : String) (commit : Commit) (t : S)
        → Ready commit t
        → Outcome
            (IsFailed api auth git)
            IsAccepted
            (Sourcing.accept_commit api auth git dir commit t)
    unfolding Sourcing.accept_commit
    accept_commit-IsAccepted dir commit t k =
        let F = IsFailed api auth git in
        let verified : S → S × Flow Result =
          λ u. after_flow (observed commit) (Verifying.verify_signature api keys commit u) in
        Outcome-bind F {A = Unit {0}} (λ u x. Ready commit u) IsAccepted (λ x. verified) _
          (check_sparse-Ready _ commit (delete_condition api fetch_failed_condition t).0 k)
          (λ u x k'.
            Outcome-bind F (Verified commit u) IsAccepted (observed commit) _
              (verify_signature-Verified commit u)
              (λ w res v. observed-IsAccepted commit u w res k' v))
