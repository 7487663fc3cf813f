-- ===== src/GitReconciler/Sourced.antt =====
-- What the end of `reconcileSource` of internal/controller/gitrepository_controller.go says of the
-- commit.
use source_controller.Common.{refl, String, true, Option, List, inl, inr, Bool-cases}
use source_controller.Conditions.{has_status, status_false}
use source_controller.Reconcile.{Result}
use source_controller.Storage.{Artifact}
use source_controller.Flow.{Flow, after_flow}
use source_controller.Flow.Laws.{Outcome, Outcome-bind}
use source_controller.GitReconciler.{
  BaseApi, State, Commit, delete_condition, artifact_outdated_condition, source_verified_condition,
}
use source_controller.GitReconciler.Authorising.{get_auth_opts, AuthApi, AuthOptions, ProxyOptions}
use source_controller.GitReconciler.Fetching
use source_controller.GitReconciler.Fetching.{GitApi}
use source_controller.GitReconciler.Sourcing
use source_controller.GitReconciler.Fetched.{
  IsFailed, Kept, Keeps, Checked, object_proxy-Kept, parsed_url-Kept, get_auth_opts-Kept,
  fetch_includes-Kept, observe_includes-Kept, git_checkout-Kept, checked_out-Checked,
  full_commit-Checked,
}
use source_controller.GitReconciler.Accepted.{IsAccepted, accept_commit-IsAccepted}

module _ {Conds FS Data Reader Cluster Url Client : Type 0}
    (api : BaseApi Conds FS Data Reader Cluster) (auth : AuthApi Cluster Url)
    (git : GitApi FS Cluster Client) where
  abbrev S : Type 0
  S = State Conds FS Cluster

  module _ (s : S) where
    abbrev ProxyType : Type 0
    ProxyType = Option (ProxyOptions × Url)

    -- From the checkout on.
    abbrev checkout : String → AuthOptions → ProxyType → S → S × Flow Result
    checkout dir opts proxy t =
        after_flow
          (λ c u.
            after_flow
              (λ first v.
                after_flow (λ commit w. Sourcing.accept_commit api auth git dir commit w)
                  (Sourcing.full_commit api auth git opts
                    (Sourcing.proxy_options api auth git proxy) dir first v))
              (Sourcing.checked_out api auth git c u))
          (Fetching.git_checkout api auth git opts (Sourcing.proxy_options api auth git proxy) dir
            true t)

    checkout-IsAccepted :
        (dir : String) (opts : AuthOptions) (proxy : ProxyType) (t : S)
        → Kept api auth git s t
        → Outcome (IsFailed api auth git) (IsAccepted api auth git s) (checkout dir opts proxy t)
    checkout-IsAccepted dir opts proxy t k =
        let F = IsFailed api auth git in
        let options = Sourcing.proxy_options api auth git proxy in
        let accepted : Commit → S → S × Flow Result =
          λ commit w. Sourcing.accept_commit api auth git dir commit w in
        let full : Commit → S → S × Flow Result = λ first v.
          after_flow accepted (Sourcing.full_commit api auth git opts options dir first v) in
        let first : Option Commit → S → S × Flow Result =
          λ c u. after_flow full (Sourcing.checked_out api auth git c u) in
        Outcome-bind F {A = Option Commit} (Keeps api auth git s) (IsAccepted api auth git s) first
          _ (git_checkout-Kept api auth git s opts options dir true t k)
          (λ u c k1.
            Outcome-bind F {A = Commit} (Checked api auth git s) (IsAccepted api auth git s) full _
              (checked_out-Checked api auth git s c u k1)
              (λ v commit k2.
                Outcome-bind F {A = Commit} (Checked api auth git s) (IsAccepted api auth git s)
                  accepted _ (full_commit-Checked api auth git s opts options dir commit v k2)
                  (λ w commit' k3. accept_commit-IsAccepted api auth git s dir commit' w k3)))

    -- The includes, and then the checkout.
    abbrev included : String → AuthOptions → ProxyType → List Artifact → S → S × Flow Result
    included dir opts proxy artifacts t =
        after_flow
          (λ x u.
            checkout dir opts proxy (record (delete_condition api artifact_outdated_condition u).0 {
              includes = artifacts;
            }))
          (Sourcing.observe_includes api auth git artifacts t)

    included-IsAccepted :
        (dir : String) (opts : AuthOptions) (proxy : ProxyType) (artifacts : List Artifact) (t : S)
        → Kept api auth git s t
        → Outcome
            (IsFailed api auth git)
            (IsAccepted api auth git s)
            (included dir opts proxy artifacts t)
    included-IsAccepted dir opts proxy artifacts t k =
        let next : Unit {0} → S → S × Flow Result = λ x u.
          checkout dir opts proxy (record (delete_condition api artifact_outdated_condition u).0 {
            includes = artifacts;
          }) in
        Outcome-bind (IsFailed api auth git) {A = Unit {0}} (Keeps api auth git s)
          (IsAccepted api auth git s) next _ (observe_includes-Kept api auth git s artifacts t k)
          (λ u x k'.
            checkout-IsAccepted dir opts proxy
              (record (delete_condition api artifact_outdated_condition u).0 {
                includes = artifacts;
              })
              k')

    abbrev fetched : String → ProxyType → Url → S → S × Flow Result
    fetched dir proxy url t =
        after_flow
          (λ opts u.
            after_flow (λ artifacts v. included dir opts proxy artifacts v)
              (Fetching.fetch_includes api auth git u))
          (get_auth_opts api auth url (Sourcing.proxy_url api auth git proxy) t)

    fetched-IsAccepted :
        (dir : String) (proxy : ProxyType) (url : Url) (t : S)
        → Kept api auth git s t
        → Outcome (IsFailed api auth git) (IsAccepted api auth git s) (fetched dir proxy url t)
    fetched-IsAccepted dir proxy url t k =
        let F = IsFailed api auth git in
        let include : AuthOptions → List Artifact → S → S × Flow Result =
          λ opts artifacts v. included dir opts proxy artifacts v in
        let next : AuthOptions → S → S × Flow Result =
          λ opts u. after_flow (include opts) (Fetching.fetch_includes api auth git u) in
        Outcome-bind F {A = AuthOptions} (Keeps api auth git s) (IsAccepted api auth git s) next _
          (get_auth_opts-Kept api auth git s url (Sourcing.proxy_url api auth git proxy) t k)
          (λ u opts k1.
            Outcome-bind F {A = List Artifact} (Keeps api auth git s) (IsAccepted api auth git s)
              (include opts) _ (fetch_includes-Kept api auth git s u k1)
              (λ v artifacts k2. included-IsAccepted dir opts proxy artifacts v k2))

    forget-Kept : Kept api auth git s (Sourcing.forget_failed_verification api auth git s)
    unfolding Sourcing.forget_failed_verification
    forget-Kept =
        elim (Bool-cases
          (has_status status_false (api.conds.get s.obj.conditions source_verified_condition))) [
            | inl u ↦ rw u (refl, refl)
            | inr u ↦ rw u (refl, refl)
          ]

  -- However `reconcileSource` ends: with a success only if the verification that the object asks for
  -- is settled for the commit that is handed to the later sub-reconcilers, so that its signatures
  -- are verified by the keys of the object's secret if the object asks for that; and without a
  -- success only with an error.
  pub reconcile_source-IsAccepted :
      (dir : String) (s : S)
      → Outcome
          (IsFailed api auth git)
          (IsAccepted api auth git s)
          (Sourcing.reconcile_source api auth git dir s)
  unfolding Sourcing.reconcile_source
  reconcile_source-IsAccepted dir s =
      let F = IsFailed api auth git in
      let begun = Sourcing.forget_failed_verification api auth git s in
      let next : Option (ProxyOptions × Url) → Url → S → S × Flow Result =
        λ proxy url t. fetched s dir proxy url t in
      let parse : Option (ProxyOptions × Url) → S → S × Flow Result = λ proxy t.
        after_flow (next proxy)
          (Sourcing.parsed_url api auth git (auth.parse_url t.obj.spec.url) t) in
      Outcome-bind F {A = Option (ProxyOptions × Url)} (Keeps api auth git s)
        (IsAccepted api auth git s) parse _ (object_proxy-Kept api auth git s begun (forget-Kept s))
        (λ t proxy k.
          Outcome-bind F {A = Url} (Keeps api auth git s) (IsAccepted api auth git s) (next proxy) _
            (parsed_url-Kept api auth git s (auth.parse_url t.obj.spec.url) t k)
            (λ u url k'. fetched-IsAccepted s dir proxy url u k'))
