-- ===== src/GitReconciler/Fetched.antt =====
-- What the steps of `reconcileSource` of internal/controller/gitrepository_controller.go before the
-- verification leave, and how they fail.
use Prim.Native.String as Text
use source_controller.Common.{
  ◌≡◌, refl, String, Bool, true, false, Option, none, some, List, [], ◌∷◌, is_some, not,
  String-discrete, decide,
}
use source_controller.Errors.{Err, Fallible, ok, fail}
use source_controller.Reconcile.{Result, result_empty}
use source_controller.Storage.{Artifact}
use source_controller.Git.{diff, git_content_config_changed, GitRepositoryInclude}
use source_controller.Flow.{Flow, go, after_flow}
use source_controller.Flow.Laws.{Outcome, Outcome-bind, Outcome-if}
use source_controller.GitReconciler.{
  BaseApi, State, Commit, repository_of, progress, delete_condition, include_unavailable_condition,
}
use source_controller.GitReconciler.Authorising
use source_controller.GitReconciler.Authorising.{AuthApi, AuthOptions, ProxyOptions}
use source_controller.GitReconciler.Fetching
use source_controller.GitReconciler.Fetching.{GitApi}
use source_controller.GitReconciler.Sourcing

module _ {Conds FS Data Reader Cluster Url Client : Type 0}
    (api : BaseApi Conds FS Data Reader Cluster) (auth : AuthApi Cluster Url)
    (git : GitApi FS Cluster Client) where
  abbrev S : Type 0
  S = State Conds FS Cluster

  -- An end with an error.
  abbrev pub IsFailed : S → Result → Option Err → Type 0
  IsFailed t res err = (res ≡ result_empty) × (is_some err ≡ true)

  module _ (s : S) where
    -- A step leaves the specification and the metadata of the object.
    abbrev pub Kept : S → Type 0
    Kept t = (t.obj.spec ≡ s.obj.spec) × (t.obj.metadata ≡ s.obj.metadata)

    abbrev pub Keeps : {A : Type 0} → S → A → Type 0
    Keeps t x = Kept t

    pub object_proxy-Kept :
        (t : S) → Kept t → Outcome IsFailed Keeps (Authorising.object_proxy api auth t)
    unfolding Authorising.object_proxy
    object_proxy-Kept t k = proxy _ t k
      where
        proxy :
            (o : Option (Fallible (ProxyOptions × Url))) (t : S)
            → Kept t
            → Outcome IsFailed Keeps (Authorising.configured_proxy api auth o t)
        proxy none t k = k
        proxy (some (ok p)) t k = k
        proxy (some (fail e)) t k = (refl, refl)

    pub parsed_url-Kept :
        (o : Fallible Url) (t : S)
        → Kept t
        → Outcome IsFailed Keeps (Sourcing.parsed_url api auth git o t)
    unfolding Sourcing.parsed_url Authorising.fail_fetch
    parsed_url-Kept (ok url) t k = k
    parsed_url-Kept (fail e) t k = (refl, refl)

    auth_data-Kept :
        (o : Option (Fallible (List (String × String)))) (t : S)
        → Kept t
        → Outcome IsFailed Keeps (Authorising.auth_data api auth o t)
    unfolding Authorising.auth_data Authorising.fail_fetch
    auth_data-Kept none t k = k
    auth_data-Kept (some (ok entries)) t k = k
    auth_data-Kept (some (fail e)) t k = (refl, refl)

    auth_options-Kept :
        (o : Fallible AuthOptions) (t : S)
        → Kept t
        → Outcome IsFailed Keeps (Authorising.auth_options api auth o t)
    unfolding Authorising.auth_options Authorising.fail_fetch
    auth_options-Kept (ok opts) t k = k
    auth_options-Kept (fail e) t k = (refl, refl)

    with_credentials-Kept :
        (opts : AuthOptions) (o : Fallible Authorising.GitCredentials) (t : S)
        → Kept t
        → Outcome IsFailed Keeps (Authorising.with_credentials api auth opts o t)
    unfolding Authorising.with_credentials Authorising.fail_fetch
    with_credentials-Kept opts (ok creds) t k = k
    with_credentials-Kept opts (fail e) t k = (refl, refl)

    fail_fetch-IsFailed :
        {A : Type 0} (P : S → A → Type 0) (e : Err) (reason : String) (t : S)
        → Outcome IsFailed P (Authorising.fail_fetch api auth e reason t)
    unfolding Authorising.fail_fetch
    fail_fetch-IsFailed P e reason t = (refl, refl)

    provider_options-Kept :
        (provider : String) (secret_ref : Option String) (entries : List (String × String))
        (proxy : Option Url) (opts : AuthOptions) (t : S)
        → Kept t
        → Outcome IsFailed Keeps
            (Authorising.provider_options api auth provider secret_ref entries proxy opts t)
    unfolding Authorising.provider_options
    provider_options-Kept provider secret_ref entries proxy opts t k =
        let P : S → AuthOptions → Type 0 = Keeps in
        Outcome-if IsFailed P (decide (String-discrete provider Authorising.git_provider_azure)) _ _
          (λ u. with_credentials-Kept opts _ t k)
          (λ u.
            Outcome-if IsFailed P
              (decide (String-discrete provider Authorising.git_provider_git_hub)) _ _
              (λ v.
                Outcome-if IsFailed P (is_some secret_ref) _ _
                  (λ w. with_credentials-Kept opts _ t k)
                  (λ w.
                    fail_fetch-IsFailed P Authorising.missing_secret
                      Authorising.invalid_provider_configuration_reason t))
              (λ v.
                Outcome-if IsFailed P
                  (decide (
                    String-discrete
                      (Authorising.value_of (Authorising.lookup auth.key_app_id entries)) ""))
                  _ _ (λ w. k)
                  (λ w.
                    fail_fetch-IsFailed P Authorising.other_provider
                      Authorising.invalid_provider_configuration_reason t)))

    pub get_auth_opts-Kept :
        (url : Url) (proxy : Option Url) (t : S)
        → Kept t
        → Outcome IsFailed Keeps (Authorising.get_auth_opts api auth url proxy t)
    unfolding Authorising.get_auth_opts
    get_auth_opts-Kept url proxy t k =
        let provide : List (String × String) → AuthOptions → S → S × Flow AuthOptions =
          λ entries opts.
            Authorising.provider_options api auth
              (Authorising.get_provider api auth t.obj.spec.provider) t.obj.spec.secret_ref entries
              proxy opts in
        let with_data : List (String × String) → S → S × Flow AuthOptions = λ entries u.
          after_flow (provide entries)
            (Authorising.auth_options api auth (auth.new_auth_options url entries) u) in
        Outcome-bind IsFailed {A = List (String × String)} Keeps Keeps with_data _
          (auth_data-Kept _ t k)
          (λ u entries k'.
            Outcome-bind IsFailed {A = AuthOptions} Keeps Keeps (provide entries) _
              (auth_options-Kept (auth.new_auth_options url entries) u k')
              (λ v opts k''. provider_options-Kept _ _ entries proxy opts v k''))

    after_clone-Kept :
        (o : Fallible (Option Commit)) (t : S)
        → Kept t
        → Outcome IsFailed Keeps (Fetching.after_clone api auth git o t)
    unfolding Fetching.after_clone Authorising.fail_fetch
    after_clone-Kept (ok c) t k = k
    after_clone-Kept (fail e) t k = (refl, refl)

    clone_with-Kept :
        (optimized : Bool) (o : Fallible Client) (t : S)
        → Kept t
        → Outcome IsFailed Keeps (Fetching.clone_with api auth git optimized o t)
    unfolding Fetching.clone_with Authorising.fail_fetch
    clone_with-Kept optimized (ok client) t k =
        let cloned =
          git.clone client t.obj.spec.url (Fetching.clone_config api auth git optimized t.obj)
            t.files in
        after_clone-Kept cloned.1 (record t { files = cloned.0 }) k
    clone_with-Kept optimized (fail e) t k = (refl, refl)

    pub git_checkout-Kept :
        (opts : AuthOptions) (proxy : Option ProxyOptions) (dir : String) (optimized : Bool) (t : S)
        → Kept t
        → Outcome IsFailed Keeps (Fetching.git_checkout api auth git opts proxy dir optimized t)
    unfolding Fetching.git_checkout
    git_checkout-Kept opts proxy dir optimized t k = clone_with-Kept optimized _ t k

    included_artifact-Kept :
        (o : Fallible (Option Artifact)) (t : S)
        → Kept t
        → Outcome IsFailed Keeps (Fetching.included_artifact api auth git o t)
    unfolding Fetching.included_artifact Fetching.wait_for_include
    included_artifact-Kept (ok (some a)) t k = k
    included_artifact-Kept (ok none) t k = (refl, refl)
    included_artifact-Kept (fail e) t k = (refl, refl)

    fetch_all-Kept :
        (incls : List GitRepositoryInclude) (t : S)
        → Kept t
        → Outcome IsFailed Keeps (Fetching.fetch_all api auth git incls t)
    unfolding Fetching.fetch_all
    fetch_all-Kept [] t k = k
    fetch_all-Kept (incl ∷ incls) t k =
        let last : Artifact → List Artifact → S → S × Flow (List Artifact) =
          λ artifact artifacts u. (u, go (artifact ∷ artifacts)) in
        let rest : Artifact → S → S × Flow (List Artifact) =
          λ artifact u. after_flow (last artifact) (Fetching.fetch_all api auth git incls u) in
        Outcome-bind IsFailed {A = Artifact} Keeps Keeps rest _ (included_artifact-Kept _ t k)
          (λ u artifact k'.
            Outcome-bind IsFailed {A = List Artifact} Keeps Keeps (last artifact) _
              (fetch_all-Kept incls u k') (λ v artifacts k''. k''))

    pub fetch_includes-Kept :
        (t : S) → Kept t → Outcome IsFailed Keeps (Fetching.fetch_includes api auth git t)
    unfolding Fetching.fetch_includes
    fetch_includes-Kept t k =
        let last : List Artifact → S → S × Flow (List Artifact) =
          λ artifacts u. ((delete_condition api include_unavailable_condition u).0, go artifacts) in
        Outcome-bind IsFailed {A = List Artifact} Keeps Keeps last _
          (fetch_all-Kept t.obj.spec.include t k) (λ u artifacts k'. k')

    after_outdated_patch-Kept :
        (err : Option Err) (t : S)
        → Kept t
        → Outcome IsFailed Keeps (Sourcing.after_outdated_patch api auth git err t)
    unfolding Sourcing.after_outdated_patch
    after_outdated_patch-Kept none t k = k
    after_outdated_patch-Kept (some e) t k = (refl, refl)

    -- The condition, the progress and the patch.
    abbrev pub reported : Bool → String → String → S → S
    reported has_old reason message t =
        (progress api true (Text.◌++◌ "building artifact: " message)
          (Sourcing.mark_outdated api auth git has_old reason message t).0).0

    report_outdated-Kept :
        (has_old : Bool) (reason message : String) (t : S)
        → Kept t
        → Outcome IsFailed Keeps (Sourcing.report_outdated api auth git has_old reason message t)
    unfolding Sourcing.report_outdated Sourcing.mark_outdated
    report_outdated-Kept true reason message t k =
        let u = reported true reason message t in
        let sent = api.patch u.obj u.cluster in
        after_outdated_patch-Kept sent.1 (record u { cluster = sent.0 }) k
    report_outdated-Kept false reason message t k =
        let u = reported false reason message t in
        let sent = api.patch u.obj u.cluster in
        after_outdated_patch-Kept sent.1 (record u { cluster = sent.0 }) k

    pub observe_includes-Kept :
        (artifacts : List Artifact) (t : S)
        → Kept t
        → Outcome IsFailed Keeps (Sourcing.observe_includes api auth git artifacts t)
    unfolding Sourcing.observe_includes
    observe_includes-Kept artifacts t k =
        let P : S → Unit {0} → Type 0 = Keeps in
        Outcome-if IsFailed P (diff artifacts t.obj.status.included_artifacts) _ _
          (λ u. report_outdated-Kept _ _ _ t k) (λ u. k)

    -- The commit that the sub-reconcilers share is the one that a step gives.
    abbrev pub Checked : S → Commit → Type 0
    Checked t commit = Kept t × (t.commit ≡ commit)

    pub checked_out-Checked :
        (c : Option Commit) (t : S)
        → Kept t
        → Outcome IsFailed Checked (Sourcing.checked_out api auth git c t)
    unfolding Sourcing.checked_out Authorising.fail_fetch
    checked_out-Checked (some commit) t k = (k, refl)
    checked_out-Checked none t k = (refl, refl)

    checked_out_again-Checked :
        (c : Option Commit) (t : S)
        → Kept t
        → Outcome IsFailed Checked (Sourcing.checked_out_again api auth git c t)
    unfolding Sourcing.checked_out_again
    checked_out_again-Checked (some commit) t k = (k, refl)
    checked_out_again-Checked none t k = (refl, refl)

    pub full_commit-Checked :
        (opts : AuthOptions) (proxy : Option ProxyOptions) (dir : String) (commit : Commit) (t : S)
        → Checked t commit
        → Outcome IsFailed Checked (Sourcing.full_commit api auth git opts proxy dir commit t)
    unfolding Sourcing.full_commit Sourcing.no_changes
    full_commit-Checked opts proxy dir commit t k =
        let again : Option Commit → S → S × Flow Commit =
          λ c. Sourcing.checked_out_again api auth git c in
        Outcome-if IsFailed Checked commit.is_concrete _ _ (λ u. k)
          (λ u.
            Outcome-if IsFailed Checked
              (not (git_content_config_changed (repository_of t.obj) t.includes))
              (Sourcing.no_changes api auth git commit t) _ (λ v. (refl, refl))
              (λ v.
                Outcome-bind IsFailed {A = Option Commit} Keeps Checked again _
                  (git_checkout-Kept opts proxy dir false t k.0)
                  (λ w c k'. checked_out_again-Checked c w k')))
