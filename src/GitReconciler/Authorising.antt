-- ===== src/GitReconciler/Authorising.antt =====
-- `getSecretData`, `getProxyOpts` and `getAuthOpts` of
-- internal/controller/gitrepository_controller.go. The secrets of the cluster, the parser of URLs, the
-- packages git and auth and the token cache are parameters.
use source_controller.Common.{
  String, Bool, Option, none, some, List, [], ◌∷◌, ◌++◌, is_some, decide, String-discrete,
  if◌then◌else◌,
}
use source_controller.Errors.{Err, plain, error, Fallible, ok, fail, new_generic, new_stalling}
use source_controller.Flow.{go, ◌>>=◌, ◌>>◌, get_state, give_up}
use source_controller.GitReconciler.{
  BaseApi, ObjectMeta, Sub, wrap, mark_true, fetch_failed_condition,
}

-- The data of a secret.
abbrev pub SecretData : Type 0
SecretData = List (String × String)

-- `data[key]` with its Boolean.
unfoldable pub lookup : String → SecretData → Option String
lookup key [] = none
lookup key ((k, v) ∷ entries) =
    if decide (String-discrete key k) then some v else lookup key entries

abbrev pub value_of : Option String → String
value_of none = ""
value_of (some v) = v

pub record ProxyOptions : Type 0 where
  pub url : String
  pub username : String
  pub password : String

pub record AuthOptions : Type 0 where
  pub is_http : Bool
  pub bearer_token : String
  pub username : String
  pub password : String

pub record GitCredentials : Type 0 where
  pub bearer_token : String
  pub username : String
  pub password : String

-- The options of packages auth and github.
pub data AuthOption (Url : Type 0) : Type 0 where
  with_cache : ObjectMeta → AuthOption Url
  with_proxy_url : Url → AuthOption Url
  with_app_data : SecretData → AuthOption Url

pub record AuthApi (Cluster Url : Type 0) : Type 0 where
  -- r.Client.Get of a secret.
  pub get_secret : String → String → Cluster → Fallible SecretData
  pub parse_url : String → Fallible Url
  pub user : String → Url → Url
  pub user_password : String → String → Url → Url
  pub new_auth_options : Url → SecretData → Fallible AuthOptions
  pub get_git_credentials : String → List (AuthOption Url) → Cluster → Fallible GitCredentials
  -- The user name and the password.
  pub github_credentials : List (AuthOption Url) → Cluster → Fallible (String × String)
  pub has_token_cache : Bool
  -- The key of GitHub's application in the data of a secret.
  pub key_app_id : String

abbrev pub authentication_failed_reason : String
authentication_failed_reason = "AuthenticationFailed"

abbrev pub invalid_provider_configuration_reason : String
invalid_provider_configuration_reason = "InvalidProviderConfiguration"

abbrev pub git_provider_azure : String
git_provider_azure = "azure"

abbrev pub git_provider_git_hub : String
git_provider_git_hub = "github"

-- The errors of a secret that does not fit the provider.
abbrev pub missing_secret : Err
missing_secret =
    new_stalling
      (plain "secretRef with github app data must be specified when provider is set to github")
      invalid_provider_configuration_reason

abbrev pub other_provider : Err
other_provider =
    new_stalling (plain "secretRef has github app data but provider is not set to github")
      invalid_provider_configuration_reason

module _ {Conds FS Data Reader Cluster Url : Type 0} (api : BaseApi Conds FS Data Reader Cluster)
    (auth : AuthApi Cluster Url) where
  -- The fetch failed with an error, which ends the sub-reconciler.
  unfoldable pub fail_fetch : {A : Type 0} → Err → String → Sub api A
  fail_fetch e reason = do mark_true api fetch_failed_condition reason (error e); give_up e

  abbrev generic_failure : {A : Type 0} → String → Err → String → Sub api A
  generic_failure message e reason = fail_fetch (new_generic (wrap message e) reason) reason

  unfoldable pub get_secret_data : String → String → Cluster → Fallible SecretData
  get_secret_data name namespace cluster = auth.get_secret namespace name cluster

  -- The user of a proxy's URL, by the user name and the password.
  unfoldable pub with_user : String → String → Url → Url
  with_user username password url =
      if decide (String-discrete username "")
      then url
      else if decide (String-discrete password "")
      then auth.user username url
      else auth.user_password username password url

  unfoldable pub proxy_of : String → SecretData → Fallible Url → Fallible (ProxyOptions × Url)
  unfolding with_user
  proxy_of address entries (fail e) = fail (wrap "invalid address in proxy secret" e)
  proxy_of address entries (ok url) =
      let username = value_of (lookup "username" entries) in
      let password = value_of (lookup "password" entries) in
      ok (
        record { url = address; username = username; password = password },
        with_user username password url,
      )

  unfoldable pub proxy_address : SecretData → Option String → Fallible (ProxyOptions × Url)
  unfolding proxy_of
  proxy_address entries none = fail (plain "invalid proxy secret: key 'address' is missing")
  proxy_address entries (some address) = proxy_of address entries (auth.parse_url address)

  unfoldable pub proxy_data : Fallible SecretData → Fallible (ProxyOptions × Url)
  unfolding proxy_address lookup
  proxy_data (fail e) = fail (wrap "failed to get proxy secret" e)
  proxy_data (ok entries) = proxy_address entries (lookup "address" entries)

  unfoldable pub get_proxy_opts : String → String → Cluster → Fallible (ProxyOptions × Url)
  unfolding proxy_data get_secret_data
  get_proxy_opts name namespace cluster = proxy_data (get_secret_data name namespace cluster)

  -- The proxy that the object asks for.
  unfoldable pub configured_proxy :
      Option (Fallible (ProxyOptions × Url)) → Sub api (Option (ProxyOptions × Url))
  unfolding fail_fetch
  configured_proxy none s = (s, go none)
  configured_proxy (some (fail e)) s =
      generic_failure "failed to configure proxy options" e authentication_failed_reason s
  configured_proxy (some (ok proxy)) s = (s, go (some proxy))

  -- The data of the secret that the object names, or none.
  unfoldable pub auth_data : Option (Fallible SecretData) → Sub api SecretData
  unfolding fail_fetch
  auth_data none s = (s, go [])
  auth_data (some (fail e)) s =
      generic_failure "failed to get secret" e authentication_failed_reason s
  auth_data (some (ok entries)) s = (s, go entries)

  unfoldable pub auth_options : Fallible AuthOptions → Sub api AuthOptions
  unfolding fail_fetch
  auth_options (fail e) s =
      generic_failure "failed to configure authentication options" e authentication_failed_reason s
  auth_options (ok opts) s = (s, go opts)

  abbrev proxy_option : Option Url → List (AuthOption Url)
  proxy_option none = []
  proxy_option (some url) = with_proxy_url url ∷ []

  abbrev cache_option : ObjectMeta → List (AuthOption Url)
  cache_option metadata = if auth.has_token_cache then with_cache metadata ∷ [] else []

  abbrev app_data_option : SecretData → List (AuthOption Url)
  app_data_option [] = []
  app_data_option (d ∷ entries) = with_app_data (d ∷ entries) ∷ []

  unfoldable pub with_credentials : AuthOptions → Fallible GitCredentials → Sub api AuthOptions
  unfolding fail_fetch
  with_credentials opts (fail e) s =
      generic_failure "failed to configure authentication options" e authentication_failed_reason s
  with_credentials opts (ok creds) s = (
    s,
    go (record opts {
      bearer_token = creds.bearer_token;
      username = creds.username;
      password = creds.password;
    }),
  )

  -- The credentials of GitHub as those of a Git server.
  abbrev app_credentials : Fallible (String × String) → Fallible GitCredentials
  app_credentials (fail e) = fail e
  app_credentials (ok (username, password)) =
      ok (record { bearer_token = ""; username = username; password = password })

  abbrev azure_options : ObjectMeta → Option Url → List (AuthOption Url)
  azure_options metadata proxy = cache_option metadata ++ proxy_option proxy

  abbrev github_options : ObjectMeta → SecretData → Option Url → List (AuthOption Url)
  github_options metadata entries proxy =
      app_data_option entries ++ (proxy_option proxy ++ cache_option metadata)

  -- The credentials of the provider, by the secret that the object names, if any.
  unfoldable pub provider_options :
      String → Option String → SecretData → Option Url → AuthOptions → Sub api AuthOptions
  unfolding with_credentials fail_fetch lookup
  provider_options provider secret_ref entries proxy opts s =
      if decide (String-discrete provider git_provider_azure)
      then with_credentials opts
          (auth.get_git_credentials provider (azure_options s.obj.metadata proxy) s.cluster) s
      else if decide (String-discrete provider git_provider_git_hub)
      then (if is_some secret_ref
          then with_credentials opts
              (app_credentials
                (auth.github_credentials (github_options s.obj.metadata entries proxy) s.cluster))
              s
          else fail_fetch missing_secret invalid_provider_configuration_reason s)
      else if decide (String-discrete (value_of (lookup auth.key_app_id entries)) "")
      then (s, go opts)
      else fail_fetch other_provider invalid_provider_configuration_reason s

  abbrev named_secret : Option String → String → Cluster → Option (Fallible SecretData)
  named_secret none namespace cluster = none
  named_secret (some name) namespace cluster = some (get_secret_data name namespace cluster)

  -- `GetProvider` of api/v1/gitrepository_types.go.
  unfoldable pub get_provider : String → String
  get_provider provider = if decide (String-discrete provider "") then "generic" else provider

  unfoldable pub get_auth_opts : Url → Option Url → Sub api AuthOptions
  unfolding get_secret_data auth_data auth_options provider_options get_provider
  get_auth_opts url proxy = do
    s ← get_state
    entries ← auth_data (named_secret s.obj.spec.secret_ref s.obj.metadata.namespace s.cluster)
    opts ← auth_options (auth.new_auth_options url entries)
    provider_options (get_provider s.obj.spec.provider) s.obj.spec.secret_ref entries proxy opts

  abbrev named_proxy : Option String → String → Cluster → Option (Fallible (ProxyOptions × Url))
  named_proxy none namespace cluster = none
  named_proxy (some name) namespace cluster = some (get_proxy_opts name namespace cluster)

  -- The proxy of `reconcileSource`.
  unfoldable pub object_proxy : Sub api (Option (ProxyOptions × Url))
  unfolding configured_proxy get_proxy_opts
  object_proxy s =
      configured_proxy (named_proxy s.obj.spec.proxy_secret_ref s.obj.metadata.namespace s.cluster)
        s
