-- ===== src/GitReconciler/Sourcing.antt =====
-- `reconcileSource` of internal/controller/gitrepository_controller.go.
use Prim.Native.String as Text
use source_controller.Common.{
  String, Bool, true, false, not, Option, none, some, List, [], ◌∷◌, map, if◌then◌else◌, is_some,
}
use source_controller.Errors.{
  Err, plain, generic, Fallible, ok, fail, new_generic, new_stalling, event_type_normal,
}
use source_controller.Conditions.{has_status, status_false}
use source_controller.Reconcile.{Result, result_success}
use source_controller.Storage.{Artifact, has_revision}
use source_controller.Git.{diff, git_content_config_changed}
use source_controller.Flow.{go, ◌>>=◌, ◌>>◌, pass, modify, get_state, give_up}
use source_controller.GitReconciler.{
  BaseApi, State, Commit, Sub, wrap, repository_of, commit_reference, mark_true, delete_condition,
  progress, patch_object, source_verified_condition, fetch_failed_condition,
  artifact_outdated_condition, artifact_in_storage_condition, patch_operation_failed_reason,
  succeeded_reason,
}
use source_controller.GitReconciler.Authorising.{
  AuthApi, AuthOptions, ProxyOptions, fail_fetch, object_proxy, get_auth_opts, SecretData,
}
use source_controller.GitReconciler.Fetching.{
  GitApi, git_checkout, fetch_includes, validate_sparse_checkout_paths, git_operation_failed_reason,
}
use source_controller.GitReconciler.Verifying.{verify_signature}

module _ {Conds FS Data Reader Cluster Url Client : Type 0}
    (api : BaseApi Conds FS Data Reader Cluster) (auth : AuthApi Cluster Url)
    (git : GitApi FS Cluster Client) where
  unfoldable pub forget_failed_verification : State Conds FS Cluster → State Conds FS Cluster
  forget_failed_verification s =
      if has_status status_false (api.conds.get s.obj.conditions source_verified_condition)
      then (delete_condition api source_verified_condition s).0
      else s

  unfoldable pub parsed_url : Fallible Url → Sub api Url
  unfolding fail_fetch
  parsed_url (fail e) s =
      fail_fetch api auth (new_stalling (wrap "failed to parse url" e) "URLInvalid") "URLInvalid" s
  parsed_url (ok url) s = (s, go url)

  unfoldable pub after_outdated_patch : Option Err → Sub api (Unit {0})
  after_outdated_patch (some e) s = give_up (new_generic e patch_operation_failed_reason) s
  after_outdated_patch none s = pass s

  unfoldable pub mark_outdated : Bool → String → String → Sub api (Unit {0})
  mark_outdated true reason message s = mark_true api artifact_outdated_condition reason message s
  mark_outdated false reason message s = pass s

  -- The object reports that it builds a new artifact, for a reason, and is patched.
  unfoldable pub report_outdated : Bool → String → String → Sub api (Unit {0})
  unfolding after_outdated_patch mark_outdated
  report_outdated has_old reason message = do
    mark_outdated has_old reason message
    progress api true (Text.◌++◌ "building artifact: " message)
    err ← patch_object api
    after_outdated_patch err

  -- An empty list of the status is nil.
  abbrev is_non_empty : List (Option Artifact) → Bool
  is_non_empty [] = false
  is_non_empty (a ∷ artifacts) = true

  unfoldable pub observe_includes : List Artifact → Sub api (Unit {0})
  unfolding report_outdated
  observe_includes artifacts s =
      if diff artifacts s.obj.status.included_artifacts
      then report_outdated (is_non_empty s.obj.status.included_artifacts) "IncludeChange"
          "included artifacts differ from last observed includes" s
      else pass s

  unfoldable pub checked_out : Option Commit → Sub api Commit
  unfolding fail_fetch
  checked_out none s =
      fail_fetch api auth (new_generic (plain "git repository is empty") "EmptyGitRepository")
        "EmptyGitRepository" s
  checked_out (some commit) s = (record s { commit = commit }, go commit)

  -- A clone that finds no change ends the reconciliation with an error that is to be ignored.
  unfoldable pub no_changes : Commit → Sub api Commit
  no_changes commit = do
    delete_condition api fetch_failed_condition
    s ← get_state
    mark_true api artifact_in_storage_condition succeeded_reason
        (Text.◌++◌ "stored artifact for revision '" (Text.◌++◌ (commit_reference s.obj commit) "'"))
    give_up (
        generic "GitOperationSucceeded" (plain "no changes since last reconcilation")
          (record { event = event_type_normal; log = true; notification = false; ignore = true }))

  -- The second checkout is not asked whether the repository is empty: the source reads through the
  -- pointer, which the model takes as an end of the reconciliation with an error.
  unfoldable pub checked_out_again : Option Commit → Sub api Commit
  checked_out_again none s = give_up (plain "nil pointer dereference") s
  checked_out_again (some commit) s = (record s { commit = commit }, go commit)

  -- The checkout without optimization, if a partial commit will not do.
  unfoldable pub full_commit : AuthOptions → Option ProxyOptions → String → Commit → Sub api Commit
  unfolding no_changes checked_out_again
  full_commit auth_opts proxy dir commit s =
      if commit.is_concrete
      then (s, go commit)
      else if not (git_content_config_changed (repository_of s.obj) s.includes)
      then no_changes commit s
      else (do c ← git_checkout api auth git auth_opts proxy dir false; checked_out_again c) s

  unfoldable pub check_sparse : Option Err → Sub api (Unit {0})
  unfolding fail_fetch
  check_sparse (some e) s =
      fail_fetch api auth
        (new_stalling (wrap "failed to sparse checkout directories" e) git_operation_failed_reason)
        git_operation_failed_reason s
  check_sparse none s = pass s

  unfoldable pub observe_revision : Commit → Sub api (Unit {0})
  unfolding report_outdated
  observe_revision commit s =
      if has_revision s.obj.status.artifact (commit_reference s.obj commit)
      then pass s
      else report_outdated (is_some s.obj.status.artifact) "NewRevision"
          (Text.◌++◌ "new upstream revision '" (Text.◌++◌ (commit_reference s.obj commit) "'")) s

  -- The values of the data of a secret.
  abbrev values : Fallible SecretData → Fallible (List String)
  values (fail e) = fail e
  values (ok entries) = ok (map (λ e. e.1) entries)

  abbrev pub get_key_rings : String → String → Cluster → Fallible (List String)
  get_key_rings namespace name cluster = values (auth.get_secret namespace name cluster)

  -- What follows on the checkout of a commit.
  unfoldable pub accept_commit : String → Commit → Sub api Result
  unfolding check_sparse observe_revision
  accept_commit dir commit = do
    delete_condition api fetch_failed_condition
    s ← get_state
    check_sparse
        (validate_sparse_checkout_paths api auth git s.obj.spec.sparse_checkout dir s.files)
    res ← verify_signature api get_key_rings commit
    observe_revision commit
    λ s. (s, go result_success)

  abbrev pub proxy_url : Option (ProxyOptions × Url) → Option Url
  proxy_url none = none
  proxy_url (some (opts, url)) = some url

  abbrev pub proxy_options : Option (ProxyOptions × Url) → Option ProxyOptions
  proxy_options none = none
  proxy_options (some (opts, url)) = some opts

  unfoldable pub reconcile_source : String → Sub api Result
  unfolding forget_failed_verification object_proxy parsed_url get_auth_opts fetch_includes
      observe_includes git_checkout checked_out full_commit accept_commit
  reconcile_source dir = do
    modify forget_failed_verification
    proxy ← object_proxy api auth
    s ← get_state
    url ← parsed_url (auth.parse_url s.obj.spec.url)
    auth_opts ← get_auth_opts api auth url (proxy_url proxy)
    artifacts ← fetch_includes api auth git
    observe_includes artifacts
    delete_condition api artifact_outdated_condition
    modify (λ s. record s { includes = artifacts })
    c ← git_checkout api auth git auth_opts (proxy_options proxy) dir true
    first ← checked_out c
    commit ← full_commit auth_opts (proxy_options proxy) dir first
    accept_commit dir commit
