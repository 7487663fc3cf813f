-- ===== src/GitReconciler/Fetching.antt =====
-- `gitCheckout`, `fetchIncludes` and `validateSparseCheckoutPaths` of
-- internal/controller/gitrepository_controller.go. The Git client and the objects of the cluster are
-- parameters.
use source_controller.Common.{
  String, Bool, true, false, ◌&&◌, Option, none, some, List, [], ◌∷◌, ◌++◌, map,
}
use source_controller.Common.Int.{ℤ}
use source_controller.Errors.{
  Err, plain, error, waiting, Fallible, ok, fail, new_generic, event_type_normal,
}
use source_controller.Conditions.{has_status, status_true}
use source_controller.Storage.{Artifact}
use source_controller.Git.{GitRepositoryRef, GitRepositoryInclude}
use source_controller.Flow.{go, ◌>>=◌, ◌>>◌, get_state, give_up}
use source_controller.GitReconciler.{
  BaseApi, GitObject, Commit, Sub, wrap, mark_true, delete_condition, include_unavailable_condition,
  artifact_in_storage_condition,
}
use source_controller.GitReconciler.Authorising.{AuthApi, AuthOptions, ProxyOptions, fail_fetch}

pub record CloneConfig : Type 0 where
  pub recurse_submodules : Bool
  pub shallow_clone : Bool
  pub branch : String
  pub commit : String
  pub tag : String
  pub sem_ver : String
  pub ref_name : String
  pub sparse_checkout_directories : List String
  pub last_observed_commit : String

-- The options of package gogit.
pub data ClientOption : Type 0 where
  with_disk_storage with_insecure_credentials_over_http : ClientOption
  with_proxy : ProxyOptions → ClientOption

pub record GitApi (FS Cluster Client : Type 0) : Type 0 where
  pub new_client : String → AuthOptions → List ClientOption → Fallible Client
  -- The clone into the directory of the client; an empty repository has no commit.
  pub clone : Client → String → CloneConfig → FS → FS × Fallible (Option Commit)
  -- r.Get of a GitRepository: its artifact.
  pub get_repository : String → String → Cluster → Fallible (Option Artifact)
  pub requeue_dependency : ℤ
  -- strings.TrimPrefix of "./", filepath.Join and os.Lstat.
  pub trim_dot_slash : String → String
  pub join : String → String → String
  pub lstat : String → FS → Option Err

abbrev pub git_operation_failed_reason : String
git_operation_failed_reason = "GitOperationFailed"

module _ {Conds FS Data Reader Cluster Url Client : Type 0}
    (api : BaseApi Conds FS Data Reader Cluster) (auth : AuthApi Cluster Url)
    (git : GitApi FS Cluster Client) where
  abbrev with_reference : Option GitRepositoryRef → CloneConfig → CloneConfig
  with_reference none config = config
  with_reference (some ref) config = record config {
    branch = ref.branch;
    commit = ref.commit;
    tag = ref.tag;
    sem_ver = ref.sem_ver;
    ref_name = ref.name;
  }

  abbrev with_last_observed : Bool → Option Artifact → CloneConfig → CloneConfig
  with_last_observed true (some artifact) config = record config {
    last_observed_commit = artifact.revision;
  }
  with_last_observed _ _ config = config

  -- The configuration of the clone.
  unfoldable pub clone_config : Bool → GitObject Conds → CloneConfig
  clone_config optimized obj =
      with_last_observed
        (optimized
          && has_status status_true (api.conds.get obj.conditions artifact_in_storage_condition))
        obj.status.artifact
        (with_reference obj.spec.reference (record {
          recurse_submodules = obj.spec.recurse_submodules;
          shallow_clone = true;
          branch = "";
          commit = "";
          tag = "";
          sem_ver = "";
          ref_name = "";
          sparse_checkout_directories = map git.trim_dot_slash obj.spec.sparse_checkout;
          last_observed_commit = "";
        }))

  abbrev insecure_option : Bool → List ClientOption
  insecure_option true = with_insecure_credentials_over_http ∷ []
  insecure_option false = []

  abbrev proxy_client_option : Option ProxyOptions → List ClientOption
  proxy_client_option none = []
  proxy_client_option (some proxy) = with_proxy proxy ∷ []

  unfoldable pub client_options : AuthOptions → Option ProxyOptions → List ClientOption
  client_options auth_opts proxy =
      with_disk_storage ∷ (insecure_option auth_opts.is_http ++ proxy_client_option proxy)

  unfoldable pub after_clone : Fallible (Option Commit) → Sub api (Option Commit)
  unfolding fail_fetch
  after_clone (fail e) s =
      fail_fetch api auth
        (new_generic (wrap "failed to checkout and determine revision" e)
          git_operation_failed_reason)
        git_operation_failed_reason s
  after_clone (ok commit) s = (s, go commit)

  unfoldable pub clone_with : Bool → Fallible Client → Sub api (Option Commit)
  unfolding fail_fetch after_clone clone_config
  clone_with optimized (fail e) s =
      fail_fetch api auth
        (new_generic (wrap "failed to create Git client" e) git_operation_failed_reason)
        git_operation_failed_reason s
  clone_with optimized (ok client) s =
      let (files, commit) =
        git.clone client s.obj.spec.url (clone_config optimized s.obj) s.files in
      after_clone commit (record s { files = files })

  unfoldable pub git_checkout :
      AuthOptions → Option ProxyOptions → String → Bool → Sub api (Option Commit)
  unfolding clone_with client_options
  git_checkout auth_opts proxy dir optimized s =
      clone_with optimized (git.new_client dir auth_opts (client_options auth_opts proxy)) s

  -- The include is not available; it is tried again later.
  unfoldable pub wait_for_include : {A : Type 0} → Err → String → Sub api A
  wait_for_include err reason = do
    mark_true api include_unavailable_condition reason (error err)
    give_up (
        waiting git.requeue_dependency reason err
          (record { event = event_type_normal; log = true; notification = false; ignore = false }))

  unfoldable pub included_artifact : Fallible (Option Artifact) → Sub api Artifact
  unfolding wait_for_include
  included_artifact (fail e) s =
      wait_for_include (wrap "could not get resource for include" e) "NotFound" s
  included_artifact (ok none) s =
      wait_for_include (plain "no artifact available for include") "NoArtifact" s
  included_artifact (ok (some artifact)) s = (s, go artifact)

  -- The loop over the includes.
  unfoldable pub fetch_all : List GitRepositoryInclude → Sub api (List Artifact)
  unfolding included_artifact
  fetch_all [] = λ s. (s, go [])
  fetch_all (incl ∷ incls) = do
    s ← get_state
    artifact ←
        included_artifact
          (git.get_repository s.obj.metadata.namespace incl.git_repository_ref s.cluster)
    artifacts ← fetch_all incls
    λ s. (s, go (artifact ∷ artifacts))

  unfoldable pub fetch_includes : Sub api (List Artifact)
  unfolding fetch_all
  fetch_includes = do
    s ← get_state
    artifacts ← fetch_all s.obj.spec.include
    delete_condition api include_unavailable_condition
    λ s. (s, go artifacts)

  -- The first path that is not in the directory.
  unfoldable pub validate_sparse_checkout_paths : List String → String → FS → Option Err
  validate_sparse_checkout_paths [] dir fs = none
  validate_sparse_checkout_paths (path ∷ paths) dir fs =
      let rest = validate_sparse_checkout_paths paths dir fs in
      elim (git.lstat (git.join dir path) fs) [
        | none ↦ rest
        | some e ↦ some (wrap "sparse checkout dir does not exist in repository" e)
      ]
