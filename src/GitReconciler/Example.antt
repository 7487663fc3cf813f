-- ===== src/GitReconciler/Example.antt =====
-- A reconciler over the disk of Storage and over listed conditions, in which the laws hold.
use source_controller.Common.{String, Bool, true, false, refl, Option, none, some, List, [], ◌∷◌}
use source_controller.Common.Int.{pos}
use source_controller.Errors.{plain, ok, fail}
use source_controller.Conditions.Example as Conds
use source_controller.Conditions.Example.{Listed}
use source_controller.Storage.{Artifact}
use source_controller.Storage.Naming.{NamingApi}
use source_controller.Storage.Example.{Disk, disk_api}
use source_controller.Garbage.Example.{sort}
use source_controller.Removal.{RemovalApi}
use source_controller.Git.{mode_git_head, GitRepositorySpec, GitRepositoryStatus}
use source_controller.Archive.{IgnoreApi}
use source_controller.GitReconciler.Authorising.{AuthApi}
use source_controller.GitReconciler.Fetching.{GitApi}
use source_controller.GitReconciler.Including.{CopyApi}
use source_controller.GitReconciler.Archiving.{ArchivingApi}
use source_controller.GitReconciler.{BaseApi, State, GitObject, ObjectMeta, Commit}

abbrev pub removal : RemovalApi Disk
removal = record {
  dir = λ p. "";
  stat = λ p disk. none;
  lstat = λ p disk. none;
  remove_all = λ p disk. (disk, none);
}

abbrev first_or_empty : List String → String
first_or_empty [] = ""
first_or_empty (s ∷ ss) = s

abbrev pub naming : NamingApi
naming = record { path_join = first_or_empty; to_lower = λ s. s; trim_left = λ s. s }

abbrev pub no_commit : Commit
no_commit = record {
  hash = "";
  is_concrete = false;
  short_message = "";
  text = "";
  absolute_reference = "";
  referencing_tag = none;
  verify = λ keys. fail (plain "no signature");
}

-- The cluster takes every patch.
unfoldable pub base : BaseApi Listed Disk Bool (Option Bool) (List Listed)
unfolding Conds.api
base = record {
  conds = Conds.api;
  zero_commit = no_commit;
  progressive_status = λ drift c reason message. c;
  progressive_status_frame = λ drift c reason message t n m. refl;
  patch = λ obj cluster. (obj.conditions ∷ cluster, none);
  forget_events = λ metadata cluster. cluster;
  storage = disk_api;
  base_path = "/data";
  hostname = "localhost";
  now = 7;
  naming = naming;
  removal = removal;
  aggregate = λ es. plain "aggregate";
  ext = λ s. "";
  sort = sort;
  artifact_entries = λ a disk. [];
  timed_out = λ disk. some (plain "deadline");
  garbage_count_limit = 1000;
  records = pos 2;
  ttl = pos 85;
  time = pos 100;
}

abbrev pub stored : Artifact
stored = record {
  path = "a.tgz";
  url = "";
  revision = "main@sha1:1";
  digest = "";
  last_update_time = 0;
  size = none;
  metadata = [];
}

abbrev pub metadata : ObjectMeta
metadata = record {
  kind = "GitRepository";
  namespace = "default";
  name = "app";
  generation = 1;
  deletion_timestamp_is_zero = true;
  finalizers = "finalizers.fluxcd.io" ∷ "other" ∷ [];
  reconcile_annotation = none;
}

abbrev pub spec : GitRepositorySpec
spec = record {
  url = "https://example.com/repo";
  secret_ref = none;
  provider = "";
  reference = none;
  proxy_secret_ref = none;
  suspend = false;
  ignore = none;
  recurse_submodules = false;
  include = [];
  sparse_checkout = [];
  verification = none;
}

abbrev pub status : GitRepositoryStatus
status = record {
  observed_generation = 1;
  last_handled_reconcile_at = "";
  artifact = some stored;
  included_artifacts = [];
  observed_ignore = none;
  observed_recurse_submodules = false;
  observed_include = [];
  observed_sparse_checkout = [];
  source_verification_mode = none;
}

abbrev pub object : GitObject Listed
object = record { metadata = metadata; spec = spec; status = status; conditions = [] }

abbrev pub state : State Listed Disk (List Listed)
state = record {
  obj = object;
  commit = no_commit;
  includes = [];
  files = λ p. none;
  cluster = [];
  events = [];
}

abbrev pub deleted_state : State Listed Disk (List Listed)
deleted_state = record state {
  obj = record object { metadata = record metadata { deletion_timestamp_is_zero = false } };
}

-- Packages that answer as little as they may.
abbrev pub auth : AuthApi (List Listed) Unit
auth = record {
  get_secret = λ namespace name cluster. ok (("key", "ring") ∷ []);
  parse_url = λ text. ok tt;
  user = λ name url. url;
  user_password = λ name password url. url;
  new_auth_options = λ url entries.
      ok (record { is_http = true; bearer_token = ""; username = ""; password = "" });
  get_git_credentials = λ provider options cluster. fail (plain "no credentials");
  github_credentials = λ options cluster. fail (plain "no credentials");
  has_token_cache = false;
  key_app_id = "app";
}

-- A commit that any key verifies.
abbrev pub signed_commit : Commit
signed_commit = record no_commit {
  hash = "1";
  is_concrete = true;
  text = "main@sha1:1";
  verify = λ keys. ok "key";
}

abbrev pub git : GitApi Disk (List Listed) Unit
git = record {
  new_client = λ dir opts options. ok tt;
  clone = λ client url config disk. (disk, ok (some signed_commit));
  get_repository = λ namespace name cluster. ok none;
  requeue_dependency = pos 5;
  trim_dot_slash = λ path. path;
  join = λ dir path. dir;
  lstat = λ path disk. none;
}

abbrev pub copier : CopyApi Disk (Option Bool)
copier = record {
  mkdir_temp = λ dir pattern disk. (disk, ok "work");
  untar = λ reader path disk. (disk, none);
  mkdir_all = λ path mode disk. (disk, none);
}

abbrev pub ignore : IgnoreApi Unit Unit
ignore = record {
  new_default_matcher = λ ps domain. tt;
  vcs_patterns = λ domain. [];
  new_matcher = λ ps. tt;
  matches = λ matcher path is_dir. false;
  split = λ p. p ∷ [];
}

abbrev pub os : ArchivingApi Disk Bool (Option Bool) Unit Unit
os = record {
  stat_is_dir = λ path disk. ok true;
  lstat_is_symlink = λ path disk. ok false;
  mkdir_all = λ path mode disk. (disk, none);
  lock = λ path disk. (disk, none);
  unlock = λ path disk. disk;
  load_ignore_patterns = λ dir domain disk. ok [];
  read_patterns = λ text domain. [];
  ignore = ignore;
  entries = λ dir disk. [];
  is_abs = λ p. false;
  rel = λ base p. ok p;
  tar = λ o. some true;
}

abbrev pub verified_state : State Listed Disk (List Listed)
verified_state = record state {
  obj = record object {
    spec = record spec {
      verification = some (record { mode = mode_git_head; secret_ref = "keys" });
    };
  };
}
