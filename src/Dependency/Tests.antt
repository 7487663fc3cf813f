-- ===== src/Dependency/Tests.antt =====
-- The dependencies of internal/helm/chart/dependency_manager.go for a chart with one requirement of
-- each kind.
use source_controller.Common.{
  ◌≡◌, refl, String, true, Option, none, some, List, [], ◌∷◌, arith, String-discrete, if◌then◌else◌,
}
use source_controller.Common.GoMap
use source_controller.Common.GoMap.{GoMap}
use source_controller.Errors.{Err, plain, ok}
use source_controller.Dependency.{
  Dependency, ChartFile, Chart, LocalReference, ChartApi, DependencyManager, refused, panicked,
  dep_url, normalize_url, normalize_parsed, validate_dep_url, has_chart, collect_missing,
  local_dependency, secure_local_chart_path, renamed,
}
use source_controller.Dependency.Workers.{remote_dependency}
use source_controller.Dependency.Missing
use source_controller.Dependency.Missing.{last_required}
use source_controller.Dependency.Manager
use source_controller.Dependency.Adding
use source_controller.Dependency.Local
use source_controller.Dependency.Local.{IsSecure}

abbrev joined : List String → String
joined [] = ""
joined (s ∷ l) = s

-- Downloaders are names; every version is accepted.
abbrev api : ChartApi String String String String
api = record {
  parse_url = λ s. ok (record { scheme = "https"; host = s; path = ""; raw_path = "" });
  url_string = λ u. u.host;
  trim_right = λ s. s;
  secure_join = λ dir path. ok path;
  filepath_join = joined;
  stat = λ path. none;
  new_constraint = λ s. ok s;
  new_version = λ s. ok s;
  check = λ c v. true;
  load = λ dir path. ok (record { name = path; version = "1.0.0" });
  load_archive = λ a. ok (record { name = a; version = "1.0.0" });
  get_chart_version = λ repo name version. ok name;
  download_chart = λ repo version. ok version;
}

abbrev remote : Dependency
remote = record { name = "redis"; version = "1"; repository = "https://charts"; alias = "" }

abbrev local : Dependency
local = record { name = "common"; version = "1"; repository = ""; alias = "base" }

abbrev chart : Chart
chart = record { dependencies = []; required = remote ∷ local ∷ []; lock = none }

abbrev callback : String → Option String × Option Err
callback url = (some "client", none)

abbrev failing : String → Option String × Option Err
failing url = (none, some (plain "no client"))

abbrev manager : (String → Option String × Option Err) → DependencyManager String
manager f = record { downloaders = none; get_chart_downloader_callback = some f }

abbrev work_dir : LocalReference
work_dir = record { work_dir = "/work"; path = "charts" }

get-collect_missing_example :
    GoMap.get String-discrete "base" (collect_missing [] (remote ∷ local ∷ []))
    ≡ (if has_chart "base" [] then none else last_required "base" (remote ∷ local ∷ []))
get-collect_missing_example =
    Missing.get-collect_missing "base" [] (remote ∷ local ∷ []) (λ e. ground (arith, e))

resolve_repository_nil_example :
    ((remote_dependency api remote (manager failing)).1 ≡ refused (plain "no client"))
    × ((remote_dependency api remote (remote_dependency api remote (manager failing)).0).1
        ≡ panicked)
unfolding dep_url normalize_url normalize_parsed validate_dep_url String-discrete GoMap.get
resolve_repository_nil_example =
    Manager.resolve_repository_nil api remote (manager failing) failing "https://charts"
      (plain "no client") refl refl refl refl

local_dependency-check_example :
    (path : String) × (constraint : String) × (file : ChartFile) × (version : String) × IsSecure api
      work_dir local path
    × (api.stat path ≡ none)
    × (api.new_constraint local.version ≡ ok constraint)
    × (api.load work_dir.work_dir path ≡ ok file)
    × (api.new_version file.version ≡ ok version)
    × (api.check constraint version ≡ true)
    × (record { name = "base"; version = "1.0.0" } ≡ renamed local file)
unfolding local_dependency secure_local_chart_path renamed String-discrete
local_dependency-check_example =
    Local.local_dependency-check api work_dir local (record { name = "base"; version = "1.0.0" })
      refl
