-- ===== src/Dependency.antt =====
-- The dependencies of a Helm chart, internal/helm/chart/dependency_manager.go, with the checks of
-- repository addresses of internal/helm/repository/utils.go. The packages net/url and semver, the
-- loading of charts and the clients of repositories are a parameter. The methods under `dm.mu` and
-- the additions under the chart's mutex are steps, and so is each worker of `build`.
pub mod Missing
pub mod Workers
pub mod Manager
pub mod Adding
pub mod Local
mod Tests
use Prim.Native.String as Text
use text.Mathlib.Text.{starts_with}
use source_controller.Common.{
  ℕ, zero, suc, ◌+◌, ◌==◌, ◌≡◌, String, Bool, true, false, not, ◌&&◌, ◌||◌, Option, none, some,
  List, [], ◌∷◌, ◌++◌, length, if◌then◌else◌, decide, String-discrete,
}
use source_controller.Common.GoMap
use source_controller.Common.GoMap.{GoMap}
use source_controller.Errors.{Err, plain, Fallible, ok, fail, ◌>>=◌}

-- The fields of Helm's chart.Dependency.
pub record Dependency : Type 0 where
  pub name : String
  pub version : String
  pub repository : String
  pub alias : String

-- Of a chart that is a dependency, the fields of its metadata.
pub record ChartFile : Type 0 where
  pub name : String
  pub version : String

-- The chart that is built: its dependencies, and those its metadata and its lock file ask for.
pub record Chart : Type 0 where
  pub dependencies : List ChartFile
  pub required : List Dependency
  pub lock : Option (List Dependency)

pub record LocalReference : Type 0 where
  pub work_dir : String
  pub path : String

pub record Url : Type 0 where
  pub scheme : String
  pub host : String
  pub path : String
  pub raw_path : String

abbrev is_empty : String → Bool
is_empty s = decide (String-discrete s "")

abbrev pub key_of : Dependency → String
key_of dep = if is_empty dep.alias then dep.name else dep.alias

unfoldable pub has_chart : String → List ChartFile → Bool
has_chart name [] = false
has_chart name (existing ∷ current) =
    if decide (String-discrete existing.name name) then true else has_chart name current

-- The loop of `collectMissing`.
unfoldable pub collect_from :
    List ChartFile → List Dependency → GoMap String Dependency → GoMap String Dependency
collect_from current [] missing = missing
collect_from current (dep ∷ reqs) missing = collect_from current reqs (
    if has_chart (key_of dep) current
    then missing
    else GoMap.put String-discrete (key_of dep) dep missing)

unfoldable pub collect_missing : List ChartFile → List Dependency → GoMap String Dependency
unfolding collect_from
collect_missing current reqs =
    if length current == length reqs then [] else collect_from current reqs []

unfoldable pub is_local_dep : Dependency → Bool
is_local_dep dep = is_empty dep.repository || starts_with dep.repository "file://"

unfoldable pub validate_dep_url : String → Option Err
validate_dep_url url =
    if starts_with url "oci"
    then none
    else if starts_with url "https://" || starts_with url "http://"
    then none
    else if starts_with url "@"
    then some (plain "aliased repository dependency is not supported")
    else some (plain "invalid dependency repository URL")

-- Downloaders, archives, versions and constraints are types of the packages.
pub record ChartApi (Downloader Archive Version Constraint : Type 0) : Type 0 where
  pub parse_url : String → Fallible Url
  pub url_string : Url → String
  -- strings.TrimRight of slashes.
  pub trim_right : String → String
  pub secure_join : String → String → Fallible String
  pub filepath_join : List String → String
  -- os.Stat.
  pub stat : String → Option Err
  pub new_constraint : String → Fallible Constraint
  pub new_version : String → Fallible Version
  pub check : Constraint → Version → Bool
  -- secureloader.Load and LoadArchive.
  pub load : String → String → Fallible ChartFile
  pub load_archive : Archive → Fallible ChartFile
  -- The methods of a downloader: GetChartVersion, and DownloadChart of the version found.
  pub get_chart_version : Downloader → String → String → Fallible String
  pub download_chart : Downloader → String → Fallible Archive

-- The state that the workers share. A downloader may be nil, and so may the map and the callback.
pub record DependencyManager (Downloader : Type 0) : Type 0 where
  pub downloaders : Option (GoMap String (Option Downloader))
  pub get_chart_downloader_callback : Option (String → Option Downloader × Option Err)

-- How a worker ends: the chart that it adds, an error, or the use of a nil downloader.
pub data Outcome : Type 0 where
  added : ChartFile → Outcome
  refused : Err → Outcome
  panicked : Outcome

abbrev pub outcome : Fallible ChartFile → Outcome
outcome (ok chart) = added chart
outcome (fail e) = refused e

-- `dep.Alias` renames the chart.
unfoldable pub renamed : Dependency → ChartFile → ChartFile
renamed dep chart = if is_empty dep.alias then chart else record chart { name = dep.alias }

module _ {Downloader Archive Version Constraint : Type 0}
    (api : ChartApi Downloader Archive Version Constraint) where
  unfoldable pub normalize_parsed : Url → String
  normalize_parsed u =
      let path = api.trim_right u.path in
      let raw_path = api.trim_right u.raw_path in
      if decide (String-discrete u.scheme "oci")
      then api.url_string (record u { path = path; raw_path = raw_path })
      else api.url_string
          (record u { path = Text.◌++◌ path "/"; raw_path = Text.◌++◌ raw_path "/" })

  unfoldable pub normalize_url : String → Fallible String
  unfolding normalize_parsed
  normalize_url url =
      if is_empty url then ok "" else do u ← api.parse_url url; ok (normalize_parsed u)

  -- The map of the manager, which is nil at first.
  abbrev pub known : DependencyManager Downloader → GoMap String (Option Downloader)
  known dm = elim dm.downloaders [ none ↦ [] | some m ↦ m ]

  abbrev pub Resolved : Type 0
  Resolved = DependencyManager Downloader × Fallible (Option Downloader)

  -- The callback's downloader is put in the map whether or not there is an error.
  unfoldable pub call_back :
      String → DependencyManager Downloader → Option Downloader × Option Err → Resolved
  call_back n_url dm (downloader, err) =
      let dm' = record dm {
        downloaders = some (GoMap.put String-discrete n_url downloader (known dm));
      } in
      elim err [ none ↦ (dm', ok downloader) | some e ↦ (dm', fail e) ]

  unfoldable pub resolve_valid : String → DependencyManager Downloader → Resolved
  unfolding call_back
  resolve_valid n_url dm = elim (GoMap.get String-discrete n_url (known dm)) [
    | some downloader ↦ (dm, ok downloader)
    | none ↦ elim dm.get_chart_downloader_callback [
      | none ↦ (dm, fail (plain "no chart repository for URL"))
      | some callback ↦ call_back n_url dm (callback n_url)
    ]
  ]

  -- The address in normal form, if it is one that can be resolved.
  unfoldable pub dep_url : String → Fallible String
  unfolding normalize_url validate_dep_url
  dep_url url = do
    n_url ← normalize_url url
    elim (validate_dep_url n_url) [ none ↦ ok n_url | some e ↦ fail e ]

  unfoldable pub resolve_in : Fallible String → DependencyManager Downloader → Resolved
  unfolding resolve_valid
  resolve_in (fail e) dm = (dm, fail e)
  resolve_in (ok n_url) dm = resolve_valid n_url dm

  unfoldable pub resolve_repository : String → DependencyManager Downloader → Resolved
  unfolding resolve_in
  resolve_repository url dm = resolve_in (dep_url url) dm

  unfoldable pub secure_local_chart_path : LocalReference → Dependency → Fallible String
  secure_local_chart_path ref dep =
      if is_empty dep.repository
      then api.secure_join ref.work_dir (api.filepath_join (ref.path ∷ "charts" ∷ dep.name ∷ []))
      else do
        u ← api.parse_url dep.repository
        if not (is_empty u.scheme) && not (decide (String-discrete u.scheme "file"))
            then fail (plain "is not a local chart reference")
            else api.secure_join ref.work_dir (api.filepath_join (ref.path ∷ u.host ∷ u.path ∷ []))

  -- The chart that `addLocalDependency` adds.
  unfoldable pub local_dependency : LocalReference → Dependency → Fallible ChartFile
  unfolding secure_local_chart_path renamed
  local_dependency ref dep = do
    path ← secure_local_chart_path ref dep
    found ← (elim (api.stat path) [ none ↦ ok path | some e ↦ fail e ])
    constraint ← api.new_constraint dep.version
    chart ← api.load ref.work_dir found
    version ← api.new_version chart.version
    if api.check constraint version
        then ok (renamed dep chart)
        else fail (plain "can't get a valid version for constraint")
