-- ===== src/Dependency/Workers.antt =====
-- The workers of a build of internal/helm/chart/dependency_manager.go, which add the missing
-- dependencies to the chart.

use source_controller.Common.{
  ℕ, zero, suc, String, Option, none, some, List, [], ◌∷◌, ◌++◌, if◌then◌else◌,
}
use source_controller.Common.GoMap
use source_controller.Common.GoMap.{GoMap}
use source_controller.Errors.{plain, ok, fail, ◌>>=◌}
use source_controller.Dependency.{
  Dependency, ChartFile, Chart, LocalReference, ChartApi, DependencyManager, Outcome, added,
  refused, panicked, outcome, renamed, Resolved, resolve_repository, local_dependency, is_local_dep,
  collect_missing,
}

module _ {Downloader Archive Version Constraint : Type 0}
    (api : ChartApi Downloader Archive Version Constraint) where
  -- What `addRemoteDependency` does with the resolved downloader.
  unfoldable pub download : Dependency → Option Downloader → Outcome
  unfolding renamed
  download dep none = panicked
  download dep (some repo) = outcome (do
    version ← api.get_chart_version repo dep.name dep.version
    archive ← api.download_chart repo version
    chart ← api.load_archive archive
    ok (renamed dep chart))

  abbrev pub Worked : Type 0
  Worked = DependencyManager Downloader × Outcome

  unfoldable pub remote_result : Dependency → Resolved api → Worked
  unfolding download
  remote_result dep (dm, fail e) = (dm, refused e)
  remote_result dep (dm, ok repo) = (dm, download dep repo)

  unfoldable pub remote_dependency : Dependency → DependencyManager Downloader → Worked
  unfolding remote_result
  remote_dependency dep dm = remote_result dep (resolve_repository api dep.repository dm)

  -- A worker of `build`; `none` is a reference to a remote chart.
  unfoldable pub work : Option LocalReference → Dependency → DependencyManager Downloader → Worked
  work ref dep dm =
      if is_local_dep dep
      then elim ref [
        | none ↦ (dm, refused (plain "no local chart reference"))
        | some r ↦ (dm, outcome (local_dependency api r dep))
      ]
      else remote_dependency dep dm

  unfoldable pub add_dependency : ChartFile → Chart → Chart
  add_dependency file chart = record chart { dependencies = chart.dependencies ++ file ∷ [] }

  -- The state of a build: the manager, the chart, and the first error or panic.
  pub record Building : Type 0 where
    pub manager : DependencyManager Downloader
    pub chart : Chart
    pub first_err : Option Outcome

  unfoldable pub finish_worker : Building → Worked → Building
  unfolding add_dependency
  finish_worker b (dm, added file) = record b { manager = dm; chart = add_dependency file b.chart }
  finish_worker b (dm, refused e) = record b {
    manager = dm;
    first_err = elim b.first_err [ none ↦ some (refused e) | some o ↦ some o ];
  }
  finish_worker b (dm, panicked) = record b {
    manager = dm;
    first_err = elim b.first_err [ none ↦ some panicked | some o ↦ some o ];
  }

  -- The workers of `build`, in the order in which they end. The first error cancels those that have
  -- not started; of the others, which `in_flight` counts, each still ends as it would.
  unfoldable pub build_from :
      Option LocalReference → ℕ → List (String × Dependency) → Building → Building
  build_from ref in_flight [] b = b
  build_from ref in_flight ((name, dep) ∷ deps) b = elim b.first_err [
    | none ↦ build_from ref in_flight deps (finish_worker b (work ref dep b.manager))
    | some o ↦ elim in_flight [
      | zero ↦ b
      | suc n ↦ build_from ref n deps (finish_worker b (work ref dep b.manager))
    ]
  ]

  -- `Build`, with the order of its workers as a function of the map of what is missing.
  unfoldable pub build :
      (GoMap String Dependency → List (String × Dependency))
      → Option LocalReference
      → ℕ
      → DependencyManager Downloader
      → Chart
      → Building × ℕ
  unfolding build_from finish_worker work
  build order ref in_flight dm chart =
      let reqs : List Dependency = elim chart.lock [
        | none ↦ chart.required
        | some locked ↦ locked
      ] in
      let missing = collect_missing chart.dependencies reqs in
      let b =
        build_from ref in_flight (order missing)
          (record { manager = dm; chart = chart; first_err = none }) in
      elim b.first_err [ none ↦ (b, GoMap.size missing) | some o ↦ (b, 0) ]
