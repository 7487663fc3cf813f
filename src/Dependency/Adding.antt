-- ===== src/Dependency/Adding.antt =====
-- What a build of internal/helm/chart/dependency_manager.go adds to the chart.
use source_controller.Common.{
  ℕ, ◌≡◌, String, Option, none, some, List, [], ◌∷◌, ◌++◌, ◌==◌, ◌||◌, if◌then◌else◌, length,
}
use source_controller.Common.GoMap
use source_controller.Common.GoMap.{GoMap}
use source_controller.Dependency.Missing.{last_required}
use source_controller.Dependency.{
  Dependency, ChartFile, Chart, LocalReference, ChartApi, DependencyManager, added, has_chart,
}
use source_controller.Dependency.Workers.{Building, work, build_from}

module _ {Downloader Archive Version Constraint : Type 0}
    (api : ChartApi Downloader Archive Version Constraint) (ref : Option LocalReference) where
  -- Each chart is what a worker has added for the dependency at the same place; each worker has the
  -- manager that the one before it has left.
  abbrev pub AreWorked :
      DependencyManager Downloader → List (String × Dependency) → List ChartFile → Type 0
  AreWorked dm [] [] = Unit
  AreWorked dm [] (file ∷ files) = ⊥
  AreWorked dm (d ∷ deps) [] = ⊥
  AreWorked dm (d ∷ deps) (file ∷ files) =
      (dm' : DependencyManager Downloader) × (work api ref d.1 dm ≡ (dm', added file))
      × AreWorked dm' deps files

  -- A build that has not failed has added one chart for each of its dependencies.
  abbrev HasAdded : ℕ → List (String × Dependency) → Building api → Type 0
  HasAdded n deps b =
      (files : List ChartFile) × ((build_from api ref n deps b).chart.dependencies
        ≡ b.chart.dependencies ++ files)
      × (length files ≡ length deps)
      × AreWorked b.manager deps files

  -- What a chart requires, as its lock file says if it has one.
  abbrev pub required_by : Chart → List Dependency
  required_by chart = elim chart.lock [ none ↦ chart.required | some locked ↦ locked ]

  -- What is missing of a chart under a name: nothing if there are as many charts as requirements, or
  -- if a chart has the name, and else the last requirement of that name or alias.
  abbrev pub missing_under : String → Chart → Option Dependency
  missing_under name chart =
      if (length chart.dependencies == length (required_by chart))
        || has_chart name chart.dependencies
      then none
      else last_required name (required_by chart)
