-- ===== src/Dependency/Missing.antt =====
-- Which dependencies are missing: `collectMissing` of internal/helm/chart/dependency_manager.go.
use source_controller.Common.{
  ◌≡◌, ◌≢◌, String, not, ◌&&◌, Option, none, some, List, [], ◌∷◌, arith, String-discrete,
  Bool-cases, inl, inr, length, decide, if◌then◌else◌,
}
use source_controller.Common.GoMap
use source_controller.Common.GoMap.{GoMap}
use source_controller.Dependency.{
  Dependency, ChartFile, key_of, has_chart, collect_from, collect_missing,
}

-- The last requirement under a key.
abbrev pub last_required : String → List Dependency → Option Dependency
last_required name [] = none
last_required name (dep ∷ reqs) =
    let later = last_required name reqs in
    elim later [
      | some d ↦ some d
      | none ↦ if decide (String-discrete (key_of dep) name) then some dep else none
    ]

abbrev or_else : Option Dependency → Option Dependency → Option Dependency
or_else none o = o
or_else (some d) o = some d

-- One turn of the loop, as a lookup sees it.
get_turn :
    (name key : String) (dep : Dependency) (current : List ChartFile)
    (missing : GoMap String Dependency)
    → GoMap.get String-discrete name
        (if has_chart key current then missing else GoMap.put String-discrete key dep missing)
      ≡ (if decide (String-discrete key name) && not (has_chart name current)
          then some dep
          else GoMap.get String-discrete name missing)
get_turn name key dep current missing = elim (String-discrete key name) [
  | yes p ↦ rw p (elim (Bool-cases (has_chart name current)) [
    | inl e ↦ ground (arith, e)
    | inr e ↦ ground (arith, e, GoMap.get-put_self String-discrete name dep missing)
  ])
  | no n ↦ ground (arith, n, GoMap.get-put_ne String-discrete key name dep missing n)
]

get-collect_from :
    (name : String) (current : List ChartFile) (reqs : List Dependency)
    (missing : GoMap String Dependency)
    → GoMap.get String-discrete name (collect_from current reqs missing) ≡ (
        if has_chart name current
        then GoMap.get String-discrete name missing
        else or_else (last_required name reqs) (GoMap.get String-discrete name missing))
unfolding collect_from
get-collect_from name current [] missing = ground arith
get-collect_from name current (dep ∷ reqs) missing =
    let turn =
      if has_chart (key_of dep) current
      then missing
      else GoMap.put String-discrete (key_of dep) dep missing in
    ground (
      arith,
      get-collect_from name current reqs turn,
      get_turn name (key_of dep) dep current missing,
    )

-- Unless there are as many charts as requirements, what is missing under a name is the last
-- requirement of that name or alias, if no chart has the name.
pub get-collect_missing :
    (name : String) (current : List ChartFile) (reqs : List Dependency)
    → length current ≢ length reqs
    → GoMap.get String-discrete name (collect_missing current reqs)
      ≡ (if has_chart name current then none else last_required name reqs)
unfolding collect_missing GoMap.get
get-collect_missing name current reqs n = ground (arith, n, get-collect_from name current reqs [])
