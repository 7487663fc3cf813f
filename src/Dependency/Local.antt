-- ===== src/Dependency/Local.antt =====
-- Local dependencies in internal/helm/chart/dependency_manager.go.
use source_controller.Common.{
  ◌≡◌, refl, String, true, Option, none, some, arith, Bool-cases, inl, inr, ◌⊎◌, decide,
  String-discrete, [], ◌∷◌,
}
use source_controller.Errors.{Err, Fallible, ok, fail, ◌>>=◌}
use source_controller.Dependency.{
  Dependency, ChartFile, LocalReference, ChartApi, secure_local_chart_path, local_dependency,
  renamed, Url,
}

Fallible-cases : {A : Type 0} (r : Fallible A) → ((a : A) × (r ≡ ok a)) ⊎ ((e : Err) × (r ≡ fail e))
Fallible-cases (ok a) = inl (a, refl)
Fallible-cases (fail e) = inr (e, refl)

-- A chain that succeeds has a first step that does.
bind-ok :
    {A B : Type 0} (r : Fallible A) (f : A → Fallible B) (b : B)
    → (r >>= f) ≡ ok b
    → (a : A) × (r ≡ ok a) × (f a ≡ ok b)
bind-ok (ok a) f b h = (a, refl, h)
bind-ok (fail e) f b h = absurd (ground (arith, h))

stat-ok :
    (o : Option Err) (p q : String)
    → ◌≡◌ {A = Fallible String} (elim o [ none ↦ ok p | some e ↦ fail e ]) (ok q)
    → (o ≡ none) × (p ≡ q)
stat-ok none p q h = (refl, ground (arith, h))
stat-ok (some e) p q h = absurd (ground (arith, h))

module _ {Downloader Archive Version Constraint : Type 0}
    (api : ChartApi Downloader Archive Version Constraint) (ref : LocalReference)
    (dep : Dependency) where
  -- The path is what the secure join of the work directory with a relative path gives: that of the
  -- chart of this name in the directory charts of the reference, without a repository, and else that
  -- of the host and the path of an address without a scheme or with that of a file.
  abbrev pub IsSecure : String → Type 0
  IsSecure path =
      (relative : String) × (api.secure_join ref.work_dir relative ≡ ok path)
      × (((dep.repository ≡ "")
            × (relative ≡ api.filepath_join (ref.path ∷ "charts" ∷ dep.name ∷ [])))
          ⊎ ((u : Url) × (api.parse_url dep.repository ≡ ok u)
              × ((u.scheme ≡ "") ⊎ (u.scheme ≡ "file"))
              × (relative ≡ api.filepath_join (ref.path ∷ u.host ∷ u.path ∷ []))))

  is_empty-eq : (s : String) → decide (String-discrete s "") ≡ true → s ≡ ""
  is_empty-eq s h = ground (arith, h)

  secure_local_chart_path-IsSecure :
      (path : String) → secure_local_chart_path api ref dep ≡ ok path → IsSecure path
  unfolding secure_local_chart_path
  secure_local_chart_path-IsSecure path h =
      elim (Bool-cases (decide (String-discrete dep.repository ""))) [
        | inl e ↦ (_, rw e at h, inl (is_empty-eq dep.repository e, refl))
        | inr e ↦
            let (u, p, h1) = bind-ok (api.parse_url dep.repository) _ path (rw e at h) in
            elim (Bool-cases (decide (String-discrete u.scheme ""))) [
              | inl s ↦ (_, rw s at h1, inr (u, p, inl (is_empty-eq u.scheme s), refl))
              | inr s ↦ elim (Bool-cases (decide (String-discrete u.scheme "file"))) [
                | inl f ↦ (_, rw (s, f) at h1, inr (u, p, inr (ground (arith, f)), refl))
                | inr f ↦ absurd (ground (arith, rw (s, f) at h1))
              ]
            ]
      ]

  -- A local dependency that is added comes from the path that the secure join of the work directory
  -- gives for it, where there is a file; the chart loaded there has a version that the constraint of
  -- the dependency accepts, and is renamed to its alias.
  pub local_dependency-check :
      (chart : ChartFile)
      → local_dependency api ref dep ≡ ok chart
      → (path : String) × (constraint : Constraint) × (file : ChartFile) × (version : Version)
        × IsSecure path
        × (api.stat path ≡ none)
        × (api.new_constraint dep.version ≡ ok constraint)
        × (api.load ref.work_dir path ≡ ok file)
        × (api.new_version file.version ≡ ok version)
        × (api.check constraint version ≡ true)
        × (chart ≡ renamed dep file)
  unfolding local_dependency
  local_dependency-check chart h =
      let (path, p, h1) = bind-ok (secure_local_chart_path api ref dep) _ chart h in
      let (found, s, h2) = bind-ok _ _ chart h1 in
      let (missing, same_path) = stat-ok (api.stat path) path found s in
      let (constraint, c, h3) = bind-ok (api.new_constraint dep.version) _ chart h2 in
      let (file, l, h4) = bind-ok (api.load ref.work_dir found) _ chart h3 in
      let (version, v, h5) = bind-ok (api.new_version file.version) _ chart h4 in
      elim (Bool-cases (api.check constraint version)) [
        | inr u ↦ absurd (ground (arith, u, h5))
        | inl u ↦ (
          path,
          constraint,
          file,
          version,
          secure_local_chart_path-IsSecure path p,
          missing,
          c,
          rw same_path l,
          v,
          u,
          ground (arith, u, h5),
        )
      ]
