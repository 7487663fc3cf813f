-- ===== src/Dependency/Manager.antt =====
-- The dependency manager of internal/helm/chart/dependency_manager.go: its downloaders, and what a
-- build leaves.
use source_controller.Common.{
  ◌≡◌, refl, ap, ◌∙◌, String, Option, none, some, arith, String-discrete, Option-cases, inl, inr,
}
use source_controller.Common.GoMap
use source_controller.Common.GoMap.{GoMap}
use source_controller.Errors.{Err, Fallible, ok, fail}
use source_controller.Dependency.{
  Dependency, ChartApi, DependencyManager, refused, panicked, known, dep_url, resolve_valid,
  resolve_in, Resolved, call_back, resolve_repository,
}
use source_controller.Dependency.Workers.{remote_dependency, remote_result, download}

module _ {Downloader Archive Version Constraint : Type 0}
    (api : ChartApi Downloader Archive Version Constraint) where
  abbrev Manager : Type 0
  Manager = DependencyManager Downloader

  resolve_valid-get :
      (n_url : String) (dm : Manager) (d : Option Downloader)
      → GoMap.get String-discrete n_url (known api dm) ≡ some d
      → resolve_valid api n_url dm ≡ (dm, ok d)
  unfolding resolve_valid
  resolve_valid-get n_url dm d e = rw (e, resolve_valid) refl

  call_back_again :
      (n_url : String) (dm : Manager) (o : Option Downloader × Option Err) (d : Option Downloader)
      → (call_back api n_url dm o).1 ≡ ok d
      → GoMap.get String-discrete n_url (known api (call_back api n_url dm o).0) ≡ some d
  unfolding call_back
  call_back_again n_url dm (x, some e) d h = absurd (ground (arith, h))
  call_back_again n_url dm (x, none) d h =
      let same_downloader : x ≡ d = ground (arith, h) in
      GoMap.get-put_self String-discrete n_url x (known api dm) ∙ ap some same_downloader

  resolve_valid_again :
      (n_url : String) (dm : Manager) (d : Option Downloader)
      → (resolve_valid api n_url dm).1 ≡ ok d
      → GoMap.get String-discrete n_url (known api (resolve_valid api n_url dm).0) ≡ some d
  unfolding resolve_valid
  resolve_valid_again n_url dm d h =
      elim (Option-cases (GoMap.get String-discrete n_url (known api dm))) [
        | inr (x, u) ↦
            let same_downloader : x ≡ d = ground (arith, rw (u, resolve_valid) at h) in
            rw (u, resolve_valid) (ground (arith, u, same_downloader))
        | inl u ↦ elim (Option-cases dm.get_chart_downloader_callback) [
          | inl c ↦ absurd (ground (arith, rw (u, c, resolve_valid) at h))
          | inr (callback, c) ↦
              rw (u, c, resolve_valid)
                (call_back_again n_url dm (callback n_url) d (rw (u, c, resolve_valid) at h))
        ]
      ]

  resolve_in_again :
      (r : Fallible String) (dm : Manager) (d : Option Downloader)
      → (resolve_in api r dm).1 ≡ ok d
      → resolve_in api r (resolve_in api r dm).0 ≡ ((resolve_in api r dm).0, ok d)
  unfolding resolve_in
  resolve_in_again (fail e) dm d h = absurd (ground (arith, h))
  resolve_in_again (ok n_url) dm d h =
      resolve_valid-get n_url (resolve_valid api n_url dm).0 d (resolve_valid_again n_url dm d h)

  -- A repository that was resolved is resolved to the same downloader again, without a change.
  pub resolve_repository_again :
      (url : String) (dm : Manager) (d : Option Downloader)
      → (resolve_repository api url dm).1 ≡ ok d
      → resolve_repository api url (resolve_repository api url dm).0
        ≡ ((resolve_repository api url dm).0, ok d)
  unfolding resolve_repository
  resolve_repository_again url dm d h = resolve_in_again (dep_url api url) dm d h

  -- A callback that fails with a nil downloader.
  failed_once :
      (n_url : String) (dm : Manager) (callback : String → Option Downloader × Option Err) (e : Err)
      → dm.get_chart_downloader_callback ≡ some callback
      → GoMap.get String-discrete n_url (known api dm) ≡ none
      → callback n_url ≡ (none, some e)
      → ((resolve_valid api n_url dm).1 ≡ fail e)
        × (GoMap.get String-discrete n_url (known api (resolve_valid api n_url dm).0) ≡ some none)
  unfolding resolve_valid call_back
  failed_once n_url dm callback e c g k =
      rw (g, c, k, resolve_valid)
        (refl, GoMap.get-put_self String-discrete n_url none (known api dm))

  remote_failed :
      (dep : Dependency) (o : Resolved api) (e : Err)
      → o.1 ≡ fail e
      → remote_result api dep o ≡ (o.0, refused e)
  unfolding remote_result
  remote_failed dep (dm, r) e h = rw (h, remote_result) refl

  -- After a callback that has failed with a nil downloader, the address resolves to that nil
  -- downloader without an error, and the use of it panics.
  pub resolve_repository_nil :
      (dep : Dependency) (dm : Manager) (callback : String → Option Downloader × Option Err)
      (n_url : String) (e : Err)
      → dm.get_chart_downloader_callback ≡ some callback
      → dep_url api dep.repository ≡ ok n_url
      → GoMap.get String-discrete n_url (known api dm) ≡ none
      → callback n_url ≡ (none, some e)
      → ((remote_dependency api dep dm).1 ≡ refused e)
        × ((remote_dependency api dep (remote_dependency api dep dm).0).1 ≡ panicked)
  unfolding remote_dependency resolve_repository resolve_in remote_result download
  resolve_repository_nil dep dm callback n_url e c u g k =
      let (failed, nil) = failed_once n_url dm callback e c g k in
      let first : remote_dependency api dep dm ≡ ((resolve_valid api n_url dm).0, refused e) =
        rw (u, resolve_in) (remote_failed dep (resolve_valid api n_url dm) e failed) in
      let second : resolve_valid api n_url (resolve_valid api n_url dm).0
          ≡ ((resolve_valid api n_url dm).0, ok none) =
        resolve_valid-get n_url _ none nil in
      rw first (refl, rw (u, resolve_in) (rw second refl))
