-- ===== src/GitReconciler/Chain.antt =====
-- The list of the sub-reconcilers of `Reconcile`, internal/controller/gitrepository_controller.go,
-- and what a run of all of them says of the artifact.
use source_controller.Common.{Option, List, [], ◌∷◌}
use source_controller.Errors.{Err}
use source_controller.Reconcile.{Result}
use source_controller.Flow.{returned}
use source_controller.GitReconciler.{BaseApi, State}
use source_controller.GitReconciler.Storing.{reconcile_storage}
use source_controller.GitReconciler.Authorising.{AuthApi}
use source_controller.GitReconciler.Fetching.{GitApi}
use source_controller.GitReconciler.Sourcing.{reconcile_source}
use source_controller.GitReconciler.Including.{CopyApi, reconcile_include}
use source_controller.GitReconciler.Archiving.{ArchivingApi, reconcile_artifact}
use source_controller.GitReconciler.Looping.{Reconciler, reconcile_object}

module _ {Conds FS Data Reader Cluster Url Client Pattern Matcher : Type 0}
    (api : BaseApi Conds FS Data Reader Cluster) (auth : AuthApi Cluster Url)
    (git : GitApi FS Cluster Client) (copier : CopyApi FS Reader)
    (os : ArchivingApi FS Data Reader Pattern Matcher) where
  abbrev S : Type 0
  S = State Conds FS Cluster

  unfoldable pub reconcilers : List (Reconciler api copier.mkdir_temp)
  reconcilers =
      (λ dir s. returned (reconcile_storage api s))
      ∷ (λ dir s. returned (reconcile_source api auth git dir s))
      ∷ (λ dir s. returned (reconcile_include api copier dir s))
      ∷ (λ dir s. returned (reconcile_artifact api os dir s))
      ∷ []

  -- `Reconcile` up to the deferred patch.
  unfoldable pub reconcile_git_repository : S → S × Result × Option Err
  unfolding reconcilers
  reconcile_git_repository s = reconcile_object api copier.mkdir_temp reconcilers s
