-- ===== src/GitReconciler/RunTests.antt =====
-- Runs of the sub-reconcilers of internal/controller/gitrepository_controller.go on the disk of the
-- example.
use source_controller.Common.{◌≡◌, refl, none, some, List, [], ◌∷◌, String-discrete}
use source_controller.Errors.{plain}
use source_controller.Reconcile.{Result, result_empty, result_success, result_requeue}
use source_controller.Conditions.Example.{Listed}
use source_controller.Storage.Example.{Disk, disk_api}
use source_controller.GitReconciler.{State}
use source_controller.Flow.{returned}
use source_controller.GitReconciler.Storing.{contains_finalizer, reconcile_storage}
use source_controller.GitReconciler.Sourcing.{reconcile_source}
use source_controller.GitReconciler.Including.{reconcile_include}
use source_controller.GitReconciler.Archiving.{reconcile_artifact}
use source_controller.GitReconciler.Example.{base, state, auth, git, copier, os}
use source_controller.GitReconciler.Looping.{SubReconciler, run_sub_reconcilers, in_dir, LoopEnd}
use source_controller.GitReconciler.Looped
use source_controller.GitReconciler.Looped.{EndsAs}
use source_controller.GitReconciler.Chain.{reconcilers}
use source_controller.GitReconciler.Chained
use source_controller.GitReconciler.Accepted.{IsAccepted}
use source_controller.GitReconciler.Recorded.{IsReconciled, artifact_of}

abbrev Example : Type 0
Example = State Listed Disk (List Listed)

abbrev succeed : SubReconciler Example
succeed s = (s, result_success, none)

abbrev break : SubReconciler Example
break s = (s, result_empty, some (plain "broken"))

run_sub_reconcilers-EndsAs_example :
    EndsAs
      (succeed ∷ break ∷ succeed ∷ [])
      result_empty
      state
      (run_sub_reconcilers (succeed ∷ break ∷ succeed ∷ []) result_empty state)
run_sub_reconcilers-EndsAs_example =
    Looped.run_sub_reconcilers-EndsAs (succeed ∷ break ∷ succeed ∷ []) result_empty state

-- An object without an artifact.
abbrev fresh : Example
fresh = record state {
  obj = record state.obj { status = record state.obj.status { artifact = none } };
}

abbrev loop : Example × LoopEnd
loop =
    run_sub_reconcilers (in_dir base copier.mkdir_temp "work" (reconcilers base auth git copier os))
      result_empty fresh

run_sub_reconcilers-IsReconciled_example :
    (x : Result) × (stored : Example) × (sourced : Example) × (included : Example) × (returned
        (reconcile_storage base fresh)
      ≡ (stored, x, none))
    × (returned (reconcile_source base auth git "work" stored) ≡ (sourced, result_success, none))
    × (returned (reconcile_include base copier "work" sourced) ≡ (included, result_success, none))
    × (returned (reconcile_artifact base os "work" included) ≡ (loop.0, result_success, none))
    × IsAccepted base auth git stored sourced result_success
    × (included.commit ≡ sourced.commit)
    × (included.obj.spec ≡ sourced.obj.spec)
    × IsReconciled base os included (artifact_of base os included) loop.0 result_success
unfolding run_sub_reconcilers in_dir reconcilers
    source_controller.GitReconciler.Storing.reconcile_storage base
    source_controller.GitReconciler.Sourcing.reconcile_source String-discrete
    source_controller.Git.diff
    source_controller.GitReconciler.Fetching.validate_sparse_checkout_paths
    source_controller.GitReconciler.Verifying.verify_signature
    source_controller.GitReconciler.Including.reconcile_include
    source_controller.GitReconciler.Archiving.reconcile_artifact source_controller.Archive.archive
    source_controller.Storage.write_file disk_api source_controller.Storage.Example.created
    source_controller.Storage.local_path source_controller.Storage.Example.copied
    source_controller.Storage.Example.renamed source_controller.Storage.has_revision
    source_controller.Storage.Naming.new_artifact_for
    source_controller.Reconcile.lowest_requeuing_result source_controller.Archive.archive_walk
run_sub_reconcilers-IsReconciled_example =
    Chained.run_sub_reconcilers-IsReconciled base auth git copier os (λ p disk d h. refl)
      (λ l p disk. refl) "work" result_empty result_success fresh loop.0 refl
