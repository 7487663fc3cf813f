-- ===== src/GitReconciler/Tests.antt =====
-- Reconciliations of internal/controller/gitrepository_controller.go on the disk of the example.
use source_controller.Common.{
  String-discrete, ◌≡◌, refl, ap, true, false, none, some, String, List, [], ◌∷◌,
}
use source_controller.Reconcile.{result_empty, result_success}
use source_controller.Storage.{artifact_exist, local_path}
use source_controller.Storage.Example.{Disk, disk_api}
use source_controller.Removal.{remove_artifacts, garbage_collect, answer}
use source_controller.GitReconciler.{State}
use source_controller.GitReconciler.Example.{
  base, state, object, spec, stored, deleted_state, verified_state, auth, git, copier, os,
  signed_commit,
}
use source_controller.GitReconciler.Storing.{
  contains_finalizer, collect_object, collect_current, after_collect, check_current, check_artifact,
  record_artifact, after_patch, after_remove_dir, after_collect_object, reconcile_storage,
  reconcile_delete,
}
use source_controller.GitReconciler.Stored
use source_controller.GitReconciler.Stored.{IsStored}
use source_controller.Errors.{Fallible}
use source_controller.Conditions.Example.{Listed}
use source_controller.Flow.Laws.{Outcome}
use source_controller.GitReconciler.Sourcing
use source_controller.GitReconciler.Sourcing.{reconcile_source}
use source_controller.GitReconciler.Verifying.{verify_signature}
use source_controller.GitReconciler.Verified
use source_controller.GitReconciler.Verified.{IsSettled, Unverified}
use source_controller.GitReconciler.Fetched.{IsFailed}
use source_controller.GitReconciler.Sourced
use source_controller.GitReconciler.Accepted.{IsAccepted}
use source_controller.GitReconciler.Including.{reconcile_include}
use source_controller.GitReconciler.Included
use source_controller.GitReconciler.Included.{IsIncluded, IsNotIncluded}
use source_controller.GitReconciler.Archiving.{reconcile_artifact}
use source_controller.GitReconciler.Archived
use source_controller.GitReconciler.Recorded.{IsReconciled, Unrecorded, artifact_of}
use source_controller.GitReconciler.Deleted
use source_controller.GitReconciler.Deleted.{dir_of}

-- The artifact of the status is not in the storage.
reconcile_storage-IsStored_example :
    (result_success ≡ result_success)
    × IsStored base
        (reconcile_storage base state).0.obj.status.artifact
        (reconcile_storage base state).0.files
unfolding String-discrete base reconcile_storage collect_object collect_current garbage_collect
    answer after_collect check_current check_artifact artifact_exist local_path disk_api
    record_artifact after_patch source_controller.Garbage.get_garbage_files
    source_controller.Common.Int.◌-ℤ◌
reconcile_storage-IsStored_example =
    Stored.reconcile_storage-IsStored base state (reconcile_storage base state).0 result_success
      refl

reconcile_delete-contains_finalizer_example :
    (result_empty ≡ result_empty)
    × ((dir_of base deleted_state).2 ≡ none)
    × ((reconcile_delete base deleted_state).0.obj.status.artifact ≡ none)
    × (contains_finalizer base (reconcile_delete base deleted_state).0.obj.metadata.finalizers
        ≡ false)
unfolding base reconcile_delete collect_object remove_artifacts after_remove_dir
    after_collect_object String-discrete
reconcile_delete-contains_finalizer_example =
    Deleted.reconcile_delete-contains_finalizer base deleted_state
      (reconcile_delete base deleted_state).0 result_empty refl refl

-- The key rings of the example's secrets.
abbrev rings : String → String → List Listed → Fallible (List String)
rings = Sourcing.get_key_rings base auth git

verify_signature-IsSettled_example :
    Outcome
      (Unverified base rings)
      (IsSettled base rings verified_state.obj.spec.verification signed_commit verified_state)
      (verify_signature base rings signed_commit verified_state)
verify_signature-IsSettled_example =
    Verified.verify_signature-IsSettled base rings signed_commit verified_state

reconcile_source-IsAccepted_example :
    Outcome
      (IsFailed base auth git)
      (IsAccepted base auth git verified_state)
      (reconcile_source base auth git "work" verified_state)
reconcile_source-IsAccepted_example =
    Sourced.reconcile_source-IsAccepted base auth git "work" verified_state

-- One include, of an artifact that is in the storage.
abbrev including : State Listed Disk (List Listed)
including = record state {
  obj = record object {
    spec = record spec {
      include = record { git_repository_ref = "other"; from_path = "deploy"; to_path = "" } ∷ [];
    };
  };
  includes = stored ∷ [];
  files = λ p. some true;
}

reconcile_include-IsIncluded_example :
    Outcome
      (IsNotIncluded base copier including)
      (IsIncluded base copier including "work")
      (reconcile_include base copier "work" including)
reconcile_include-IsIncluded_example =
    Included.reconcile_include-IsIncluded base copier including "work"

abbrev built : State Listed Disk (List Listed)
built = record state { commit = signed_commit }

reconcile_artifact-IsReconciled_example :
    Outcome
      (Unrecorded base os built (artifact_of base os built))
      (IsReconciled base os built (artifact_of base os built))
      (reconcile_artifact base os "work" built)
reconcile_artifact-IsReconciled_example =
    Archived.reconcile_artifact-IsReconciled base os (λ p disk d h. refl) (λ l p disk. refl) "work"
      built
