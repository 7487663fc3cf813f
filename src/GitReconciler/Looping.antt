-- ===== src/GitReconciler/Looping.antt =====
-- `reconcile` and `notify` of internal/controller/gitrepository_controller.go, and `TempDirForObj` of
-- internal/util/temp.go. The sub-reconcilers are a list that the functions take.
use Prim.Native.String as Text
use source_controller.Common.{
  ◌==◌, String, false, not, Option, none, some, List, [], ◌∷◌, ◌++◌, decide, String-discrete,
  if◌then◌else◌,
}
use source_controller.Errors.{Err, error, Fallible, ok, fail, new_generic, event_type_normal}
use source_controller.Reconcile.{
  Result, result_empty, result_requeue, result_success, lowest_requeuing_result, failure_recovery,
}
use source_controller.Storage.{Artifact, has_digest}
use source_controller.Git.{should_notify}
use source_controller.Flow.{returned}
use source_controller.GitReconciler.{
  dir_creation_failed_reason, BaseApi, State, GitObject, commit_reference, Commit, ObjectMeta, wrap,
  mark_true, delete_condition, progress, send, source_finalizer, storage_operation_failed_condition,
  fetch_failed_condition, include_unavailable_condition, patch_operation_failed_reason,
  succeeded_reason,
}
use source_controller.GitReconciler.Storing.{reconcile_delete, contains_finalizer}

abbrev pub git_repository_fail_conditions : List String
git_repository_fail_conditions =
    fetch_failed_condition ∷ include_unavailable_condition ∷ storage_operation_failed_condition ∷ []

-- How the loop over the sub-reconcilers ends: at a request for a requeue, or with a result.
pub data LoopEnd : Type 0 where
  requeued : LoopEnd
  ended : Result → Option Err → LoopEnd

abbrev pub SubReconciler : Type 0 → Type 0
SubReconciler S = S → S × Result × Option Err

module _ {S : Type 0} where
  -- What follows on the results of a sub-reconciler.
  unfoldable pub after_sub :
      (Result → S → S × LoopEnd) → Result → S × Result × Option Err → S × LoopEnd
  after_sub next res (s, result_requeue, err) = (s, requeued)
  after_sub next res (s, result_empty, some e) = (s, ended result_empty (some e))
  after_sub next res (s, result_success, some e) = (s, ended result_success (some e))
  after_sub next res (s, result_empty, none) = next (lowest_requeuing_result res result_empty) s
  after_sub next res (s, result_success, none) = next (lowest_requeuing_result res result_success) s

  unfoldable pub run_sub_reconcilers : List (SubReconciler S) → Result → S → S × LoopEnd
  unfolding after_sub
  run_sub_reconcilers [] res s = (s, ended res none)
  run_sub_reconcilers (rec ∷ recs) res s = after_sub (run_sub_reconcilers recs) res (rec s)

module _ {Conds FS Data Reader Cluster : Type 0} (api : BaseApi Conds FS Data Reader Cluster)
    -- os.MkdirTemp
    (mkdir_temp : String → String → FS → FS × Fallible String) where
  abbrev S : Type 0
  S = State Conds FS Cluster

  abbrev patched : S → S × Option Err
  patched s =
      let (cluster, err) = api.patch s.obj s.cluster in (record s { cluster = cluster }, err)

  abbrev value_or_empty : Option String → String
  value_or_empty none = ""
  value_or_empty (some v) = v

  unfoldable pub pattern : ObjectMeta → String
  pattern obj =
      Text.◌++◌ (api.naming.to_lower obj.kind)
        (Text.◌++◌ "-" (Text.◌++◌ obj.namespace (Text.◌++◌ "-" (Text.◌++◌ obj.name "-"))))

  unfoldable pub temp_dir_for_obj : String → ObjectMeta → FS → FS × Fallible String
  unfolding pattern
  temp_dir_for_obj dir obj fs = mkdir_temp dir (pattern obj) fs

  -- Persists that the object reconciles, if its generation differs or it is asked for.
  unfoldable pub persist_reconciling : S → S × Option Err
  persist_reconciling s =
      if not (s.obj.metadata.generation == s.obj.status.observed_generation)
      then patched (progress api false "processing object: new generation" s).0
      else if not (
          decide (
            String-discrete (value_or_empty s.obj.metadata.reconcile_annotation)
              s.obj.status.last_handled_reconcile_at))
      then patched s
      else (s, none)

  unfoldable pub stored_message : GitObject Conds → Commit → String
  unfolding commit_reference
  stored_message obj commit = Text.◌++◌ "stored artifact for commit '" (
      Text.◌++◌ (if commit.is_concrete then commit.short_message else commit_reference obj commit)
        "'")

  -- One event at most, given that there is to be one. The annotations of the event are the revision
  -- and the digest of the artifact.
  unfoldable pub notify_stored : GitObject Conds → Option Artifact → S → S
  unfolding stored_message
  notify_stored old_obj none s = s
  notify_stored old_obj (some artifact) s =
      let message = stored_message s.obj s.commit in
      if not (has_digest old_obj.status.artifact artifact.digest)
      then (send api event_type_normal "NewArtifact" message s).0
      else if failure_recovery api.conds old_obj.conditions s.obj.conditions
          git_repository_fail_conditions
      then (send api event_type_normal succeeded_reason message s).0
      else s

  unfoldable pub notify : GitObject Conds → Result → Option Err → S → S
  unfolding notify_stored
  notify old_obj res err s =
      if should_notify s.obj.status.artifact res err
      then notify_stored old_obj s.obj.status.artifact s
      else s

  abbrev pub remove_all : String → S → S
  remove_all dir s = record s { files = (api.removal.remove_all dir s.files).0 }

  -- The end of the loop, and the removal of the temporary directory.
  unfoldable pub after_loop : GitObject Conds → String → S × LoopEnd → S × Result × Option Err
  unfolding notify
  after_loop old_obj dir (s, requeued) = (remove_all dir s, result_requeue, none)
  after_loop old_obj dir (s, ended res err) = (remove_all dir (notify old_obj res err s), res, err)

  abbrev pub Reconciler : Type 0
  Reconciler = String → SubReconciler S

  unfoldable pub in_dir : String → List Reconciler → List (SubReconciler S)
  in_dir dir [] = []
  in_dir dir (rec ∷ recs) = rec dir ∷ in_dir dir recs

  unfoldable pub with_temp_dir :
      List Reconciler → GitObject Conds → S → FS × Fallible String → S × Result × Option Err
  unfolding after_loop run_sub_reconcilers in_dir
  with_temp_dir reconcilers old_obj s (fs, fail err) =
      let e =
        new_generic (wrap "failed to create temporary working directory" err)
          dir_creation_failed_reason in
      (
        (mark_true api storage_operation_failed_condition dir_creation_failed_reason (error e)
            (record s { files = fs })).0,
        result_empty,
        some e,
      )
  with_temp_dir reconcilers old_obj s (fs, ok tmp_dir) = after_loop old_obj tmp_dir (
      run_sub_reconcilers (in_dir tmp_dir reconcilers) result_empty
        (delete_condition api storage_operation_failed_condition
          (record s { files = fs; commit = api.zero_commit; includes = [] })).0)

  unfoldable pub after_persist :
      List Reconciler → GitObject Conds → S × Option Err → S × Result × Option Err
  unfolding with_temp_dir temp_dir_for_obj
  after_persist reconcilers old_obj (s, some e) =
      (s, result_empty, some (new_generic e patch_operation_failed_reason))
  after_persist reconcilers old_obj (s, none) =
      with_temp_dir reconcilers old_obj s (temp_dir_for_obj "" s.obj.metadata s.files)

  unfoldable pub reconcile : List Reconciler → S → S × Result × Option Err
  unfolding after_persist persist_reconciling
  reconcile reconcilers s =
      after_persist reconcilers s.obj
        (persist_reconciling (progress api false "reconciliation in progress" s).0)

  abbrev pub add_finalizer : S → S
  add_finalizer s = record s {
    obj = record s.obj {
      metadata = record s.obj.metadata {
        finalizers = s.obj.metadata.finalizers ++ source_finalizer ∷ [];
      };
    };
  }

  -- `Reconcile` from the object that it fetches up to the deferred patch.
  unfoldable pub reconcile_object : List Reconciler → S → S × Result × Option Err
  unfolding reconcile contains_finalizer
  reconcile_object reconcilers s =
      if not s.obj.metadata.deletion_timestamp_is_zero
      then returned (reconcile_delete api s)
      else if not (contains_finalizer api s.obj.metadata.finalizers)
      then (add_finalizer s, result_requeue, none)
      else if s.obj.spec.suspend
      then (s, result_empty, none)
      else reconcile reconcilers s
