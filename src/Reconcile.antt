-- ===== src/Reconcile.antt =====
-- The result of a reconciliation, internal/reconcile/reconcile.go. A function that changes the
-- object's conditions takes the object and returns the new one beside its results.
pub mod Results
pub mod Outcome
pub mod Analyze
pub mod Status
mod Tests
use source_controller.Common.{
  ℕ, zero, suc, String, Bool, true, false, not, ◌&&◌, Option, none, some, List, [], ◌∷◌, ◌++◌, ltb,
  if◌then◌else◌, is_some,
}
use source_controller.Common.Int.{ℤ, pos, eqb_ℤ}
use source_controller.Errors.{Err, plain, stalling, waiting, generic, Config, error}
use source_controller.Conditions.{
  ConditionsApi, Condition, ConditionStatus, status_true, has_status, reconciling_condition,
  stalled_condition, progressing_with_retry_reason,
}

pub data Result : Type 0 where
  result_empty result_requeue result_success : Result

-- ctrl.Result of the controller runtime.
pub record RuntimeResult : Type 0 where
  pub requeue : Bool
  pub requeue_after : ℤ

abbrev pub no_requeue : RuntimeResult
no_requeue = record { requeue = false; requeue_after = pos 0 }

abbrev pub after : ℤ → RuntimeResult
after period = record { requeue = false; requeue_after = period }

pub record RuntimeResultBuilder : Type 0 where
  pub build_runtime_result : Result → Option Err → RuntimeResult
  pub is_success : RuntimeResult → Bool

-- The second `switch` of `BuildRuntimeResult`.
abbrev by_result : ℤ → Result → RuntimeResult
by_result period result_requeue = record { requeue = true; requeue_after = pos 0 }
by_result period result_success = after period
by_result period result_empty = no_requeue

-- `build_runtime_result period` is the method of an `AlwaysRequeueResultBuilder` whose field
-- `RequeueAfter` is `period`.
unfoldable pub build_runtime_result : ℤ → Result → Option Err → RuntimeResult
build_runtime_result period rr (some (waiting requeue_after reason err config)) =
    if eqb_ℤ requeue_after (pos 0) then after period else after requeue_after
build_runtime_result period rr (some (generic reason err config)) =
    if config.ignore then after period else by_result period rr
build_runtime_result period rr (some (stalling reason err config)) = by_result period rr
build_runtime_result period rr (some (plain message)) = by_result period rr
build_runtime_result period rr none = by_result period rr

unfoldable pub is_success : ℤ → RuntimeResult → Bool
is_success period result = eqb_ℤ result.requeue_after period

unfoldable pub always_requeue_result_builder : ℤ → RuntimeResultBuilder
always_requeue_result_builder period = record {
  build_runtime_result = build_runtime_result period;
  is_success = is_success period;
}

-- The options of a patch that the controllers use.
pub data PatchOption : Type 0 where
  with_owned_conditions : List String → PatchOption
  with_field_owner : String → PatchOption
  with_status_observed_generation : PatchOption

abbrev pub runtime_result : Option RuntimeResultBuilder → Result → Option Err → RuntimeResult
runtime_result none res rec_err = no_requeue
runtime_result (some rb) res rec_err = rb.build_runtime_result res rec_err

unfoldable pub lowest_requeuing_result : Result → Result → Result
lowest_requeuing_result result_empty j = j
lowest_requeuing_result result_requeue result_empty = result_requeue
lowest_requeuing_result result_success result_empty = result_success
lowest_requeuing_result result_requeue j = result_requeue
lowest_requeuing_result result_success result_requeue = result_requeue
lowest_requeuing_result result_success result_success = result_success

module _ {Obj : Type 0} (api : ConditionsApi Obj) where
  unfoldable pub add_patch_option_with_status_observed_generation :
      Obj → List PatchOption → List PatchOption
  add_patch_option_with_status_observed_generation obj opts = elim (api.get_conditions obj) [
    | [] ↦ opts
    | c ∷ cs ↦ opts ++ with_status_observed_generation ∷ []
  ]

  abbrev pub is_reconciling : Obj → Bool
  is_reconciling obj = has_status status_true (api.get obj reconciling_condition)

  -- The two corrections of the Reconciling condition at the head of `ComputeReconcileResult`.
  unfoldable pub remove_reconciling : Result → Option Err → Obj → Obj
  remove_reconciling result_success none obj = api.delete obj reconciling_condition
  remove_reconciling _ _ obj = obj

  unfoldable pub retry_reconciling : Obj → Obj
  retry_reconciling obj = elim (api.get obj reconciling_condition) [
    | none ↦ obj
    | some c ↦
        if has_status status_true (some c)
        then api.set obj (record c { reason = progressing_with_retry_reason })
        else obj
  ]

  -- The `switch` on the type of the error, with the result that the builder made.
  unfoldable pub analyze :
      Result
      → Option Err
      → RuntimeResult
      → Obj
      → Obj × List PatchOption × RuntimeResult × Option Err
  unfolding add_patch_option_with_status_observed_generation
  analyze result_empty (some (stalling reason err config)) result obj =
      let obj' = api.mark_stalled obj reason (error err) in
      (obj', add_patch_option_with_status_observed_generation obj' [], result, none)
  analyze res (some (stalling reason err config)) result obj =
      (obj, [], result, some (stalling reason err config))
  analyze res (some (waiting requeue_after reason err config)) result obj =
      (api.delete obj stalled_condition, [], result, none)
  analyze res (some (generic reason err config)) result obj =
      let obj' = api.delete obj stalled_condition in
      if config.ignore
      then (
        api.delete obj' reconciling_condition,
        add_patch_option_with_status_observed_generation obj' [],
        result,
        none,
      )
      else (obj', [], result, some (generic reason err config))
  analyze res (some (plain message)) result obj =
      (api.delete obj stalled_condition, [], result, some (plain message))
  analyze result_requeue none result obj = (api.delete obj stalled_condition, [], result, none)
  analyze res none result obj = (
    api.delete obj stalled_condition,
    add_patch_option_with_status_observed_generation obj [],
    result,
    none,
  )

  -- The object, the patch options, the runtime result and the runtime error.
  unfoldable pub compute_reconcile_result :
      Obj
      → Result
      → Option Err
      → Option RuntimeResultBuilder
      → Obj × List PatchOption × RuntimeResult × Option Err
  unfolding remove_reconciling retry_reconciling analyze
  compute_reconcile_result obj res rec_err rb =
      analyze res rec_err (runtime_result rb res rec_err)
        (retry_reconciling (remove_reconciling res rec_err obj))

  -- The loop of `FailureRecovery`, from a number of failures before.
  unfoldable pub failure_recovery_from : ℕ → Obj → Obj → List String → Bool
  failure_recovery_from failures_before old_obj new_obj [] = ltb 0 failures_before
  failure_recovery_from failures_before old_obj new_obj (t ∷ ts) =
      let failures = if is_some (api.get old_obj t) then suc failures_before else failures_before in
      let rest = failure_recovery_from failures old_obj new_obj ts in
      if is_some (api.get new_obj t) then false else rest

  unfoldable pub failure_recovery : Obj → Obj → List String → Bool
  unfolding failure_recovery_from
  failure_recovery old_obj new_obj fail_conditions =
      failure_recovery_from 0 old_obj new_obj fail_conditions
