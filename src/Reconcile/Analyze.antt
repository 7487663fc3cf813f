-- ===== src/Reconcile/Analyze.antt =====
-- The `switch` of `ComputeReconcileResult`, internal/reconcile/reconcile.go, on the conditions.
use source_controller.Common.{
  String, ◌≡◌, refl, ◌∙◌, ◌≢◌, Option, none, some, arith, if◌then◌else◌, str_ne,
}
use source_controller.Errors.{Err, stalling, generic, error}
use source_controller.Conditions.{
  ConditionsApi, Condition, status_true, reconciling_condition, stalled_condition,
}
use source_controller.Reconcile.{Result, result_empty, RuntimeResult, analyze}
use source_controller.Reconcile.Outcome.{stalled_after}

pub reconciling_ne : reconciling_condition ≢ stalled_condition
reconciling_ne = str_ne reconciling_condition stalled_condition refl

stalled_ne : stalled_condition ≢ reconciling_condition
stalled_ne = str_ne stalled_condition reconciling_condition refl

module _ {Obj : Type 0} (api : ConditionsApi Obj) where
  abbrev stalled_by : String → Err → Condition
  stalled_by reason err = record {
    type = stalled_condition;
    status = status_true;
    reason = reason;
    message = error err;
  }

  mark_stalled-set :
      (o : Obj) (reason : String) (err : Err)
      → api.mark_stalled o reason (error err)
        ≡ api.set (api.delete o reconciling_condition) (stalled_by reason err)
  mark_stalled-set o reason err =
      api.mark_stalled_lem o reason (error err)
      ∙ api.mark_true_lem (api.delete o reconciling_condition) stalled_condition reason (error err)

  pub get-mark_stalled :
      (o : Obj) (reason : String) (err : Err)
      → (api.get (api.mark_stalled o reason (error err)) stalled_condition
          ≡ some (stalled_by reason err))
        × (api.get (api.mark_stalled o reason (error err)) reconciling_condition ≡ none)
  get-mark_stalled o reason err = rw (mark_stalled-set o reason err) (
    api.get-set_self _ _,
    api.get-set_ne _ (stalled_by reason err) reconciling_condition stalled_ne
        ∙ api.get-delete_self o reconciling_condition,
  )

  pub get-analyze_stalled :
      (res : Result) (rec_err : Option Err) (r : RuntimeResult) (o : Obj)
      → api.get (analyze api res rec_err r o).0 stalled_condition
        ≡ stalled_after res rec_err (api.get o stalled_condition)
  unfolding analyze
  get-analyze_stalled result_empty (some (stalling reason err config)) r o =
      (get-mark_stalled o reason err).0
  get-analyze_stalled res rec_err r o = ground (
    arith,
    api.get-delete_self o stalled_condition,
    api.get-delete_ne (api.delete o stalled_condition) reconciling_condition stalled_condition
        reconciling_ne,
  )

  -- The Reconciling condition is removed with a stalled state and with an ignored error.
  abbrev pub analyzed : Result → Option Err → Option Condition → Option Condition
  analyzed result_empty (some (stalling reason err config)) before = none
  analyzed res (some (generic reason err config)) before = if config.ignore then none else before
  analyzed res rec_err before = before

  pub get-analyze_reconciling :
      (res : Result) (rec_err : Option Err) (r : RuntimeResult) (o : Obj)
      → api.get (analyze api res rec_err r o).0 reconciling_condition
        ≡ analyzed res rec_err (api.get o reconciling_condition)
  unfolding analyze
  get-analyze_reconciling result_empty (some (stalling reason err config)) r o =
      (get-mark_stalled o reason err).1
  get-analyze_reconciling res rec_err r o = ground (
    arith,
    api.get-delete_self (api.delete o stalled_condition) reconciling_condition,
    api.get-delete_ne o stalled_condition reconciling_condition stalled_ne,
  )
