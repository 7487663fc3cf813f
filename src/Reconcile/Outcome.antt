-- ===== src/Reconcile/Outcome.antt =====
-- What `ComputeReconcileResult` of internal/reconcile/reconcile.go leaves on the object, and what
-- it returns, on every branch.
use source_controller.Common.{
  String, ◌≡◌, refl, sym, ◌∙◌, ◌≢◌, ◌↔◌, true, ◌⊎◌, inl, inr, Option, none, some, arith,
  if◌then◌else◌, Option-cases,
}
use source_controller.Errors.{Err, plain, stalling, waiting, generic, error}
use source_controller.Conditions.{
  ConditionsApi, Condition, status_true, has_status, reconciling_condition, stalled_condition,
  progressing_with_retry_reason,
}
use source_controller.Reconcile.{
  Result, result_empty, result_requeue, result_success, RuntimeResultBuilder, runtime_result,
  compute_reconcile_result, retry_reconciling, remove_reconciling,
}

-- The errors that are dealt with here: a stalled state, a wait, or an error to be ignored.
abbrev pub IsHandled : Result → Option Err → Type 0
IsHandled res none = Unit
IsHandled result_empty (some (stalling reason err config)) = Unit
IsHandled res (some (stalling reason err config)) = ⊥
IsHandled res (some (waiting requeue_after reason err config)) = Unit
IsHandled res (some (generic reason err config)) = config.ignore ≡ true
IsHandled res (some (plain message)) = ⊥

-- The Stalled condition afterwards, from the one before.
abbrev pub stalled_after : Result → Option Err → Option Condition → Option Condition
stalled_after result_empty (some (stalling reason err config)) before = some (record {
  type = stalled_condition;
  status = status_true;
  reason = reason;
  message = error err;
})
stalled_after res (some (stalling reason err config)) before = before
stalled_after res rec_err before = none

-- A Reconciling condition that is true gets the reason of a retry.
abbrev pub retried : Option Condition → Option Condition
retried none = none
retried (some c) =
    if has_status status_true (some c)
    then some (record c { reason = progressing_with_retry_reason })
    else some c

-- The Reconciling condition afterwards, from the one before.
abbrev pub reconciling_after : Result → Option Err → Option Condition → Option Condition
reconciling_after result_success none before = none
reconciling_after res none before = retried before
reconciling_after result_empty (some (stalling reason err config)) before = none
reconciling_after res (some (stalling reason err config)) before = retried before
reconciling_after res (some (waiting requeue_after reason err config)) before = retried before
reconciling_after res (some (generic reason err config)) before =
    if config.ignore then none else retried before
reconciling_after res (some (plain message)) before = retried before

-- The generation has been reconciled: no error and no requeue, a stalled state, or a no-op.
abbrev pub Settles : Result → Option Err → Type 0
Settles result_requeue none = ⊥
Settles res none = Unit
Settles result_empty (some (stalling reason err config)) = Unit
Settles res (some (stalling reason err config)) = ⊥
Settles res (some (waiting requeue_after reason err config)) = ⊥
Settles res (some (generic reason err config)) = config.ignore ≡ true
Settles res (some (plain message)) = ⊥

module _ {Obj : Type 0} (api : ConditionsApi Obj) (obj : Obj) (res : Result) (rec_err : Option Err)
    (rb : Option RuntimeResultBuilder) where
  -- The errors that are dealt with are not returned to the runtime, and every other error is
  -- returned as it is; the runtime result is that of the builder.
  pub compute_reconcile_result-IsHandled :
      let out = compute_reconcile_result api obj res rec_err rb in
      ((out.3 ≡ none) ↔ IsHandled res rec_err)
      × ((out.3 ≡ none) ⊎ (out.3 ≡ rec_err))
      × (out.2 ≡ runtime_result rb res rec_err)
  unfolding compute_reconcile_result
  compute_reconcile_result-IsHandled = ground arith

module _ {Obj : Type 0} (api : ConditionsApi Obj) where
  abbrev retry : Condition → Condition
  retry c = record c { reason = progressing_with_retry_reason }

  get-retry_ne :
      (t : String) (obj : Obj)
      → reconciling_condition ≢ t
      → api.get (retry_reconciling api obj) t ≡ api.get obj t
  unfolding retry_reconciling
  get-retry_ne t obj h = elim (Option-cases (api.get obj reconciling_condition)) [
    | inl e ↦ rw (e, retry_reconciling) refl
    | inr (c, e) ↦
        let other = λ (p : c.type ≡ t). h (sym (api.get_type obj reconciling_condition c e) ∙ p) in
        ground (arith, api.get-set_ne obj (retry c) t other)
  ]

  get-retry_self :
      (obj : Obj)
      → api.get (retry_reconciling api obj) reconciling_condition
        ≡ retried (api.get obj reconciling_condition)
  unfolding retry_reconciling
  get-retry_self obj = elim (Option-cases (api.get obj reconciling_condition)) [
    | inl e ↦ rw (e, retry_reconciling) (rw e)
    | inr (c, e) ↦
        let same : c.type ≡ reconciling_condition = api.get_type obj reconciling_condition c e in
        ground (arith, rw same at (api.get-set_self obj (retry c)))
  ]

  module _ (obj : Obj) (res : Result) (rec_err : Option Err) where
    -- The object when the error is analysed.
    abbrev pub corrected : Obj
    corrected = retry_reconciling api (remove_reconciling api res rec_err obj)

    pub corrected_ne :
        (t : String) → reconciling_condition ≢ t → api.get corrected t ≡ api.get obj t
    unfolding remove_reconciling
    corrected_ne t h = ground (
      arith,
      get-retry_ne t obj h,
      get-retry_ne t (api.delete obj reconciling_condition) h,
      api.get-delete_ne obj reconciling_condition t h,
    )

    -- A success removes the condition before the correction of its reason.
    abbrev pub kept : Option Condition
    kept = elim rec_err [
      | some e ↦ api.get obj reconciling_condition
      | none ↦ elim res [ result_success ↦ none | _ ↦ api.get obj reconciling_condition ]
    ]

    pub corrected_self : api.get corrected reconciling_condition ≡ retried kept
    unfolding remove_reconciling
    corrected_self = ground (
      arith,
      get-retry_self obj,
      get-retry_self (api.delete obj reconciling_condition),
      api.get-delete_self obj reconciling_condition,
    )
