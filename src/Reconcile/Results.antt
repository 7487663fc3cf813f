-- ===== src/Reconcile/Results.antt =====
-- How results combine, and what the runtime makes of them: `LowestRequeuingResult`,
-- `FailureRecovery` and `AlwaysRequeueResultBuilder` of internal/reconcile/reconcile.go.
use source_controller.Common.{
  ℕ, suc, ◌≤◌, ◌<◌, String, ◌≡◌, ◌≢◌, ◌↔◌, true, false, ◌⊎◌, inl, none, some, List, [], ◌∷◌, arith,
  is_some, All, Any,
}
use source_controller.Common.Int.{ℤ, pos, ◌≤ℤ◌}
use source_controller.Errors.{Err, waiting, generic, Config}
use source_controller.Conditions.{ConditionsApi}
use source_controller.Reconcile.{
  Result, result_empty, result_requeue, result_success, lowest_requeuing_result,
  build_runtime_result, is_success, failure_recovery, failure_recovery_from,
}

-- The requeue period of a result, as a weight: at once, after the interval, never.
abbrev pub weight : Result → ℕ
weight result_requeue = 0
weight result_success = 1
weight result_empty = 2

-- The combination of two results is one of the two, and none requeues sooner.
pub lowest_requeuing_result-weight :
    (i j : Result)
    → ((lowest_requeuing_result i j ≡ i) ⊎ (lowest_requeuing_result i j ≡ j))
      × (weight (lowest_requeuing_result i j) ≤ weight i)
      × (weight (lowest_requeuing_result i j) ≤ weight j)
unfolding lowest_requeuing_result
lowest_requeuing_result-weight i j = ground arith

-- A reconciliation with no error counts as a success exactly if its result is `result_success`,
-- given that the interval is not zero.
pub is_success-build_runtime_result :
    (period : ℤ) (rr : Result)
    → period ≢ pos 0
    → (is_success period (build_runtime_result period rr none) ≡ true) ↔ (rr ≡ result_success)
unfolding is_success build_runtime_result
is_success-build_runtime_result period rr h = ground arith

-- If the interval is positive and the wait is not negative, then, whatever the result that came with
-- the error, a waiting error is retried after a positive time and not at once, and an ignored error
-- as well, with the runtime result that counts as a success for that interval.
pub build_runtime_result_retries :
    (period : ℤ) (rr : Result) (requeue_after : ℤ) (reason : String) (err : Err) (config : Config)
    → pos 1 ≤ℤ period
    → pos 0 ≤ℤ requeue_after
    → (let r = build_runtime_result period rr (some (waiting requeue_after reason err config)) in
        (r.requeue ≡ false) × (pos 1 ≤ℤ r.requeue_after))
      × (config.ignore ≡ true
          → let r = build_runtime_result period rr (some (generic reason err config)) in
            (r.requeue ≡ false) × (is_success period r ≡ true) × (pos 1 ≤ℤ r.requeue_after))
unfolding is_success build_runtime_result
build_runtime_result_retries period rr requeue_after reason err config h k = ground arith

module _ {Obj : Type 0} (api : ConditionsApi Obj) (old_obj new_obj : Obj) where
  HadFailure : String → Type 0
  HadFailure t = is_some (api.get old_obj t) ≡ true

  HasNone : String → Type 0
  HasNone t = api.get new_obj t ≡ none

  recovery_from :
      (n : ℕ) (ts : List String)
      → (failure_recovery_from api n old_obj new_obj ts ≡ true)
        ↔ (((0 < n) ⊎ Any HadFailure ts) × All HasNone ts)
  unfolding failure_recovery_from HadFailure HasNone
  recovery_from n [] = (λ h. (inl (ground arith), tt), λ h. ground arith)
  recovery_from n (t ∷ ts) = ground (arith, recovery_from n ts, recovery_from (suc n) ts)

  -- A failure recovery: the old object had one of the conditions, and the new one has none.
  pub failure_recovery-Any :
      (ts : List String)
      → (failure_recovery api old_obj new_obj ts ≡ true) ↔ (
          Any (λ t. is_some (api.get old_obj t) ≡ true) ts × All (λ t. api.get new_obj t ≡ none) ts)
  unfolding failure_recovery HadFailure HasNone
  failure_recovery-Any ts = ground (arith, recovery_from 0 ts)
