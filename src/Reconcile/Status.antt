-- ===== src/Reconcile/Status.antt =====
-- What `ComputeReconcileResult` of internal/reconcile/reconcile.go leaves in the object's status.
use source_controller.Common.{
  String, ◌≡◌, sym, ◌∙◌, Option, none, some, [], ◌∷◌, arith, String-discrete,
}
use source_controller.Errors.{Err, stalling, generic}
use source_controller.Conditions.{
  ConditionsApi, Condition, reconciling_condition, stalled_condition,
}
use source_controller.Reconcile.{
  Result, result_empty, result_success, RuntimeResult, RuntimeResultBuilder,
  with_status_observed_generation, analyze, add_patch_option_with_status_observed_generation,
  compute_reconcile_result, runtime_result,
}
use source_controller.Reconcile.Outcome.{
  stalled_after, reconciling_after, Settles, corrected, corrected_ne, corrected_self,
}
use source_controller.Reconcile.Analyze.{
  get-analyze_stalled, get-analyze_reconciling, reconciling_ne,
}

module _ {Obj : Type 0} (api : ConditionsApi Obj) where
  get-delete_some :
      (o : Obj) (q t : String) (c : Condition)
      → api.get (api.delete o q) t ≡ some c
      → api.get o t ≡ some c
  get-delete_some o q t c h = elim (String-discrete q t) [
    | yes p ↦ absurd (cc (rw p at (api.get-delete_self o q)))
    | no p ↦ sym (api.get-delete_ne o q t p) ∙ h
  ]

  add_patch_option_lem :
      (o : Obj) (t : String) (c : Condition)
      → api.get o t ≡ some c
      → add_patch_option_with_status_observed_generation api o []
        ≡ with_status_observed_generation ∷ []
  unfolding add_patch_option_with_status_observed_generation
  add_patch_option_lem o t c h = ground (arith, api.get_conditions-get o t c h)

  analyze_options :
      (res : Result) (rec_err : Option Err) (r : RuntimeResult) (o : Obj) (t : String)
      (c : Condition)
      → Settles res rec_err
      → api.get (analyze api res rec_err r o).0 t ≡ some c
      → (analyze api res rec_err r o).1 ≡ with_status_observed_generation ∷ []
  unfolding analyze
  analyze_options result_empty (some (stalling reason err config)) r o t c s h =
      add_patch_option_lem _ t c h
  analyze_options result_empty none r o t c s h =
      add_patch_option_lem o t c (get-delete_some o stalled_condition t c h)
  analyze_options result_success none r o t c s h =
      add_patch_option_lem o t c (get-delete_some o stalled_condition t c h)
  analyze_options res (some (generic reason err config)) r o t c s h = rw s (
      add_patch_option_lem _ t c
        (get-delete_some (api.delete o stalled_condition) reconciling_condition t c (ground arith)))
  analyze_options res rec_err r o t c s h = ground arith

  add_patch_option-none :
      (o : Obj)
      → ((t : String) → api.get o t ≡ none)
      → add_patch_option_with_status_observed_generation api o [] ≡ []
  unfolding add_patch_option_with_status_observed_generation
  add_patch_option-none o h = ground (arith, api.get_conditions-none o h)

  get-delete_none :
      (o : Obj) (q t : String) → api.get o t ≡ none → api.get (api.delete o q) t ≡ none
  get-delete_none o q t h = elim (String-discrete q t) [
    | yes p ↦ rw (← p) (api.get-delete_self o q)
    | no p ↦ api.get-delete_ne o q t p ∙ h
  ]

  analyze_options-none :
      (res : Result) (rec_err : Option Err) (r : RuntimeResult) (o : Obj)
      → ((t : String) → api.get o t ≡ none)
      → ((t : String) → api.get (analyze api res rec_err r o).0 t ≡ none)
      → (analyze api res rec_err r o).1 ≡ []
  unfolding analyze
  analyze_options-none result_empty (some (stalling reason err config)) r o b a =
      add_patch_option-none _ a
  analyze_options-none result_empty none r o b a = add_patch_option-none o b
  analyze_options-none result_success none r o b a = add_patch_option-none o b
  analyze_options-none res (some (generic reason err config)) r o b a = ground (
    arith,
    add_patch_option-none (api.delete o stalled_condition)
        (λ t. get-delete_none o stalled_condition t (b t)),
  )
  analyze_options-none res rec_err r o b a = ground arith

  corrected-none :
      (obj : Obj) (res : Result) (rec_err : Option Err)
      → ((t : String) → api.get obj t ≡ none)
      → (t : String) → api.get (corrected api obj res rec_err) t ≡ none
  corrected-none obj res rec_err h t = elim (String-discrete t reconciling_condition) [
    | yes p ↦ rw p (corrected_self api obj res rec_err ∙ ground (arith, h reconciling_condition))
    | no p ↦ corrected_ne api obj res rec_err t (λ e. p (sym e)) ∙ h t
  ]

  analyze_options_unsettled :
      (res : Result) (rec_err : Option Err) (r : RuntimeResult) (o : Obj)
      → ¬ Settles res rec_err
      → (analyze api res rec_err r o).1 ≡ []
  unfolding analyze
  analyze_options_unsettled res rec_err r o s = ground arith

  module _ (obj : Obj) (res : Result) (rec_err : Option Err)
      (rb : Option RuntimeResultBuilder) where
    -- Afterwards the object is stalled by this very error if the error is a stalling one with an
    -- empty result, and is not stalled otherwise. Only a stalling error with another result leaves
    -- the condition as it was.
    pub compute_reconcile_result-stalled :
        api.get (compute_reconcile_result api obj res rec_err rb).0 stalled_condition
        ≡ stalled_after res rec_err (api.get obj stalled_condition)
    unfolding compute_reconcile_result
    compute_reconcile_result-stalled =
        rw (← corrected_ne api obj res rec_err stalled_condition reconciling_ne) (
          get-analyze_stalled api res rec_err (runtime_result rb res rec_err)
            (corrected api obj res rec_err))

    -- A success, a stalled state and an ignored error remove the Reconciling condition; in every
    -- other case the condition stays, with the reason of a retry if it is true.
    pub compute_reconcile_result-reconciling :
        api.get (compute_reconcile_result api obj res rec_err rb).0 reconciling_condition
        ≡ reconciling_after res rec_err (api.get obj reconciling_condition)
    unfolding compute_reconcile_result
    compute_reconcile_result-reconciling =
        get-analyze_reconciling api res rec_err (runtime_result rb res rec_err)
          (corrected api obj res rec_err)
        ∙ ground (arith, corrected_self api obj res rec_err)

    -- The observed generation is recorded only when the generation has been reconciled. It is
    -- recorded then if the object has a condition afterwards, and it is not recorded then if the
    -- object has no condition before and none afterwards. No other patch option is returned in these
    -- cases.
    pub compute_reconcile_result-Settles :
        let out = compute_reconcile_result api obj res rec_err rb in
        ((¬ Settles res rec_err) → out.1 ≡ [])
        × ((t : String) (c : Condition)
            → Settles res rec_err
            → api.get out.0 t ≡ some c
            → out.1 ≡ with_status_observed_generation ∷ [])
        × (((t : String) → api.get obj t ≡ none)
            → ((t : String) → api.get out.0 t ≡ none)
            → out.1 ≡ [])
    unfolding compute_reconcile_result
    compute_reconcile_result-Settles = (
      analyze_options_unsettled res rec_err _ _,
      (λ t c s h. analyze_options res rec_err _ _ t c s h),
      λ b a.
          analyze_options-none res rec_err _ (corrected api obj res rec_err)
            (corrected-none obj res rec_err b) a,
    )
