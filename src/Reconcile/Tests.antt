-- ===== src/Reconcile/Tests.antt =====
-- The theorems about internal/reconcile/reconcile.go at concrete objects and errors.
use source_controller.Common.{
  String, ◌≡◌, refl, ◌↔◌, ◌⊎◌, true, false, Option, none, some, [], ◌∷◌, arith, String-discrete,
}
use source_controller.Common.Int.{pos, ◌≤ℤ◌}
use source_controller.Errors.{Err, plain, stalling, waiting, generic, Config, error}
use source_controller.Conditions.{Condition, status_true, reconciling_condition, stalled_condition}
use source_controller.Conditions.Example.{Listed, api}
use source_controller.Reconcile.{
  result_empty, result_requeue, result_success, with_status_observed_generation,
  always_requeue_result_builder, compute_reconcile_result, runtime_result, build_runtime_result,
  is_success,
}
use source_controller.Reconcile.Results
use source_controller.Reconcile.Results.{weight}
use source_controller.Reconcile.Outcome
use source_controller.Reconcile.Outcome.{IsHandled, Settles, stalled_after, reconciling_after}
use source_controller.Reconcile.Status

abbrev config : Config
config = record { event = "Warning"; log = true; notification = true; ignore = false }

abbrev progressing : Listed
progressing =
    record { type = "Reconciling"; status = status_true; reason = "Progressing"; message = "" } ∷ []

abbrev bad_url : Option Err
bad_url = some (stalling "URLInvalid" (plain "bad url") config)

stalled_object :
    compute_reconcile_result api progressing result_empty bad_url
      (some (always_requeue_result_builder (pos 60)))
    ≡ (
      record { type = "Stalled"; status = status_true; reason = "URLInvalid"; message = "bad url" }
          ∷ [],
      with_status_observed_generation ∷ [],
      record { requeue = false; requeue_after = pos 0 },
      none,
    )
unfolding compute_reconcile_result api error always_requeue_result_builder build_runtime_result
    String-discrete
stalled_object = refl

is_success-build_runtime_result_example :
    (is_success (pos 60) (build_runtime_result (pos 60) result_requeue none) ≡ true)
    ↔ (result_requeue ≡ result_success)
is_success-build_runtime_result_example =
    Results.is_success-build_runtime_result (pos 60) result_requeue (λ e. ground arith)

build_runtime_result_retries_example :
    (let r =
        build_runtime_result
          (pos 60)
          result_empty
          (some (waiting (pos 0) "Wait" (plain "later") config)) in
      (r.requeue ≡ false) × (pos 1 ≤ℤ r.requeue_after))
    × (config.ignore ≡ true
        → let r =
            build_runtime_result
              (pos 60)
              result_empty
              (some (generic "Wait" (plain "later") config)) in
          (r.requeue ≡ false) × (is_success (pos 60) r ≡ true) × (pos 1 ≤ℤ r.requeue_after))
build_runtime_result_retries_example =
    Results.build_runtime_result_retries (pos 60) result_empty (pos 0) "Wait" (plain "later") config
      (omega arith) (omega arith)

compute_reconcile_result-IsHandled_example :
    let out = compute_reconcile_result api progressing result_empty bad_url none in
    ((out.3 ≡ none) ↔ IsHandled result_empty bad_url)
    × ((out.3 ≡ none) ⊎ (out.3 ≡ bad_url))
    × (out.2 ≡ runtime_result none result_empty bad_url)
compute_reconcile_result-IsHandled_example =
    Outcome.compute_reconcile_result-IsHandled api progressing result_empty bad_url none

compute_reconcile_result-stalled_example :
    api.get (compute_reconcile_result api progressing result_empty bad_url none).0 stalled_condition
    ≡ stalled_after result_empty bad_url (api.get progressing stalled_condition)
compute_reconcile_result-stalled_example =
    Status.compute_reconcile_result-stalled api progressing result_empty bad_url none

compute_reconcile_result-reconciling_example :
    api.get
      (compute_reconcile_result api progressing result_empty none none).0
      reconciling_condition
    ≡ reconciling_after result_empty none (api.get progressing reconciling_condition)
compute_reconcile_result-reconciling_example =
    Status.compute_reconcile_result-reconciling api progressing result_empty none none

compute_reconcile_result-Settles_example :
    let out = compute_reconcile_result api progressing result_success none none in
    ((¬ Settles result_success none) → out.1 ≡ [])
    × ((t : String) (c : Condition)
        → Settles result_success none
        → api.get out.0 t ≡ some c
        → out.1 ≡ with_status_observed_generation ∷ [])
    × (((t : String) → api.get progressing t ≡ none)
        → ((t : String) → api.get out.0 t ≡ none)
        → out.1 ≡ [])
compute_reconcile_result-Settles_example =
    Status.compute_reconcile_result-Settles api progressing result_success none none
