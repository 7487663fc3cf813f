-- ===== src/Summarize/Tests.antt =====
-- The theorems about internal/reconcile/summarize/summary.go at an object that is its conditions.
use source_controller.Common.{
  ◌≡◌, refl, true, false, Option, none, some, List, [], ◌∷◌, arith, ◌⊎◌, String-discrete,
}
use source_controller.Common.Int.{pos}
use source_controller.Errors.{Err, plain}
use source_controller.Conditions.{
  Condition, status_true, status_false, has_status, ready_condition, stalled_condition,
}
use source_controller.Conditions.Example.{Listed, api}
use source_controller.Reconcile.{
  result_success, RuntimeResultBuilder, always_requeue_result_builder, is_success,
  compute_reconcile_result, build_runtime_result,
}
use source_controller.Reconcile.Outcome.{IsHandled}
use source_controller.Summarize.{
  SummaryApi, HelperOption, summarize_and_patch, apply_options, no_options, with_result_builder,
  with_reconcile_result,
}
use source_controller.Summarize.Ready

abbrev first_error : List (Option Err) → Option Err
first_error [] = none
first_error (none ∷ es) = first_error es
first_error (some e ∷ es) = some e

left_none : (a b : Option Err) → first_error (a ∷ b ∷ []) ≡ none → a ≡ none
left_none none b h = refl
left_none (some a) b h = h

right_none : (a b : Option Err) → first_error (a ∷ b ∷ []) ≡ none → b ≡ none
right_none none none h = refl
right_none none (some b) h = h
right_none (some a) b h = ground arith

-- The summary of an object with no failure: it is ready. The patch succeeds.
abbrev summary : SummaryApi Listed
summary = record {
  set_summary = λ o t s n. api.mark_true o t "Succeeded" "";
  patch = λ o opts. (o, none);
  deletion_timestamp_is_zero = λ o. true;
  filter_out_not_found = λ e. some e;
  new_aggregate = first_error;
  new_aggregate_none = left_none;
  new_aggregate_none' = right_none;
  new_aggregate_nil = refl;
}

abbrev rb : RuntimeResultBuilder
rb = always_requeue_result_builder (pos 60)

abbrev ready_object : Listed
ready_object =
    record { type = "Ready"; status = status_true; reason = "Succeeded"; message = "" } ∷ []

abbrev options : List (HelperOption Listed)
options = with_result_builder rb ∷ with_reconcile_result result_success ∷ []

program : Unit {0}
unfolding summarize_and_patch api with_result_builder with_reconcile_result String-discrete
    always_requeue_result_builder build_runtime_result is_success compute_reconcile_result
program = tt

ready_succeeds : (summarize_and_patch api summary options ready_object).err ≡ none
unfolding program
ready_succeeds = refl

-- A success of an object that is not ready is retried as an error.
not_ready_fails : (summarize_and_patch api summary options []).err ≡ some (plain "")
unfolding program
not_ready_fails = refl

summarize_and_patch-ready_example :
    (has_status status_true
        (api.get (summarize_and_patch api summary options ready_object).object ready_condition)
      ≡ true)
    ⊎ (has_status status_true
          (api.get (summarize_and_patch api summary options ready_object).object stalled_condition)
        ≡ true)
unfolding program
summarize_and_patch-ready_example =
    Ready.summarize_and_patch-ready api summary options ready_object rb refl refl refl

summarize_and_patch-IsHandled_example :
    IsHandled
      (apply_options no_options options).reconcile_result
      (apply_options no_options options).reconcile_error
    × (((summary.patch
            (summarize_and_patch api summary options ready_object).object
            (summarize_and_patch api summary options ready_object).patch_options).1
          ≡ none)
        ⊎ (((apply_options no_options options).ignore_not_found ≡ true)
            × (summary.deletion_timestamp_is_zero
                  (summarize_and_patch api summary options ready_object).patched
                ≡ false)
            × ((x : Err)
                → (summary.patch
                    (summarize_and_patch api summary options ready_object).object
                    (summarize_and_patch api summary options ready_object).patch_options).1
                  ≡ some x
                → summary.filter_out_not_found x ≡ none)))
unfolding program
summarize_and_patch-IsHandled_example =
    Ready.summarize_and_patch-IsHandled api summary options ready_object rb refl refl

abbrev unverified : Condition
unverified = record {
  type = "SourceVerified";
  status = status_false;
  reason = "Bad";
  message = "no key";
}
