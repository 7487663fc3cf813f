-- ===== src/Summarize.antt =====
-- The end of every reconciliation: internal/reconcile/summarize/summary.go and processor.go. The
-- results are processed, the status conditions are summarised, and the object is patched. The
-- summary of conditions, the patcher and the aggregation of errors are other packages': parameters.
-- What is logged and recorded as an event is a list of actions.
pub mod Ready
mod Tests
use source_controller.Common.{
  ℕ, zero, suc, String, Bool, true, false, not, ◌&&◌, Option, none, some, List, [], ◌∷◌, ◌++◌, map,
  if◌then◌else◌, decide, String-discrete, ◌≡◌, ◌≢◌,
}
use source_controller.Errors.{
  Err, plain, stalling, waiting, generic, Config, error, event_type_none, event_type_normal,
  event_type_warning, Fallible, ok, fail,
}
use source_controller.Conditions.{
  ConditionsApi, Condition, status_true, status_false, has_status, ready_condition,
  stalled_condition,
}
use source_controller.Reconcile.{
  Result, result_empty, RuntimeResult, RuntimeResultBuilder, no_requeue, PatchOption,
  with_owned_conditions, with_field_owner, compute_reconcile_result,
}

-- The struct `Conditions`.
pub record SummaryConditions : Type 0 where
  pub target : String
  pub owned : List String
  pub summarize : List String
  pub negative_polarity : List String

-- An entry of the log, or an event: its type, its reason and its message.
pub data Action : Type 0 where
  log_info : String → Action
  log_error : Err → String → Action
  eventf : String → String → String → Action

abbrev pub ResultProcessor : Type 0 → Type 0
ResultProcessor Obj = Obj → Result → Option Err → Obj × List Action

pub record HelperOptions (Obj : Type 0) : Type 0 where
  pub conditions : List SummaryConditions
  pub processors : List (ResultProcessor Obj)
  pub ignore_not_found : Bool
  pub reconcile_result : Result
  pub reconcile_error : Option Err
  pub result_builder : Option RuntimeResultBuilder
  pub patch_field_owner : String
  pub bi_polarity_condition_types : List String

-- What the summary uses of other packages, for one object: package conditions' `SetSummary`, the
-- serial patcher, the deletion timestamp of the object, and package errors of apimachinery.
pub record SummaryApi (Obj : Type 0) : Type 0 where
  pub set_summary : Obj → String → List String → List String → Obj
  pub patch : Obj → List PatchOption → Obj × Option Err
  pub deletion_timestamp_is_zero : Obj → Bool
  pub filter_out_not_found : Err → Option Err
  pub new_aggregate : List (Option Err) → Option Err
  -- An aggregate of no error at all is nil, and an aggregate of an error is not.
  pub new_aggregate_none : (a b : Option Err) → new_aggregate (a ∷ b ∷ []) ≡ none → a ≡ none
  pub new_aggregate_none' : (a b : Option Err) → new_aggregate (a ∷ b ∷ []) ≡ none → b ≡ none
  pub new_aggregate_nil : new_aggregate (none ∷ none ∷ []) ≡ none

-- What `SummarizeAndPatch` does: the object that it patches and the options of the patch, the
-- actions of the processors, the object that the patch leaves, and the two results.
pub record Summary (Obj : Type 0) : Type 0 where
  pub object : Obj
  pub patch_options : List PatchOption
  pub actions : List Action
  pub patched : Obj
  pub result : RuntimeResult
  pub err : Option Err

-- The type `Option` of the source: a change of the options.
abbrev pub HelperOption : Type 0 → Type 0
HelperOption Obj = HelperOptions Obj → HelperOptions Obj

unfoldable pub owned_conditions : List SummaryConditions → List String
owned_conditions [] = []
owned_conditions (c ∷ cs) = c.owned ++ owned_conditions cs

module _ {Obj : Type 0} where
  unfoldable pub with_conditions : List SummaryConditions → HelperOption Obj
  with_conditions condns s = record s { conditions = s.conditions ++ condns }

  unfoldable pub with_processors : List (ResultProcessor Obj) → HelperOption Obj
  with_processors rps s = record s { processors = s.processors ++ rps }

  unfoldable pub with_ignore_not_found : HelperOption Obj
  with_ignore_not_found s = record s { ignore_not_found = true }

  unfoldable pub with_result_builder : RuntimeResultBuilder → HelperOption Obj
  with_result_builder rb s = record s { result_builder = some rb }

  unfoldable pub with_reconcile_result : Result → HelperOption Obj
  with_reconcile_result rr s = record s { reconcile_result = rr }

  unfoldable pub with_reconcile_error : Option Err → HelperOption Obj
  with_reconcile_error re s = record s { reconcile_error = re }

  unfoldable pub with_patch_field_owner : String → HelperOption Obj
  with_patch_field_owner field_owner s = record s { patch_field_owner = field_owner }

  unfoldable pub with_bi_polarity_condition_types : List String → HelperOption Obj
  with_bi_polarity_condition_types types s = record s { bi_polarity_condition_types = types }

  abbrev pub no_options : HelperOptions Obj
  no_options = record {
    conditions = [];
    processors = [];
    ignore_not_found = false;
    reconcile_result = result_empty;
    reconcile_error = none;
    result_builder = none;
    patch_field_owner = "";
    bi_polarity_condition_types = [];
  }

  unfoldable pub apply_options : HelperOptions Obj → List (HelperOption Obj) → HelperOptions Obj
  apply_options s [] = s
  apply_options s (o ∷ os) = apply_options (o s) os

  unfoldable pub process :
      List (ResultProcessor Obj) → Obj → Result → Option Err → Obj × List Action
  process [] obj res rec_err = (obj, [])
  process (p ∷ ps) obj res rec_err =
      let (obj', actions) = p obj res rec_err in
      let (obj'', actions') = process ps obj' res rec_err in (obj'', actions ++ actions')

module _ {Obj : Type 0} (api : ConditionsApi Obj) (summary : SummaryApi Obj) where
  -- The loop over `SetSummary`.
  unfoldable pub set_summaries : List SummaryConditions → Obj → Obj
  set_summaries [] obj = obj
  set_summaries (c ∷ cs) obj =
      set_summaries cs (summary.set_summary obj c.target c.summarize c.negative_polarity)

  -- The first of the conditions that is there and false.
  unfoldable pub top_failed_bi_polarity : Obj → List String → Option Condition
  top_failed_bi_polarity obj [] = none
  top_failed_bi_polarity obj (t ∷ ts) =
      if has_status status_false (api.get obj t)
      then api.get obj t
      else top_failed_bi_polarity obj ts

  unfoldable pub mark_failed_bi_polarity : List String → Obj → Obj
  unfolding top_failed_bi_polarity
  mark_failed_bi_polarity types obj = elim (top_failed_bi_polarity obj types) [
    | none ↦ obj
    | some c ↦ api.mark_false obj ready_condition c.reason c.message
  ]

  -- conditions.GetMessage
  abbrev pub message_of : Option Condition → String
  message_of none = ""
  message_of (some c) = c.message

  unfoldable pub is_non_stalled_success :
      Obj → Option RuntimeResultBuilder → RuntimeResult → Option Err → Bool
  is_non_stalled_success obj none result rec_err = false
  is_non_stalled_success obj (some rb) result (some e) = false
  is_non_stalled_success obj (some rb) result none =
      if has_status status_true (api.get obj stalled_condition) then false else rb.is_success result

  -- The part of the result builder.
  unfoldable pub compute :
      HelperOptions Obj → Obj → Obj × List PatchOption × RuntimeResult × Option Err
  compute opts obj = elim opts.result_builder [
    | none ↦ (obj, [], no_requeue, none)
    | some rb ↦
        compute_reconcile_result api obj opts.reconcile_result opts.reconcile_error (some rb)
  ]

  -- A success of an object that is not ready becomes an error.
  unfoldable pub check_ready :
      Obj → Option RuntimeResultBuilder → RuntimeResult → Option Err → Option Err
  unfolding is_non_stalled_success
  check_ready obj rb result rec_err =
      if is_non_stalled_success obj rb result rec_err
        && not (has_status status_true (api.get obj ready_condition))
      then some (plain (message_of (api.get obj ready_condition)))
      else rec_err

  -- A patch that does not find an object under deletion may be ignored.
  abbrev pub kept_patch_error : HelperOptions Obj → Obj → Err → Option Err
  kept_patch_error opts obj e =
      if opts.ignore_not_found && not (summary.deletion_timestamp_is_zero obj)
      then summary.filter_out_not_found e
      else some e

  -- The error of the patch, joined to that of the reconciliation.
  unfoldable pub join_patch_error : HelperOptions Obj → Obj → Option Err → Option Err → Option Err
  join_patch_error opts obj rec_err none = rec_err
  join_patch_error opts obj rec_err (some e) =
      summary.new_aggregate (rec_err ∷ kept_patch_error opts obj e ∷ [])

  abbrev field_owner_option : String → List PatchOption
  field_owner_option owner =
      if decide (String-discrete owner "") then [] else with_field_owner owner ∷ []

  -- What follows on the results of the reconciliation.
  unfoldable pub finish :
      HelperOptions Obj
      → List Action
      → Obj × List PatchOption × RuntimeResult × Option Err
      → Summary Obj
  unfolding set_summaries mark_failed_bi_polarity check_ready join_patch_error owned_conditions
  finish opts actions (computed, p_opts, result, rec_err) =
      let object =
        mark_failed_bi_polarity opts.bi_polarity_condition_types
          (set_summaries opts.conditions computed) in
      let patch_options =
        with_owned_conditions (owned_conditions opts.conditions)
        ∷ (field_owner_option opts.patch_field_owner ++ p_opts) in
      let patch = summary.patch object patch_options in
      record {
        object = object;
        patch_options = patch_options;
        actions = actions;
        patched = patch.0;
        result = result;
        err =
            join_patch_error opts patch.0 (check_ready object opts.result_builder result rec_err)
              patch.1;
      }

  unfoldable pub summarize_and_patch : List (HelperOption Obj) → Obj → Summary Obj
  unfolding apply_options process compute finish
  summarize_and_patch options obj =
      let opts = apply_options no_options options in
      let processed = process opts.processors obj opts.reconcile_result opts.reconcile_error in
      finish opts processed.1 (compute opts processed.0)
