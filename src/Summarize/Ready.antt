-- ===== src/Summarize/Ready.antt =====
-- What a summary promises of the Ready condition and of the error that goes to the runtime,
-- internal/reconcile/summarize/summary.go.
use source_controller.Common.{
  String, ◌≡◌, refl, true, false, Option, none, some, List, [], ◌∷◌, ◌++◌, arith, Bool-cases, inl,
  inr, ◌⊎◌, All,
}
use source_controller.Errors.{Err}
use source_controller.Conditions.{
  ConditionsApi, Condition, status_true, status_false, has_status, ready_condition,
  stalled_condition,
}
use source_controller.Reconcile.{RuntimeResultBuilder, RuntimeResult, PatchOption}
use source_controller.Reconcile.Outcome.{IsHandled, compute_reconcile_result-IsHandled}
use source_controller.Summarize.{
  SummaryApi, process, HelperOption, HelperOptions, Action, finish, kept_patch_error,
  summarize_and_patch, apply_options, no_options, check_ready, join_patch_error, compute,
  top_failed_bi_polarity, mark_failed_bi_polarity,
}

module _ {Obj : Type 0} (api : ConditionsApi Obj) (summary : SummaryApi Obj) where
  check_ready-none :
      (o : Obj) (rb : RuntimeResultBuilder) (result : RuntimeResult) (e : Option Err)
      → check_ready api summary o (some rb) result e ≡ none
      → (e ≡ none)
        × (has_status status_true (api.get o stalled_condition) ≡ false
            → rb.is_success result ≡ true
            → has_status status_true (api.get o ready_condition) ≡ true)
  unfolding check_ready
  check_ready-none o rb result e h = ground arith

  check_ready_keeps :
      (o : Obj) (rb : Option RuntimeResultBuilder) (result : RuntimeResult) (e : Option Err)
      → check_ready api summary o rb result e ≡ none
      → e ≡ none
  unfolding check_ready
  check_ready_keeps o rb result e h = ground arith

  kept_none :
      (opts : HelperOptions Obj) (o : Obj) (x : Err)
      → kept_patch_error api summary opts o x ≡ none
      → (opts.ignore_not_found ≡ true)
        × (summary.deletion_timestamp_is_zero o ≡ false)
        × (summary.filter_out_not_found x ≡ none)
  kept_none opts o x h = ground (arith, h)

  some-injective : {x y : Err} → some x ≡ some y → x ≡ y
  some-injective h = ground (arith, h)

  join_none :
      (opts : HelperOptions Obj) (o : Obj) (e p : Option Err)
      → join_patch_error api summary opts o e p ≡ none
      → (e ≡ none)
        × ((p ≡ none)
            ⊎ ((opts.ignore_not_found ≡ true)
                × (summary.deletion_timestamp_is_zero o ≡ false)
                × ((x : Err) → p ≡ some x → summary.filter_out_not_found x ≡ none)))
  unfolding join_patch_error
  join_none opts o e none h = (h, inl refl)
  join_none opts o e (some x) h =
      let kept = kept_patch_error api summary opts o x in
      let gone = kept_none opts o x (summary.new_aggregate_none' e kept h) in
      (
        summary.new_aggregate_none e kept h,
        inr (gone.0, gone.1, λ y q. rw (← some-injective q) gone.2),
      )

  module _ (opts : HelperOptions Obj) (actions : List Action)
      (t : Obj × List PatchOption × RuntimeResult × Option Err) where
    finish_ready :
        (rb : RuntimeResultBuilder)
        → opts.result_builder ≡ some rb
        → (finish api summary opts actions t).err ≡ none
        → rb.is_success (finish api summary opts actions t).result ≡ true
        → (has_status status_true
              (api.get (finish api summary opts actions t).object ready_condition)
            ≡ true)
          ⊎ (has_status status_true
                (api.get (finish api summary opts actions t).object stalled_condition)
              ≡ true)
    unfolding finish
    finish_ready rb h e s =
        let out = finish api summary opts actions t in
        let p : check_ready api summary out.object opts.result_builder out.result t.3 ≡ none =
          (join_none opts out.patched _ _ e).0 in
        let q = check_ready-none out.object rb out.result t.3 (rw h at p) in
        elim (Bool-cases (has_status status_true (api.get out.object stalled_condition))) [
          | inl stalled ↦ inr stalled
          | inr fine ↦ inl (q.1 fine s)
        ]

    finish_reports :
        (finish api summary opts actions t).err ≡ none
        → (t.3 ≡ none)
          × (((summary.patch
                  (finish api summary opts actions t).object
                  (finish api summary opts actions t).patch_options).1
                ≡ none)
              ⊎ ((opts.ignore_not_found ≡ true)
                  × (summary.deletion_timestamp_is_zero (finish api summary opts actions t).patched
                      ≡ false)
                  × ((x : Err)
                      → (summary.patch
                          (finish api summary opts actions t).object
                          (finish api summary opts actions t).patch_options).1
                        ≡ some x
                      → summary.filter_out_not_found x ≡ none)))
    unfolding finish
    finish_reports e =
        let out = finish api summary opts actions t in
        let joined = join_none opts out.patched _ _ e in
        (check_ready_keeps out.object opts.result_builder out.result t.3 joined.0, joined.1)

  module _ (options : List (HelperOption Obj)) (obj : Obj) where
    abbrev opts : HelperOptions Obj
    opts = apply_options no_options options

    abbrev processed : Obj × List Action
    processed = process opts.processors obj opts.reconcile_result opts.reconcile_error

    -- If no error goes to the runtime and its result counts as a success, then the object that was
    -- patched is ready or it is stalled.
    pub summarize_and_patch-ready :
        (rb : RuntimeResultBuilder)
        → (apply_options no_options options).result_builder ≡ some rb
        → (summarize_and_patch api summary options obj).err ≡ none
        → rb.is_success (summarize_and_patch api summary options obj).result ≡ true
        → (has_status status_true
              (api.get (summarize_and_patch api summary options obj).object ready_condition)
            ≡ true)
          ⊎ (has_status status_true
                (api.get (summarize_and_patch api summary options obj).object stalled_condition)
              ≡ true)
    unfolding summarize_and_patch
    summarize_and_patch-ready rb h e s =
        finish_ready opts processed.1 (compute api summary opts processed.0) rb h e s

    -- If no error goes to the runtime although there is a result builder, then the error of the
    -- reconciliation was dealt with here, and the patch succeeded or all of this holds: missing
    -- objects are to be ignored, the object that the patch leaves is under deletion, and nothing is
    -- left of the error of the patch without what says that the object was not found.
    pub summarize_and_patch-IsHandled :
        (rb : RuntimeResultBuilder)
        → (apply_options no_options options).result_builder ≡ some rb
        → (summarize_and_patch api summary options obj).err ≡ none
        → IsHandled
            (apply_options no_options options).reconcile_result
            (apply_options no_options options).reconcile_error
          × (((summary.patch
                  (summarize_and_patch api summary options obj).object
                  (summarize_and_patch api summary options obj).patch_options).1
                ≡ none)
              ⊎ (((apply_options no_options options).ignore_not_found ≡ true)
                  × (summary.deletion_timestamp_is_zero
                        (summarize_and_patch api summary options obj).patched
                      ≡ false)
                  × ((x : Err)
                      → (summary.patch
                          (summarize_and_patch api summary options obj).object
                          (summarize_and_patch api summary options obj).patch_options).1
                        ≡ some x
                      → summary.filter_out_not_found x ≡ none)))
    unfolding summarize_and_patch compute
    summarize_and_patch-IsHandled rb h e =
        let (quiet, patched) =
          finish_reports opts processed.1 (compute api summary opts processed.0) e in
        let handled =
          compute_reconcile_result-IsHandled api processed.0 opts.reconcile_result
            opts.reconcile_error (some rb) in
        (handled.0.0 (rw (h, compute) at quiet), patched)

  top_failed_first :
      (obj : Obj) (before after : List String) (t : String) (c : Condition)
      → All (λ q. has_status status_false (api.get obj q) ≡ false) before
      → api.get obj t ≡ some c
      → c.status ≡ status_false
      → top_failed_bi_polarity api summary obj (before ++ t ∷ after) ≡ some c
  unfolding top_failed_bi_polarity
  top_failed_first obj [] after t c q h s = ground arith
  top_failed_first obj (b ∷ before) after t c q h s =
      rw q.0 (top_failed_first obj before after t c q.1 h s)

  -- The first bipolar condition that is false, in the order of priority, makes the object not
  -- ready, with its reason and its message.
  pub mark_failed_bi_polarity-first :
      (obj : Obj) (before after : List String) (t : String) (c : Condition)
      → All (λ q. has_status status_false (api.get obj q) ≡ false) before
      → api.get obj t ≡ some c
      → c.status ≡ status_false
      → api.get (mark_failed_bi_polarity api summary (before ++ t ∷ after) obj) ready_condition
        ≡ some (record {
          type = ready_condition;
          status = status_false;
          reason = c.reason;
          message = c.message;
        })
  unfolding mark_failed_bi_polarity
  mark_failed_bi_polarity-first obj before after t c q h s =
      rw (top_failed_first obj before after t c q h s, mark_failed_bi_polarity)
        (rw api.mark_false_lem (api.get-set_self _ _))
