-- ===== src/Processor.antt =====
-- The result processors, internal/reconcile/summarize/processor.go: what is logged, what is sent
-- as an event, and the record of the last handled reconcile request. Only the message of a log
-- entry is kept, not its further keys and values.
pub mod Handler
mod Tests
use source_controller.Common.{
  String, Bool, true, false, Option, none, some, List, [], ◌∷◌, ◌++◌, if◌then◌else◌, decide,
  String-discrete,
}
use source_controller.Errors.{
  Err, plain, stalling, waiting, generic, Config, error, event_type_none, event_type_normal,
  event_type_warning, Fallible, ok, fail,
}
use source_controller.Object.{UnstructuredApi, set_status_last_handled_reconcile_at}
use source_controller.Reconcile.{Result}
use source_controller.Summarize.{Action, log_info, log_error, eventf, ResultProcessor}

-- eventv1.EventTypeTrace
abbrev pub event_type_trace : String
event_type_trace = "Trace"

abbrev is_type : String → String → Bool
is_type s t = decide (String-discrete s t)

-- The function `logError`.
unfoldable pub log_entry : String → Err → String → List Action
log_entry event_type err msg =
    if is_type event_type event_type_normal
    then log_info msg ∷ []
    else if is_type event_type event_type_none
    then log_info msg ∷ []
    else if is_type event_type event_type_warning
    then log_error err msg ∷ []
    else []

unfoldable pub record_event : String → Bool → Err → String → List Action
record_event event_type notification err reason =
    if is_type event_type event_type_none
    then []
    else if is_type event_type event_type_normal
    then (if notification
        then eventf event_type_normal reason (error err) ∷ []
        else eventf event_type_trace reason (error err) ∷ [])
    else if is_type event_type event_type_warning
    then eventf event_type_warning reason (error err) ∷ []
    else []

abbrev logged : Config → Err → String → List Action
logged config err msg = if config.log then log_entry config.event err msg else []

unfoldable pub error_actions : Option Err → List Action
unfolding log_entry record_event
error_actions (some (generic reason err config)) =
    let e = generic reason err config in
    logged config e (error e) ++ record_event config.event config.notification e reason
error_actions (some (waiting requeue_after reason err config)) =
    let e = waiting requeue_after reason err config in
    logged config e "reconciliation waiting"
    ++ record_event config.event config.notification e reason
error_actions (some (stalling reason err config)) =
    let e = stalling reason err config in
    logged config e "reconciliation stalled"
    ++ record_event config.event config.notification e reason
error_actions (some (plain message)) = []
error_actions none = []

-- `ErrorActionHandler`.
unfoldable pub error_action_handler : {Obj : Type 0} → ResultProcessor Obj
unfolding error_actions
error_action_handler obj res err = (obj, error_actions err)

-- `RecordReconcileReq`, given meta.ReconcileAnnotationValue; its error is dropped.
module _ {Obj U A : Type 0} (api : UnstructuredApi Obj U A)
    (reconcile_annotation_value : Obj → Option String) where
  abbrev recorded : Obj → Fallible Obj → Obj
  recorded obj (ok obj') = obj'
  recorded obj (fail e) = obj

  unfoldable pub record_reconcile_req : ResultProcessor Obj
  record_reconcile_req obj res err = elim (reconcile_annotation_value obj) [
    | none ↦ (obj, [])
    | some v ↦ (recorded obj (set_status_last_handled_reconcile_at api obj v), [])
  ]
