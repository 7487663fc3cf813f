-- ===== src/Processor/Handler.antt =====
-- The actions for each kind of error, internal/reconcile/summarize/processor.go and
-- internal/error/error.go.
use source_controller.Common.{
  String, ◌≡◌, refl, Option, none, some, [], ◌∷◌, arith, String-discrete,
}
use source_controller.Errors.{
  Err, error, new_stalling, new_waiting, new_generic, event_type_warning, ok,
}
use source_controller.Reconcile.{Result}
use source_controller.Object.{
  UnstructuredApi, set_status_last_handled_reconcile_at, get_status_last_handled_reconcile_at,
}
use source_controller.Object.Access.{get-set_status_last_handled}
use source_controller.Summarize.{log_info, log_error, eventf}
use source_controller.Processor.{error_action_handler, event_type_trace, record_reconcile_req}

-- A new stalling error is logged as an error and sent as a warning, a new waiting error is logged
-- and sent as a trace, and a new generic error is only sent as a warning. The object stays.
pub error_action_handler-new :
    {Obj : Type 0} (obj : Obj) (res : Result) (e : Err) (reason : String)
    → (error_action_handler obj res (some (new_stalling e reason)) ≡ (
      obj,
      log_error (new_stalling e reason) "reconciliation stalled"
          ∷ eventf event_type_warning reason (error e)
          ∷ [],
    ))
      × (error_action_handler obj res (some (new_waiting e reason)) ≡ (
        obj,
        log_info "reconciliation waiting" ∷ eventf event_type_trace reason (error e) ∷ [],
      ))
      × (error_action_handler obj res (some (new_generic e reason))
          ≡ (obj, eventf event_type_warning reason (error e) ∷ []))
unfolding error_action_handler new_stalling new_waiting new_generic error String-discrete
error_action_handler-new obj res e reason = (refl, refl, refl)

-- A request to reconcile is recorded: if the object can be written, its status afterwards holds
-- the value of the annotation, and without an annotation the object stays as it is.
pub record_reconcile_req-get :
    {Obj U A : Type 0} (api : UnstructuredApi Obj U A) (value : Obj → Option String) (obj : Obj)
    (res : Result) (err : Option Err)
    → (value obj ≡ none → record_reconcile_req api value obj res err ≡ (obj, []))
      × ((v : String) (obj' : Obj)
          → value obj ≡ some v
          → set_status_last_handled_reconcile_at api obj v ≡ ok obj'
          → get_status_last_handled_reconcile_at api (record_reconcile_req api value obj res err).0
            ≡ ok v)
unfolding record_reconcile_req
record_reconcile_req-get api value obj res err =
    (λ h. ground arith, λ v obj' h p. ground (arith, get-set_status_last_handled api obj obj' v p))
