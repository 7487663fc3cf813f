-- ===== src/Object.antt =====
-- Access to the fields of any API object by their paths, internal/object/object.go. The conversion
-- to and from unstructured content, and the nested access to it, are apimachinery's: they are
-- parameters. A conversion that fails leaves the object as it was.
pub mod Access
pub mod Example
use source_controller.Common.{
  String, ◌≡◌, ◌≢◌, Bool, true, false, Option, none, some, List, [], ◌∷◌,
}
use source_controller.Common.Int.{ℤ, pos}
use source_controller.Errors.{Err, plain, Fallible, ok, fail, ◌>>=◌}

pub record UnstructuredApi (Obj U A : Type 0) : Type 0 where
  pub to_unstructured : Obj → Fallible U
  pub from_unstructured : U → Obj → Fallible Obj
  pub nested_string : U → List String → Fallible (Option String)
  pub nested_int64 : U → List String → Fallible (Option ℤ)
  pub nested_bool : U → List String → Fallible (Option Bool)
  pub set_nested_string : U → String → List String → Fallible U
  pub set_nested_bool : U → Bool → List String → Fallible U
  -- `NestedFieldNoCopy` and the way through JSON to an `Artifact`.
  pub nested_artifact : U → List String → Fallible (Option A)
  pub parse_duration : String → Fallible ℤ
  pub nested_string-set :
      (u u' : U) (v : String) (p : List String)
      → set_nested_string u v p ≡ ok u'
      → nested_string u' p ≡ ok (some v)
  pub nested_bool-set :
      (u u' : U) (v : Bool) (p : List String)
      → set_nested_bool u v p ≡ ok u'
      → nested_bool u' p ≡ ok (some v)
  -- Content that an object has taken over is read back from it.
  pub to_unstructured-from :
      (u : U) (o o' : Obj) → from_unstructured u o ≡ ok o' → to_unstructured o' ≡ ok u

abbrev pub err_observed_generation_not_found : Err
err_observed_generation_not_found = plain "observed generation not found"

abbrev pub err_last_handled_reconcile_at_not_found : Err
err_last_handled_reconcile_at_not_found = plain "last handled reconcile at not found"

abbrev pub err_requeue_interval_not_found : Err
err_requeue_interval_not_found = plain "requeue interval not found"

abbrev pub last_handled_path : List String
last_handled_path = "status" ∷ "lastHandledReconcileAt" ∷ []

abbrev pub suspend_path : List String
suspend_path = "spec" ∷ "suspend" ∷ []

-- A field that has to be there.
abbrev pub required {ℓ} : {B : Type ℓ} → Err → Option B → Fallible B
required e none = fail e
required e (some b) = ok b

-- An optional Boolean field is false where it is missing.
abbrev pub or_false : Option Bool → Bool
or_false none = false
or_false (some b) = b

module _ {Obj U A : Type 0} (api : UnstructuredApi Obj U A) where
  unfoldable pub get_status_last_handled_reconcile_at : Obj → Fallible String
  get_status_last_handled_reconcile_at obj = do
    u ← api.to_unstructured obj
    ra ← api.nested_string u last_handled_path
    required err_last_handled_reconcile_at_not_found ra

  unfoldable pub set_status_last_handled_reconcile_at : Obj → String → Fallible Obj
  set_status_last_handled_reconcile_at obj val = do
    content ← api.to_unstructured obj
    u ← api.set_nested_string content val last_handled_path
    api.from_unstructured u obj

  unfoldable pub get_status_observed_generation : Obj → Fallible ℤ
  get_status_observed_generation obj = do
    u ← api.to_unstructured obj
    og ← api.nested_int64 u ("status" ∷ "observedGeneration" ∷ [])
    required err_observed_generation_not_found og

  -- The period of one second that accompanies an error is left out.
  unfoldable pub get_requeue_interval : Obj → Fallible ℤ
  get_requeue_interval obj = do
    u ← api.to_unstructured obj
    found ← api.nested_string u ("spec" ∷ "interval" ∷ [])
    interval ← required err_requeue_interval_not_found found
    api.parse_duration interval

  unfoldable pub get_suspend : Obj → Fallible Bool
  get_suspend obj = do
    u ← api.to_unstructured obj
    suspend ← api.nested_bool u suspend_path
    ok (or_false suspend)

  unfoldable pub set_suspend : Obj → Bool → Fallible Obj
  set_suspend obj val = do
    content ← api.to_unstructured obj
    u ← api.set_nested_bool content val suspend_path
    api.from_unstructured u obj

  unfoldable pub get_artifact : Obj → Fallible (Option A)
  get_artifact obj = do
    u ← api.to_unstructured obj
    api.nested_artifact u ("status" ∷ "artifact" ∷ [])
