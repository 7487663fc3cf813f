-- ===== src/Errors.antt =====
-- The errors of a reconciliation, internal/error/error.go: an error says by its type and its
-- configuration what is to be done about it. A Go `error` that may be nil is an `Option Err`.
use source_controller.Common.{String, Bool, true, false, Option, none, some}
use source_controller.Common.Int.{ℤ, pos}

-- corev1.EventTypeNormal and corev1.EventTypeWarning, the API's names.
abbrev pub event_type_normal : String
event_type_normal = "Normal"

abbrev pub event_type_warning : String
event_type_warning = "Warning"

abbrev pub event_type_none : String
event_type_none = "None"

pub record Config : Type 0 where
  pub event : String
  pub log : Bool
  pub notification : Bool
  pub ignore : Bool

-- `stalling reason err config`, `waiting requeue_after reason err config` and
-- `generic reason err config` are the three contextual errors; `plain` is any other error.
pub data Err : Type 0 where
  plain : String → Err
  stalling : String → Err → Config → Err
  waiting : ℤ → String → Err → Config → Err
  generic : String → Err → Config → Err

-- The methods `Error`.
unfoldable pub error : Err → String
error (plain message) = message
error (stalling reason err config) = error err
error (waiting requeue_after reason err config) = error err
error (generic reason err config) = error err

-- The methods `Unwrap`.
unfoldable pub unwrap : Err → Option Err
unwrap (plain message) = none
unwrap (stalling reason err config) = some err
unwrap (waiting requeue_after reason err config) = some err
unwrap (generic reason err config) = some err

-- The constructors leave the fields that they do not name at their zero values.
unfoldable pub new_stalling : Err → String → Err
new_stalling err reason =
    stalling reason err
      (record { event = event_type_warning; log = true; notification = true; ignore = false })

unfoldable pub new_waiting : Err → String → Err
new_waiting err reason =
    waiting (pos 0) reason err
      (record { event = event_type_normal; log = true; notification = false; ignore = false })

unfoldable pub new_generic : Err → String → Err
new_generic err reason =
    generic reason err
      (record { event = event_type_warning; log = false; notification = true; ignore = false })

-- The results of a function that returns a value and an `error`.
pub data Fallible {ℓ} (A : Type ℓ) : Type ℓ where
  ok : A → Fallible A
  fail : Err → Fallible A

infixl 5 ◌>>=◌
abbrev pub ◌>>=◌ {ℓ κ} : {A : Type ℓ} {B : Type κ} → Fallible A → (A → Fallible B) → Fallible B
ok a >>= f = f a
fail e >>= f = fail e
