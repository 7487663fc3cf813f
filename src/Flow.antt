-- ===== src/Flow.antt =====
-- The control flow of the sub-reconcilers in internal/controller: a step on the state of a
-- reconciliation goes on with a value, or ends the sub-reconciler with a result and an error.
pub mod Laws
use source_controller.Common.{◌≡◌, Option, none, some}
use source_controller.Errors.{Err, Fallible, ok, fail}
use source_controller.Reconcile.{Result, result_empty}

pub data Flow (A : Type 0) : Type 0 where
  go : A → Flow A
  stop : Result → Option Err → Flow A

abbrev pub Step : Type 0 → Type 0 → Type 0
Step S A = S → S × Flow A

abbrev pub after_flow : {S A B : Type 0} → (A → Step S B) → S × Flow A → S × Flow B
after_flow f (s, go a) = f a s
after_flow f (s, stop res err) = (s, stop res err)

infixl 5 ◌>>=◌ ◌>>◌
abbrev pub ◌>>=◌ : {S A B : Type 0} → Step S A → (A → Step S B) → Step S B
◌>>=◌ m f s = after_flow f (m s)

abbrev pub ◌>>◌ : {S A B : Type 0} → Step S A → Step S B → Step S B
◌>>◌ m k s = after_flow (λ a. k) (m s)

abbrev pub pass : {S : Type 0} → Step S (Unit {0})
pass s = (s, go tt)

abbrev pub modify : {S : Type 0} → (S → S) → Step S (Unit {0})
modify f s = (f s, go tt)

abbrev pub get_state : {S : Type 0} → Step S S
get_state s = (s, go s)

abbrev pub exit : {S A : Type 0} → Result → Option Err → Step S A
exit res err s = (s, stop res err)

-- `return sreconcile.ResultEmpty, e`
abbrev pub give_up : {S A : Type 0} → Err → Step S A
give_up e s = (s, stop result_empty (some e))

-- What a sub-reconciler returns: its last step gives the result without an error.
abbrev pub returned : {S : Type 0} → S × Flow Result → S × Result × Option Err
returned (s, go res) = (s, res, none)
returned (s, stop res err) = (s, res, err)
