-- ===== src/Flow/Laws.antt =====
-- What holds of the end of a step: of the value that it goes on with, or of its result and error.
use source_controller.Common.{◌≡◌, refl, Option, Bool, true, false, if◌then◌else◌}
use source_controller.Errors.{Err}
use source_controller.Reconcile.{Result}
use source_controller.Flow.{Flow, go, stop, Step, after_flow}

module _ {S : Type 0} (Failed : S → Result → Option Err → Type 0) where
  -- A step that goes on ends in `P`, and one that stops in `Failed`.
  abbrev pub Outcome : {A : Type 0} → (S → A → Type 0) → S × Flow A → Type 0
  Outcome P (s, go a) = P s a
  Outcome P (s, stop res err) = Failed s res err

  pub Outcome-bind :
      {A B : Type 0} (P : S → A → Type 0) (Q : S → B → Type 0) (f : A → Step S B) (o : S × Flow A)
      → Outcome P o
      → ((s : S) (a : A) → P s a → Outcome Q (f a s))
      → Outcome Q (after_flow f o)
  Outcome-bind P Q f (s, go a) h k = k s a h
  Outcome-bind P Q f (s, stop res err) h k = h

  pub Outcome-if :
      {A : Type 0} (P : S → A → Type 0) (b : Bool) (o o' : S × Flow A)
      → (b ≡ true → Outcome P o)
      → (b ≡ false → Outcome P o')
      → Outcome P (if b then o else o')
  Outcome-if P true o o' h k = h refl
  Outcome-if P false o o' h k = k refl

  pub Outcome-weaken :
      {A : Type 0} (P Q : S → A → Type 0) (o : S × Flow A)
      → ((s : S) (a : A) → P s a → Q s a)
      → Outcome P o
      → Outcome Q o
  Outcome-weaken P Q (s, go a) k h = k s a h
  Outcome-weaken P Q (s, stop res err) k h = h

  pub Outcome-map :
      {A : Type 0} (P Q : S → A → Type 0) (g : S → S) (o : S × Flow A)
      → ((s : S) (a : A) → P s a → Q (g s) a)
      → ((s : S) (res : Result) (err : Option Err) → Failed s res err → Failed (g s) res err)
      → Outcome P o
      → Outcome Q (g o.0, o.1)
  Outcome-map P Q g (s, go a) k l h = k s a h
  Outcome-map P Q g (s, stop res err) k l h = l s res err h

module _ {S A : Type 0} where
  -- Two outcomes of one step, of which the second says nothing of a step that stops.
  pub Outcome-both :
      (F G : S → Result → Option Err → Type 0) (P Q R : S → A → Type 0) (o : S × Flow A)
      → ((s : S) (a : A) → P s a → Q s a → R s a)
      → ((s : S) (res : Result) (err : Option Err) → F s res err → G s res err)
      → Outcome F P o
      → Outcome (λ s res err. Unit {0}) Q o
      → Outcome G R o
  Outcome-both F G P Q R (s, go a) k l h i = k s a h i
  Outcome-both F G P Q R (s, stop res err) k l h i = l s res err h
