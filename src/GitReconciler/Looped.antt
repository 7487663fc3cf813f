-- ===== src/GitReconciler/Looped.antt =====
-- What the loop over the sub-reconcilers in `reconcile` of
-- internal/controller/gitrepository_controller.go does.
use source_controller.Common.{◌≡◌, ◌≢◌, refl, ap, Option, none, some, List, [], ◌∷◌, ◌++◌, arith}
use source_controller.Errors.{Err}
use source_controller.Reconcile.{
  Result, result_empty, result_requeue, result_success, lowest_requeuing_result,
}
use source_controller.GitReconciler.Looping.{
  LoopEnd, requeued, ended, SubReconciler, after_sub, run_sub_reconcilers,
}

module _ {S : Type 0} where
  -- The steps, one after the other, have led from the first state and result to the last: each has
  -- returned no error and no requeue, and the results are combined.
  abbrev pub HavePassed : List (SubReconciler S) → Result → S → Result → S → Type 0
  HavePassed [] res s r t = (t ≡ s) × (r ≡ res)
  HavePassed (rec ∷ recs) res s r t =
      (u : S) × (x : Result) × (rec s ≡ (u, x, none))
      × (x ≢ result_requeue)
      × HavePassed recs (lowest_requeuing_result res x) u r t

  -- The step behind the first ones, which have passed, has returned this; others may be behind it.
  abbrev pub HasStopped : List (SubReconciler S) → Result → S → S → Result → Option Err → Type 0
  HasStopped recs res s t x err =
      (before : List (SubReconciler S)) × (rec : SubReconciler S) × (behind : List
        (SubReconciler S))
      × (u : S) × (r : Result) × (recs ≡ before ++ rec ∷ behind)
      × HavePassed before res s r u
      × (rec u ≡ (t, x, err))

  -- How the loop ends.
  abbrev pub EndsAs : List (SubReconciler S) → Result → S → S × LoopEnd → Type 0
  EndsAs recs res s (t, requeued) = (err : Option Err) × HasStopped recs res s t result_requeue err
  EndsAs recs res s (t, ended x (some e)) =
      (x ≢ result_requeue) × HasStopped recs res s t x (some e)
  EndsAs recs res s (t, ended r none) = HavePassed recs res s r t

  HasStopped-cons :
      (rec : SubReconciler S) (recs : List (SubReconciler S)) (res x y : Result) (s u t : S)
      (err : Option Err)
      → rec s ≡ (u, x, none)
      → x ≢ result_requeue
      → HasStopped recs (lowest_requeuing_result res x) u t y err
      → HasStopped (rec ∷ recs) res s t y err
  HasStopped-cons rec recs res x y s u t err e n (before, stop, behind, v, r, split, passed, f) =
      (rec ∷ before, stop, behind, v, r, ap (λ l. rec ∷ l) split, (u, x, e, n, passed), f)

  EndsAs-cons :
      (rec : SubReconciler S) (recs : List (SubReconciler S)) (res x : Result) (s u : S)
      (o : S × LoopEnd)
      → rec s ≡ (u, x, none)
      → x ≢ result_requeue
      → EndsAs recs (lowest_requeuing_result res x) u o
      → EndsAs (rec ∷ recs) res s o
  EndsAs-cons rec recs res x s u (t, requeued) e n (err, h) =
      (err, HasStopped-cons rec recs res x result_requeue s u t err e n h)
  EndsAs-cons rec recs res x s u (t, ended y (some err)) e n (m, h) =
      (m, HasStopped-cons rec recs res x y s u t (some err) e n h)
  EndsAs-cons rec recs res x s u (t, ended r none) e n h = (u, x, e, n, h)

  -- The loop over the sub-reconcilers ends in one of three ways. Without an error and a requeue, if
  -- all have passed, with their combined result. With an error, if some have passed and the next one
  -- has returned this error with this result, which is no requeue. With a request for a requeue, if
  -- some have passed and the next one has returned it. In each case the state at the end is that of
  -- the last sub-reconciler that has run, and those behind it have not run.
  pub run_sub_reconcilers-EndsAs :
      (recs : List (SubReconciler S)) (res : Result) (s : S)
      → EndsAs recs res s (run_sub_reconcilers recs res s)
  unfolding run_sub_reconcilers after_sub
  run_sub_reconcilers-EndsAs [] res s = (refl, refl)
  run_sub_reconcilers-EndsAs (rec ∷ recs) res s =
      step (λ r u. run_sub_reconcilers-EndsAs recs r u) (rec s) refl
    where
      step :
          ((r : Result) (u : S) → EndsAs recs r u (run_sub_reconcilers recs r u))
          → (o : S × Result × Option Err) → rec s ≡ o
          → EndsAs (rec ∷ recs) res s (after_sub (run_sub_reconcilers recs) res o)
      step rest (u, result_requeue, err) e = (err, ([], rec, recs, s, res, refl, (refl, refl), e))
      step rest (u, result_empty, some x) e =
          ((λ h. ground (arith, h)), ([], rec, recs, s, res, refl, (refl, refl), e))
      step rest (u, result_success, some x) e =
          ((λ h. ground (arith, h)), ([], rec, recs, s, res, refl, (refl, refl), e))
      step rest (u, result_empty, none) e =
          EndsAs-cons rec recs res result_empty s u _ e (λ h. ground (arith, h))
            (rest (lowest_requeuing_result res result_empty) u)
      step rest (u, result_success, none) e =
          EndsAs-cons rec recs res result_success s u _ e (λ h. ground (arith, h))
            (rest (lowest_requeuing_result res result_success) u)
