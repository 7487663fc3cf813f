-- ===== src/Object/Access.antt =====
-- Writing a field of an object and reading it back, internal/object/object.go.
use source_controller.Common.{String, ◌≡◌, refl, Bool, arith, inl, inr, ◌⊎◌}
use source_controller.Errors.{Err, Fallible, ok, fail}
use source_controller.Object.{
  UnstructuredApi, get_status_last_handled_reconcile_at, set_status_last_handled_reconcile_at,
  get_suspend, set_suspend, last_handled_path, suspend_path,
}

Fallible-cases {ℓ} :
    {A : Type ℓ} (r : Fallible A) → ((a : A) × (r ≡ ok a)) ⊎ ((e : Err) × (r ≡ fail e))
Fallible-cases (ok a) = inl (a, refl)
Fallible-cases (fail e) = inr (e, refl)

module _ {Obj U A : Type 0} (api : UnstructuredApi Obj U A) (o o' : Obj) where
  -- The value that was recorded as last handled is read back.
  pub get-set_status_last_handled :
      (val : String)
      → set_status_last_handled_reconcile_at api o val ≡ ok o'
      → get_status_last_handled_reconcile_at api o' ≡ ok val
  unfolding set_status_last_handled_reconcile_at get_status_last_handled_reconcile_at
  get-set_status_last_handled val h = elim (Fallible-cases (api.to_unstructured o)) [
    | inr (e, p) ↦ absurd (ground arith)
    | inl (c, p) ↦ elim (Fallible-cases (api.set_nested_string c val last_handled_path)) [
      | inr (e, q) ↦ absurd (ground arith)
      | inl (u, q) ↦ ground (
        arith,
        api.nested_string-set c u val last_handled_path q,
        api.to_unstructured-from u o o' (ground arith),
      )
    ]
  ]

  -- A suspension that was set is read back.
  pub get-set_suspend : (val : Bool) → set_suspend api o val ≡ ok o' → get_suspend api o' ≡ ok val
  unfolding set_suspend get_suspend
  get-set_suspend val h = elim (Fallible-cases (api.to_unstructured o)) [
    | inr (e, p) ↦ absurd (ground arith)
    | inl (c, p) ↦ elim (Fallible-cases (api.set_nested_bool c val suspend_path)) [
      | inr (e, q) ↦ absurd (ground arith)
      | inl (u, q) ↦ ground (
        arith,
        api.nested_bool-set c u val suspend_path q,
        api.to_unstructured-from u o o' (ground arith),
      )
    ]
  ]
