-- ===== src/Common/GoMap.antt =====
-- Go's map type, as an association list over keys with a decidable equality.
-- `get` is `v, ok := m[k]`, `put` is `m[k] = v`, `delete` is `delete(m, k)`, `size` is `len(m)`.
use Prim.Native.Nat.{ℕ, suc, ◌≤◌}
use mathlib.Core.Path.{◌≡◌, refl, subst}
use mathlib.Core.Logic.{◌≢◌, ite, if_neg}
use mathlib.Core.Option.{Option, none, some}
use mathlib.Core.Bool.{true}
use mathlib.Core.List.{List, [], ◌∷◌, map}
use native.Mathlib.Omega.{arith}
use source_controller.Common.Tests.{is_some, if◌then◌else◌}
use source_controller.Common.Lists.{length, All}

abbrev pub GoMap {ℓ} : Type 0 → Type ℓ → Type ℓ
GoMap K V = List (K × V)

abbrev pub keys {ℓ} : {K : Type 0} {V : Type ℓ} → GoMap K V → List K
keys = map (λ e. e.0)

abbrev pub size {ℓ} : {K : Type 0} {V : Type ℓ} → GoMap K V → ℕ
size m = length m

module _ {ℓ} {K : Type 0} {V : Type ℓ} (dec : Discrete K) where
  unfoldable pub get : K → GoMap K V → Option V
  get k [] = none
  get k ((j, v) ∷ m) = ite (dec j k) (some v) (get k m)

  unfoldable pub put : K → V → GoMap K V → GoMap K V
  put k v [] = (k, v) ∷ []
  put k v ((j, w) ∷ m) = let rest = put k v m in ite (dec j k) ((k, v) ∷ m) ((j, w) ∷ rest)

  unfoldable pub delete : K → GoMap K V → GoMap K V
  delete k [] = []
  delete k ((j, w) ∷ m) = let rest = delete k m in ite (dec j k) rest ((j, w) ∷ rest)

  -- No key stands twice.
  abbrev pub IsDistinct : GoMap K V → Type ℓ
  IsDistinct [] = Unit
  IsDistinct (e ∷ m) = (get e.0 m ≡ none) × IsDistinct m

  pub get-put_self : (k : K) (v : V) (m : GoMap K V) → get k (put k v m) ≡ some v
  unfolding get put
  get-put_self k v [] = ground arith
  get-put_self k v ((j, w) ∷ m) = ground (arith, get-put_self k v m)

  pub get-put_ne : (k q : K) (v : V) (m : GoMap K V) → k ≢ q → get q (put k v m) ≡ get q m
  unfolding get put
  get-put_ne k q v [] h = ground arith
  get-put_ne k q v ((j, w) ∷ m) h = ground (arith, get-put_ne k q v m)

  pub get-delete_self : (k : K) (m : GoMap K V) → get k (delete k m) ≡ none
  unfolding get delete
  get-delete_self k [] = refl
  get-delete_self k ((j, w) ∷ m) = ground (arith, get-delete_self k m)

  pub get-delete_ne : (k q : K) (m : GoMap K V) → k ≢ q → get q (delete k m) ≡ get q m
  unfolding get delete
  get-delete_ne k q [] h = refl
  get-delete_ne k q ((j, w) ∷ m) h = ground (arith, get-delete_ne k q m)

  pub size-put :
      (k : K) (v : V) (m : GoMap K V)
      → size (put k v m) ≡ (if is_some (get k m) then size m else suc (size m))
  unfolding get put
  size-put k v [] = refl
  size-put k v ((j, w) ∷ m) = ground (arith, size-put k v m)

  pub size-delete-le : (k : K) (m : GoMap K V) → size (delete k m) ≤ size m
  unfolding delete
  size-delete-le k [] = omega arith
  size-delete-le k ((j, w) ∷ m) = ground (arith, size-delete-le k m)

  pub put-IsDistinct : (k : K) (v : V) (m : GoMap K V) → IsDistinct m → IsDistinct (put k v m)
  unfolding get put
  put-IsDistinct k v [] d = (refl, tt)
  put-IsDistinct k v ((j, w) ∷ m) d = ground (arith, put-IsDistinct k v m d.1, get-put_ne k j v m)

  pub delete-IsDistinct : (k : K) (m : GoMap K V) → IsDistinct m → IsDistinct (delete k m)
  unfolding get delete
  delete-IsDistinct k [] d = tt
  delete-IsDistinct k ((j, w) ∷ m) d =
      ground (arith, delete-IsDistinct k m d.1, get-delete_ne k j m)

  pub put-All :
      (P : V → Type 0) (k : K) (v : V) (m : GoMap K V)
      → P v
      → All (λ e. P e.1) m
      → All (λ e. P e.1) (put k v m)
  unfolding put
  put-All P k v [] p h = (p, tt)
  put-All P k v ((j, w) ∷ m) p h = ground (arith, put-All P k v m p h.1)

  pub get-All :
      (P : V → Type 0) (k : K) (v : V) (m : GoMap K V) → All (λ e. P e.1) m → get k m ≡ some v → P v
  unfolding get
  get-All P k v [] h e = absurd (ground arith)
  get-All P k v ((j, w) ∷ m) h e = elim (dec j k) [
    | yes p ↦ let same : w ≡ v = ground arith in subst P same h.0
    | no p ↦ get-All P k v m h.1 (rw (if_neg _ p) at e)
  ]

  -- A key that is there stays there.
  pub get-put_some :
      (k q : K) (v : V) (m : GoMap K V)
      → is_some (get q m) ≡ true
      → is_some (get q (put k v m)) ≡ true
  get-put_some k q v m h = elim (dec k q) [
    | yes p ↦ rw (← p, get-put_self k v m) refl
    | no p ↦ rw (get-put_ne k q v m p) h
  ]
