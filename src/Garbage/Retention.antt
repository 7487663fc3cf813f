-- ===== src/Garbage/Retention.antt =====
-- How many files the last loop of `getGarbageFiles`, internal/controller/storage.go, adds to the
-- garbage, and which.
use source_controller.Common.{
  ℕ, zero, suc, ◌+◌, ◌-◌, ◌≤◌, String, ◌≡◌, refl, sym, Bool, true, false, not, ◌&&◌, List, [], ◌∷◌,
  ◌++◌, arith, length, take, length-append, All, inl, inr, ◌⊎◌, Bool-cases, if◌then◌else◌,
}
use mathlib.Core.List.{append-nil, append_assoc}
use source_controller.Common.Int.{pos, ◌-ℤ◌, ltb_ℤ, -ℤ_parts}
use source_controller.Garbage.{same, is_lock, string_in_slice, collect}

-- No path stands twice.
abbrev pub IsDistinct : List String → Type 0
IsDistinct [] = Unit
IsDistinct (p ∷ ps) = All (λ q. same p q ≡ false) ps × IsDistinct ps

pub none_in_nil : (ps : List String) → All (λ p. string_in_slice p [] ≡ false) ps
unfolding string_in_slice
none_in_nil [] = tt
none_in_nil (p ∷ ps) = (refl, none_in_nil ps)

module _ (ext : String → String) (local_path : String) where
  -- The loop leaves the current artifact's file and lock files alone.
  abbrev pub is_eligible : String → Bool
  is_eligible path = not (same path local_path) && not (is_lock ext path)

  module _ (k : ℕ) (n : ℕ) where
    -- With no expired file, what is added leaves `k` of the `n` files.
    pub collect_unexpired_le :
        (c : ℕ) (paths g : List String)
        → (length (collect ext local_path (pos k) false n c paths g) ≡ length g)
          ⊎ (length (collect ext local_path (pos k) false n c paths g) + c + k ≤ length g + n)
    unfolding collect
    collect_unexpired_le c [] g = inl refl
    collect_unexpired_le c (path ∷ paths) g = ground (
      arith,
      collect_unexpired_le c paths g,
      collect_unexpired_le (suc c) paths (g ++ path ∷ []),
      length-append g (path ∷ []),
      -ℤ_parts (pos n) (pos c),
    )

    -- With expired files every file that is added counts twice.
    pub collect_expired_le :
        (c : ℕ) (paths g : List String)
        → (length (collect ext local_path (pos k) true n c paths g) ≡ length g)
          ⊎ (length (collect ext local_path (pos k) true n c paths g)
                + length (collect ext local_path (pos k) true n c paths g)
                + c
                + k
              ≤ length g + n + 1)
    unfolding collect
    collect_expired_le c [] g = inl refl
    collect_expired_le c (path ∷ paths) g = ground (
      arith,
      collect_expired_le c paths g,
      collect_expired_le (suc c) paths (g ++ path ∷ []),
      length-append g (path ∷ []),
      -ℤ_parts (pos n) (pos c),
      -ℤ_parts (pos n -ℤ pos c) (pos (length g)),
    )

  -- The files that the loop may add, in order.
  abbrev pub eligible : List String → List String
  eligible [] = []
  eligible (p ∷ ps) = if is_eligible p then p ∷ eligible ps else eligible ps

  slice_append :
      (p q : String) (g : List String)
      → string_in_slice p g ≡ false
      → same q p ≡ false
      → string_in_slice p (g ++ q ∷ []) ≡ false
  unfolding string_in_slice
  slice_append p q [] h s = ground arith
  slice_append p q (x ∷ g) h s = ground (arith, slice_append p q g)

  slices_append :
      (path : String) (g ps : List String)
      → All (λ q. same path q ≡ false) ps
      → All (λ p. string_in_slice p g ≡ false) ps
      → All (λ p. string_in_slice p (g ++ path ∷ []) ≡ false) ps
  slices_append path g [] a b = tt
  slices_append path g (p ∷ ps) a b =
      (slice_append p path g b.0 a.0, slices_append path g ps a.1 b.1)

  take_nil : (n : ℕ) (g : List String) → g ≡ g ++ take n []
  take_nil zero g = sym (append-nil g)
  take_nil (suc n) g = sym (append-nil g)

  -- With no expired file and no path twice, the loop adds the first of the eligible files, in
  -- order, until `k` of the `n` files are left.
  pub collect-take :
      (k n c : ℕ) (paths g : List String)
      → IsDistinct paths
      → All (λ p. string_in_slice p g ≡ false) paths
      → collect ext local_path (pos k) false n c paths g ≡ g ++ take (n - k - c) (eligible paths)
  unfolding collect
  collect-take k n c [] g d a = take_nil (n - k - c) g
  collect-take k n c (path ∷ paths) g d a =
      let skip = collect-take k n c paths g d.1 a.1 in
      let add =
        collect-take k n (suc c) paths (g ++ path ∷ []) d.1 (slices_append path g paths d.0 a.1) in
      elim (Bool-cases (is_eligible path)) [
        | inr e ↦ rw e (ground (arith, skip))
        | inl e ↦ elim (Bool-cases (ltb_ℤ (pos k) (pos n -ℤ pos c))) [
          | inl t ↦
              let more : n - k - c ≡ suc (n - k - suc c) =
                ground (arith, -ℤ_parts (pos n) (pos c)) in
              rw (e, more)
                (ground
                  (arith, add, append_assoc g (path ∷ []) (take (n - k - suc c) (eligible paths))))
          | inr t ↦
              let enough : n - k - c ≡ 0 = ground (arith, -ℤ_parts (pos n) (pos c)) in
              rw (e, enough) (ground (arith, rw enough at skip))
        ]
      ]
