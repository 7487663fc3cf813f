-- ===== src/Cache/Expiry.antt =====
-- Expirations of the cache of internal/cache/cache.go: `SetExpiration`, `GetExpiration` and the
-- janitor's `DeleteExpired`.
use source_controller.Common.{
  ℕ, suc, String, ◌≡◌, refl, true, false, inl, inr, some, [], ◌∷◌, arith, String-discrete,
  Bool-cases, Option-cases, is_some, if◌then◌else◌, All,
}
use source_controller.Common.Int.{ℤ, pos, ◌+ℤ◌, ◌-ℤ◌, ◌≤ℤ◌, ltb_ℤ}
use source_controller.Common.GoMap
use source_controller.Common.GoMap.{GoMap, IsDistinct}
use source_controller.Cache
use source_controller.Cache.{Cache, Item, find, is_expired, sweep}
use source_controller.Cache.Calls.{IsValid, get-sweep-none}

module _ {V : Type 0} (key : String) (c : Cache V) where
  -- The remaining time that `GetExpiration` reports after `SetExpiration` of a key that is there:
  -- the new expiration less the time gone by, unless that time is over.
  pub get_expiration-set_expiration :
      (expiration now later : ℤ)
      → is_some (find key c) ≡ true
      → pos 1 ≤ℤ now +ℤ expiration
      → Cache.get_expiration key later later (Cache.set_expiration key expiration now c)
        ≡ (if ltb_ℤ (now +ℤ expiration) later then pos 0 else now +ℤ expiration -ℤ later)
  unfolding Cache.get_expiration Cache.set_expiration
  get_expiration-set_expiration expiration now later h h1 = elim (Option-cases (find key c)) [
    | inl e ↦ absurd (ground arith)
    | inr (item, e) ↦
        rw (e, Cache.set_expiration)
          (ground (
            arith,
            GoMap.get-put_self String-discrete key (record item { expiration = now +ℤ expiration })
                c.items,
          ))
  ]

  -- An item that never expires is reported with a negative remaining time.
  pub get_expiration_unlimited :
      (item : Item V) (now later : ℤ)
      → find key c ≡ some item
      → item.expiration ≡ pos 0
      → pos 1 ≤ℤ later
      → Cache.get_expiration key now later c ≡ pos 0 -ℤ later
  unfolding Cache.get_expiration
  get_expiration_unlimited item now later h e p = ground arith

module _ {V : Type 0} (now : ℤ) where
  Stays : String × Item V → Type 0
  Stays e = is_expired e.1 now ≡ false

  get-sweep :
      (clock : ℕ → ℤ) (key : String) (m : GoMap String (Item V))
      → IsDistinct String-discrete m
      → ((i : ℕ) → clock i ≤ℤ now)
      → Cache.get_from (GoMap.get String-discrete key (sweep clock m)) now
        ≡ Cache.get_from (GoMap.get String-discrete key m) now
  unfolding sweep GoMap.get Cache.get_from
  get-sweep clock key [] d h = refl
  get-sweep clock key ((j, item) ∷ m) d h =
      let rest = λ (i : ℕ). clock (suc i) in
      ground (arith, h 0, get-sweep rest key m d.1 (λ i. h (suc i)), get-sweep-none rest key m)

  sweep-Stays : (m : GoMap String (Item V)) → All Stays (sweep (λ _. now) m)
  unfolding sweep Stays
  sweep-Stays [] = tt
  sweep-Stays ((j, item) ∷ m) = elim (Bool-cases (is_expired item now)) [
    | inl e ↦ rw e (sweep-Stays m)
    | inr e ↦ rw e (e, sweep-Stays m)
  ]

-- A sweep changes no lookup from then on, whatever the clock reads on the way.
pub get-delete_expired :
    {V : Type 0} (key : String) (now : ℤ) (clock : ℕ → ℤ) (c : Cache V)
    → IsValid c
    → ((i : ℕ) → clock i ≤ℤ now)
    → Cache.get key now (Cache.delete_expired clock c) ≡ Cache.get key now c
unfolding Cache.get Cache.delete_expired
get-delete_expired key now clock c v h = get-sweep now clock key c.items v.distinct h

-- A sweep at one time leaves only items that have not expired at that time.
pub delete_expired-All :
    {V : Type 0} (now : ℤ) (c : Cache V)
    → All (λ e. is_expired e.1 now ≡ false) (Cache.delete_expired (λ _. now) c).items
unfolding Cache.delete_expired Stays
delete_expired-All now c = sweep-Stays now c.items
