-- ===== src/Cache/Calls.antt =====
-- Any sequence of calls on the cache of internal/cache/cache.go, the janitor's ticks included. The
-- mutex makes the calls of several goroutines such a sequence.
use source_controller.Common.{
  ℕ, suc, ◌≤◌, String, ◌≡◌, refl, true, none, List, [], ◌∷◌, arith, String-discrete, Bool-cases,
  Option-cases, inl, inr, ◌⊎◌, is_some, ◌∙◌,
}
use source_controller.Common.Int.{ℤ, pos_part, ◌+ℤ◌}
use source_controller.Common.GoMap
use source_controller.Common.GoMap.{GoMap, size, IsDistinct}
use source_controller.Cache
use source_controller.Cache.{
  Cache, Item, CacheError, cache_is_full, item_already_exists, find, has_room, is_expired, sweep,
}

pub data Call (V : Type 0) : Type 0 where
  set : String → V → ℤ → ℤ → Call V
  add : String → V → ℤ → ℤ → Call V
  delete : String → Call V
  clear : Call V
  set_expiration : String → ℤ → ℤ → Call V
  delete_expired : (ℕ → ℤ) → Call V

-- No key twice, and never more items than allowed; none at all without a positive maximum.
pub record IsValid {V : Type 0} (c : Cache V) : Type 0 where
  pub distinct : IsDistinct String-discrete c.items
  pub bounded : size c.items ≤ pos_part c.max_items

module _ {V : Type 0} where
  unfoldable pub call : Call V → Cache V → Cache V
  call (set key value expiration now) c = (Cache.set key value expiration now c).0
  call (add key value expiration now) c = (Cache.add key value expiration now c).0
  call (delete key) c = Cache.delete key c
  call clear c = Cache.clear c
  call (set_expiration key expiration now) c = Cache.set_expiration key expiration now c
  call (delete_expired clock) c = Cache.delete_expired clock c

  unfoldable pub run : List (Call V) → Cache V → Cache V
  run [] c = c
  run (x ∷ xs) c = run xs (call x c)

  pub get-sweep-none :
      (clock : ℕ → ℤ) (k : String) (m : GoMap String (Item V))
      → GoMap.get String-discrete k m ≡ none
      → GoMap.get String-discrete k (sweep clock m) ≡ none
  unfolding sweep GoMap.get
  get-sweep-none clock k [] h = refl
  get-sweep-none clock k ((j, item) ∷ m) h = ground (arith, get-sweep-none (λ i. clock (suc i)) k m)

  pub sweep-IsDistinct :
      (clock : ℕ → ℤ) (m : GoMap String (Item V))
      → IsDistinct String-discrete m
      → IsDistinct String-discrete (sweep clock m)
  unfolding sweep
  sweep-IsDistinct clock [] d = tt
  sweep-IsDistinct clock ((j, item) ∷ m) d = elim (Bool-cases (is_expired item (clock 0))) [
    | inl e ↦ rw e (sweep-IsDistinct (λ i. clock (suc i)) m d.1)
    | inr e ↦
        rw e
          (get-sweep-none (λ i. clock (suc i)) j m d.0, sweep-IsDistinct (λ i. clock (suc i)) m d.1)
  ]

  size-sweep-le : (clock : ℕ → ℤ) (m : GoMap String (Item V)) → size (sweep clock m) ≤ size m
  unfolding sweep
  size-sweep-le clock [] = omega arith
  size-sweep-le clock ((j, item) ∷ m) = ground (arith, size-sweep-le (λ i. clock (suc i)) m)

  put-IsValid :
      (key : String) (item : Item V) (c : Cache V)
      → IsValid c
      → (is_some (find key c) ≡ true) ⊎ (has_room c ≡ true)
      → IsValid (record c { items = GoMap.put String-discrete key item c.items })
  put-IsValid key item c h room = ground (
    arith,
    GoMap.put-IsDistinct String-discrete key item c.items,
    GoMap.size-put String-discrete key item c.items,
  )

  -- Every call keeps the cache valid, and leaves its maximum as it is.
  pub call-IsValid :
      (x : Call V) (c : Cache V)
      → IsValid c
      → IsValid (call x c) × ((call x c).max_items ≡ c.max_items)
  unfolding call Cache.set Cache.add Cache.delete Cache.clear Cache.set_expiration
      Cache.delete_expired
  call-IsValid (set key value expiration now) c h =
      ground (arith, put-IsValid key (Cache.new_item value expiration now) c)
  call-IsValid (add key value expiration now) c h =
      ground (arith, put-IsValid key (Cache.new_item value expiration now) c)
  call-IsValid (delete key) c h = ground (
    arith,
    GoMap.delete-IsDistinct String-discrete key c.items,
    GoMap.size-delete-le String-discrete key c.items,
  )
  call-IsValid clear c h = ground arith
  call-IsValid (set_expiration key expiration now) c h = elim (Option-cases (find key c)) [
    | inl e ↦ rw (e, Cache.set_expiration) (h, refl)
    | inr (item, e) ↦
        rw (e, Cache.set_expiration)
          (
            put-IsValid key (record item { expiration = now +ℤ expiration }) c h (ground arith),
            refl,
          )
  ]
  call-IsValid (delete_expired clock) c h =
      ground (arith, sweep-IsDistinct clock c.items, size-sweep-le clock c.items)

  run-max_items :
      (xs : List (Call V)) (c : Cache V)
      → IsValid c
      → IsValid (run xs c) × ((run xs c).max_items ≡ c.max_items)
  unfolding run
  run-max_items [] c h = (h, refl)
  run-max_items (x ∷ xs) c h =
      let (valid, same) = call-IsValid x c h in
      let (valid', same') = run-max_items xs (call x c) valid in (valid', same' ∙ same)

-- After any calls on a new cache no key stands twice, and the cache holds at most `max_items`
-- items: none at all if that number is not positive.
pub run-IsValid :
    {V : Type 0} (max_items : ℤ) (xs : List (Call V))
    → IsValid (run xs (Cache.new max_items))
      × (Cache.item_count (run xs (Cache.new max_items)) ≤ pos_part max_items)
unfolding Cache.item_count Cache.new
run-IsValid max_items xs =
    let (valid, same) =
      run-max_items xs (record { items = []; max_items = max_items })
        (record { distinct = tt; bounded = omega arith }) in
    (valid, rw same at valid.bounded)
