-- ===== src/Cache/Tests.antt =====
-- Runs of the cache of internal/cache/cache.go, and its theorems at a concrete cache.
use source_controller.Common.{
  ℕ, ◌≤◌, ◌≡◌, refl, ◌≢◌, ◌↔◌, true, ◌&&◌, ◌⊎◌, none, some, List, [], ◌∷◌, arith, String-discrete,
  if◌then◌else◌, is_some,
}
use source_controller.Common.Int.{pos, pos_part, ◌+ℤ◌, ◌-ℤ◌, ltb_ℤ}
use source_controller.Common.GoMap
use source_controller.Cache
use source_controller.Cache.{Cache, Item, cache_is_full, item_already_exists, find, is_expired}
use source_controller.Cache.Calls
use source_controller.Cache.Calls.{Call, IsValid}
use source_controller.Cache.Lookup
use source_controller.Cache.Lookup.{IsFull}
use source_controller.Cache.Expiry

program : Unit {0}
unfolding GoMap.get GoMap.put GoMap.delete String-discrete Cache.set Cache.add Cache.get
    Cache.delete Cache.has_expired Cache.set_expiration Cache.get_expiration Cache.delete_expired
    Cache.new Cache.item_count Calls.call Calls.run ◌+ℤ◌ ◌-ℤ◌
program = tt

abbrev calls : List (Call ℕ)
calls =
    Call.set "a" 1 (pos 10) (pos 100)
    ∷ Call.add "b" 2 (pos 0) (pos 101)
    ∷ Call.set "c" 3 (pos 5) (pos 102)
    ∷ []

abbrev two_items : Cache ℕ
two_items = record {
  items =
      ("a", record { object = 1; expiration = pos 110 })
      ∷ ("b", record { object = 2; expiration = pos 0 })
      ∷ [];
  max_items = pos 2;
}

-- The third key finds no room.
run-calls : Calls.run calls (Cache.new (pos 2)) ≡ two_items
unfolding program
run-calls = refl

get_at_deadline :
    (Cache.get "a" (pos 110) two_items ≡ some 1) × (Cache.get "a" (pos 111) two_items ≡ none)
unfolding program
get_at_deadline = (refl, refl)

run-IsValid_example :
    IsValid (Calls.run calls (Cache.new (pos 2)))
    × (Cache.item_count (Calls.run calls (Cache.new (pos 2))) ≤ pos_part (pos 2))
run-IsValid_example = Calls.run-IsValid (pos 2) calls

two_items-IsValid : IsValid two_items
unfolding program
two_items-IsValid = record { distinct = (refl, (refl, tt)); bounded = omega arith }

set-IsFull_example :
    ((Cache.set "c" 3 (pos 5) (pos 102) two_items).1 ≡ none
      ↔ ((is_some (find "c" two_items) ≡ true) ⊎ (¬ IsFull two_items)))
    × ((Cache.set "c" 3 (pos 5) (pos 102) two_items).1 ≢ none
        → Cache.set "c" 3 (pos 5) (pos 102) two_items ≡ (two_items, some cache_is_full))
set-IsFull_example = Lookup.set-IsFull "c" 3 (pos 5) (pos 102) two_items

get-set_key_example :
    Cache.get "a" (pos 118) (Cache.set "a" 7 (pos 5) (pos 112) two_items).0
    ≡ (if ltb_ℤ (pos 0) (pos 5) && ltb_ℤ (pos 112 +ℤ pos 5) (pos 118) then none else some 7)
unfolding program
get-set_key_example =
    Lookup.get-set_key "a" 7 (pos 5) (pos 112) two_items (pos 118) (omega arith) refl

get-delete_expired_example :
    Cache.get "a" (pos 120) (Cache.delete_expired (λ _. pos 111) two_items)
    ≡ Cache.get "a" (pos 120) two_items
get-delete_expired_example =
    Expiry.get-delete_expired "a" (pos 120) (λ _. pos 111) two_items two_items-IsValid
      (λ i. omega arith)
