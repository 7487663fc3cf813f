-- ===== src/Cache.antt =====
-- The in-memory cache, internal/cache/cache.go. A method that takes the mutex is one step here:
-- it returns the new cache beside its result. `time.Now().UnixNano()` is an argument, one for each
-- call of the clock, and times and durations are integers of nanoseconds. Additions of a duration
-- to a time are exact: readings of the clock and expirations stay far below 2^63 nanoseconds.
pub mod Calls
pub mod Lookup
pub mod Expiry
mod Tests
use source_controller.Common.{
  ℕ, zero, suc, String, Bool, true, false, ◌&&◌, Option, none, some, List, [], ◌∷◌, if◌then◌else◌,
  is_some, String-discrete,
}
use source_controller.Common.Int.{ℤ, pos, ◌+ℤ◌, ◌-ℤ◌, ltb_ℤ}
use source_controller.Common.GoMap
use source_controller.Common.GoMap.{GoMap, size}

pub record Item (V : Type 0) : Type 0 where
  pub object : V
  pub expiration : ℤ

pub record Cache (V : Type 0) : Type 0 where
  pub items : GoMap String (Item V)
  pub max_items : ℤ

pub data CacheError : Type 0 where
  cache_is_full : CacheError
  item_already_exists : String → CacheError

module _ {V : Type 0} where
  -- The item stored under a key.
  abbrev pub find : String → Cache V → Option (Item V)
  find key c = GoMap.get String-discrete key c.items

  -- The test of `Get`, `HasExpired`, `GetExpiration` and `DeleteExpired` on an item.
  abbrev pub is_expired : Item V → ℤ → Bool
  is_expired item now = ltb_ℤ (pos 0) item.expiration && ltb_ℤ item.expiration now

  unfoldable pub item_count : Cache V → ℕ
  item_count c = size c.items

  -- The item that the unexported `set` stores.
  abbrev pub new_item : V → ℤ → ℤ → Item V
  new_item value expiration now = record {
    object = value;
    expiration = if ltb_ℤ (pos 0) expiration then now +ℤ expiration else pos 0;
  }

  -- The unexported `set`.
  unfoldable pub set_item : String → V → ℤ → ℤ → Cache V → Cache V
  set_item key value expiration now c = record c {
    items = GoMap.put String-discrete key (new_item value expiration now) c.items;
  }

  abbrev pub has_room : Cache V → Bool
  has_room c = ltb_ℤ (pos 0) c.max_items && ltb_ℤ (pos (size c.items)) c.max_items

  unfoldable pub set : String → V → ℤ → ℤ → Cache V → Cache V × Option CacheError
  unfolding set_item
  set key value expiration now c =
      if is_some (find key c)
      then (set_item key value expiration now c, none)
      else if has_room c
      then (set_item key value expiration now c, none)
      else (c, some cache_is_full)

  unfoldable pub add : String → V → ℤ → ℤ → Cache V → Cache V × Option CacheError
  unfolding set_item
  add key value expiration now c =
      if is_some (find key c)
      then (c, some (item_already_exists key))
      else if has_room c
      then (set_item key value expiration now c, none)
      else (c, some cache_is_full)

  get_from : Option (Item V) → ℤ → Option V
  get_from none now = none
  get_from (some item) now = if is_expired item now then none else some item.object

  -- `none` stands for the result `nil, false`.
  unfoldable pub get : String → ℤ → Cache V → Option V
  unfolding get_from
  get key now c = get_from (find key c) now

  unfoldable pub delete : String → Cache V → Cache V
  delete key c = record c { items = GoMap.delete String-discrete key c.items }

  unfoldable pub clear : Cache V → Cache V
  clear c = record c { items = [] }

  has_expired_from : Option (Item V) → ℤ → Bool
  has_expired_from none now = true
  has_expired_from (some item) now = if is_expired item now then true else false

  unfoldable pub has_expired : String → ℤ → Cache V → Bool
  unfolding has_expired_from
  has_expired key now c = has_expired_from (find key c) now

  set_expiration_of : Option (Item V) → String → ℤ → ℤ → Cache V → Cache V
  set_expiration_of none key expiration now c = c
  set_expiration_of (some item) key expiration now c = record c {
    items = GoMap.put String-discrete key (record item { expiration = now +ℤ expiration }) c.items;
  }

  unfoldable pub set_expiration : String → ℤ → ℤ → Cache V → Cache V
  unfolding set_expiration_of
  set_expiration key expiration now c = set_expiration_of (find key c) key expiration now c

  get_expiration_from : Option (Item V) → ℤ → ℤ → ℤ
  get_expiration_from none now now' = pos 0
  get_expiration_from (some item) now now' =
      if is_expired item now then pos 0 else item.expiration -ℤ now'

  -- The clock is read twice: for the test, and for the result.
  unfoldable pub get_expiration : String → ℤ → ℤ → Cache V → ℤ
  unfolding get_expiration_from
  get_expiration key now now' c = get_expiration_from (find key c) now now'

  -- The loop of `DeleteExpired`: `clock i` is the reading at the i-th entry.
  unfoldable pub sweep : (ℕ → ℤ) → GoMap String (Item V) → GoMap String (Item V)
  sweep clock [] = []
  sweep clock ((k, item) ∷ m) =
      let rest = sweep (λ i. clock (suc i)) m in
      if is_expired item (clock 0) then rest else (k, item) ∷ rest

  unfoldable pub delete_expired : (ℕ → ℤ) → Cache V → Cache V
  unfolding sweep
  delete_expired clock c = record c { items = sweep clock c.items }

unfoldable pub new : {V : Type 0} → ℤ → Cache V
new max_items = record { items = []; max_items = max_items }
