-- ===== src/Cache/Lookup.antt =====
-- What a lookup finds after each call on the cache of internal/cache/cache.go.
use source_controller.Common.{
  ◌≤◌, String, ◌≡◌, refl, ◌≢◌, ◌↔◌, true, not, ◌&&◌, ◌⊎◌, none, some, arith, String-discrete,
  is_some, if◌then◌else◌,
}
use source_controller.Common.Int.{ℤ, pos, pos_part, ◌+ℤ◌, ◌≤ℤ◌, ltb_ℤ, +ℤ_parts}
use source_controller.Common.GoMap
use source_controller.Common.GoMap.{size}
use source_controller.Cache
use source_controller.Cache.{
  Cache, Item, CacheError, cache_is_full, item_already_exists, find, has_room, is_expired,
}

-- No room for a new key: no positive maximum, or as many items as it allows.
abbrev pub IsFull : {V : Type 0} → Cache V → Type 0
IsFull c = pos_part c.max_items ≤ Cache.item_count c

module _ {V : Type 0} (key : String) (value : V) (expiration now : ℤ) (c : Cache V) where
  -- `Set` succeeds exactly when the key is there or the cache is not full; when it fails, it
  -- changes nothing.
  pub set-IsFull :
      ((Cache.set key value expiration now c).1 ≡ none
        ↔ ((is_some (find key c) ≡ true) ⊎ (¬ IsFull c)))
      × ((Cache.set key value expiration now c).1 ≢ none
          → Cache.set key value expiration now c ≡ (c, some cache_is_full))
  unfolding Cache.set Cache.item_count
  set-IsFull = ((λ h. ground arith, λ h. ground arith), λ h. ground arith)

  -- `Add` succeeds only for a new key in a cache with room; it then does what `Set` does, and
  -- otherwise it changes nothing, and the error says which of the two was in the way.
  pub add-set :
      (is_some (find key c) ≡ true
        → Cache.add key value expiration now c ≡ (c, some (item_already_exists key)))
      × (find key c ≡ none
          → Cache.add key value expiration now c ≡ Cache.set key value expiration now c)
  unfolding Cache.set Cache.add
  add-set = (λ h. ground arith, λ n. ground arith)

  -- After a successful `Set` the value is found until `expiration` has passed, and for ever
  -- if the expiration is not positive; it is not found later.
  pub get-set_key :
      (later : ℤ)
      → pos 0 ≤ℤ now
      → (Cache.set key value expiration now c).1 ≡ none
      → Cache.get key later (Cache.set key value expiration now c).0
        ≡ (if ltb_ℤ (pos 0) expiration && ltb_ℤ (now +ℤ expiration) later then none else some value)
  unfolding Cache.get Cache.set
  get-set_key later h ok = ground (
    arith,
    GoMap.get-put_self String-discrete key (Cache.new_item value expiration now) c.items,
    +ℤ_parts now expiration,
  )

  -- `Set` of one key leaves every other key as it is.
  pub get-set_other :
      (q : String) (later : ℤ)
      → key ≢ q
      → Cache.get q later (Cache.set key value expiration now c).0 ≡ Cache.get q later c
  unfolding Cache.get Cache.set
  get-set_other q later h = ground (
    arith,
    GoMap.get-put_ne String-discrete key q (Cache.new_item value expiration now) c.items h,
  )

module _ {V : Type 0} (key : String) (c : Cache V) where
  -- A deleted key is gone, and every other key is as it was.
  pub get-delete :
      (q : String) (now : ℤ)
      → (key ≡ q → Cache.get q now (Cache.delete key c) ≡ none)
        × (key ≢ q → Cache.get q now (Cache.delete key c) ≡ Cache.get q now c)
  unfolding Cache.get Cache.delete
  get-delete q now = (
    λ e. rw (← e, GoMap.get-delete_self) refl,
    λ h. rw (GoMap.get-delete_ne String-discrete key q c.items h),
  )

  -- `HasExpired` answers true exactly where `Get` finds nothing, at the same time.
  pub has_expired-get :
      (now : ℤ) → Cache.has_expired key now c ≡ not (is_some (Cache.get key now c))
  unfolding Cache.has_expired Cache.get
  has_expired-get now = ground arith
