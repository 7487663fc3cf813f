-- ===== src/Index.antt =====
-- The key and value index with cached digests, internal/index/digest.go. A method is one step under
-- the mutex. The sort of the keys and the digest library are parameters; a digester and a verifier
-- see what is written to them as one text.
pub mod Content
pub mod Digests
pub mod Refined
mod Tests
use Prim.Native.String as Text
use Prim.Native.String.{◌++◌ as ◌append◌}
use source_controller.Common.{
  ℕ, ◌+◌, ◌≡◌, String, Bool, true, false, Option, none, some, List, [], ◌∷◌, is_some,
  String-discrete,
}
use source_controller.Common.GoMap
use source_controller.Common.GoMap.{GoMap}
use source_controller.Errors.{Err}

pub record Digester : Type 0 where
  pub index : GoMap String String
  -- By algorithm.
  pub digests : GoMap String String

unfoldable pub reset : Digester → Digester
reset i = record i { digests = [] }

-- The copy of a map into the index, entry by entry.
unfoldable pub put_all : GoMap String String → GoMap String String → GoMap String String
put_all [] index = index
put_all ((k, v) ∷ m) index = put_all m (GoMap.put String-discrete k v index)

-- WithIndex; `none` is the nil map.
unfoldable pub with_index : Option (GoMap String String) → Digester → Digester
unfolding reset
with_index none d = d
with_index (some m) d = reset (record d { index = put_all m d.index })

apply_all : List (Digester → Digester) → Digester → Digester
apply_all [] d = d
apply_all (opt ∷ opts) d = apply_all opts (opt d)

unfoldable pub new_digester : List (Digester → Digester) → Digester
unfolding apply_all
new_digester opts = apply_all opts (record { index = []; digests = [] })

unfoldable pub add : String → String → Digester → Digester
unfolding reset
add key value i = reset (record i { index = GoMap.put String-discrete key value i.index })

unfoldable pub delete : String → Digester → Digester
unfolding reset
delete key i = elim (GoMap.get String-discrete key i.index) [
  | none ↦ i
  | some v ↦ reset (record i { index = GoMap.delete String-discrete key i.index })
]

-- The value of a key; a missing key has the empty one.
unfoldable pub value_of : GoMap String String → String → String
value_of index key = elim (GoMap.get String-discrete key index) [ none ↦ "" | some v ↦ v ]

unfoldable pub get : String → Digester → String
unfolding value_of
get key i = value_of i.index key

unfoldable pub has : String → Digester → Bool
has key i = is_some (GoMap.get String-discrete key i.index)

unfoldable pub len : Digester → ℕ
len i = GoMap.size i.index

-- What `writeLine` writes.
unfoldable pub write_line : String → String → String
write_line key value = Text.◌++◌ key (Text.◌++◌ " " (Text.◌++◌ value "\n"))

module _ (sort : List String → List String) where
  unfoldable pub sorted_keys : Digester → List String
  sorted_keys i = sort (GoMap.keys i.index)

  unfoldable pub lines : GoMap String String → List String → String
  unfolding value_of write_line
  lines index [] = ""
  lines index (k ∷ ks) = Text.◌++◌ (write_line k (value_of index k)) (lines index ks)

  unfoldable pub string : Digester → String
  unfolding lines sorted_keys
  string i = lines i.index (sorted_keys i)

  module _ {W : Type 0} (write : String → W → W × ℕ × Option Err) where
    -- The loop of `WriteTo`, which ends at the first error with the count up to it.
    unfoldable pub write_lines : GoMap String String → List String → ℕ → W → W × ℕ × Option Err
    unfolding value_of write_line
    write_lines index [] n w = (w, n, none)
    write_lines index (k ∷ ks) n w =
        let (w', nn, err) = write (write_line k (value_of index k)) w in
        let rest = write_lines index ks (n + nn) w' in
        elim err [ none ↦ rest | some e ↦ (w', n + nn, some e) ]

    unfoldable pub write_to : Digester → W → W × ℕ × Option Err
    unfolding write_lines sorted_keys
    write_to i w = write_lines i.index (sorted_keys i) 0 w

  module _ (hash : String → String → String) (verified : String → String → Bool) where
    -- Digest, with the cache it leaves.
    unfoldable pub digest : String → Digester → Digester × String
    unfolding string
    digest a i = elim (GoMap.get String-discrete a i.digests) [
      | some d ↦ (i, d)
      | none ↦
          let d = hash a (string i) in
          (record i { digests = GoMap.put String-discrete a d i.digests }, d)
    ]

    unfoldable pub verify : String → Digester → Bool
    unfolding string
    verify d i = verified d (string i)
