-- ===== src/Index/Tests.antt =====
-- The index of internal/index/digest.go with two entries.
use Prim.Native.String as Text
use source_controller.Common.{
  ℕ, ◌≡◌, refl, String, Bool, true, is_some, Option, none, some, List, [], ◌∷◌, ap, sym,
}
use source_controller.Errors.{Err}
use source_controller.Index.{Digester, has, get, string, digest, verify, new_digester, with_index}
use source_controller.Index.Digests
use source_controller.Index.Digests.{Change, run, added, deleted, digested}
use source_controller.Index.Refined
use source_controller.Index.Refined.{view, replay, value_or_empty}
use source_controller.Index.Content.{WriterLaws}

abbrev two_entries : Digester
two_entries = record { index = ("a", "1") ∷ ("b", "2") ∷ []; digests = [] }

-- A digest that keeps the text, and its check.
abbrev hash : String → String → String
hash a s = Text.◌++◌ a s

abbrev verified : String → String → Bool
verified d s = true

abbrev identity : List String → List String
identity l = l

abbrev changes : List Change
changes = digested "sha256:" ∷ added "c" "3" ∷ digested "sha256:" ∷ deleted "a" ∷ []

digest-run_example :
    (digest identity hash verified "sha256:" (
      run identity hash verified changes
        (new_digester (with_index (some (two_entries.index)) ∷ [])))).1
    ≡ hash "sha256:" (
        string identity (
          run identity hash verified changes
            (new_digester (with_index (some (two_entries.index)) ∷ []))))
digest-run_example =
    Digests.digest-run identity hash verified (some (two_entries.index)) changes "sha256:"

verify-digest_example :
    let i =
      run identity hash verified changes
        (new_digester (with_index (some (two_entries.index)) ∷ [])) in
    verify identity hash verified
      (digest identity hash verified "sha256:" i).1
      (digest identity hash verified "sha256:" i).0
    ≡ true
verify-digest_example =
    Digests.verify-digest identity hash verified (λ a s. refl) (some (two_entries.index)) changes
      "sha256:"

-- A writer that keeps all.
abbrev append : String → String → String × ℕ × Option Err
append s w = (Text.◌++◌ w s, Text.len s, none)

unfoldable appends : WriterLaws identity append (λ w. w)
appends = record {
  counts = λ s w w' n e. sym (ap (λ o. o.1) e);
  appends = λ s w w' n e. sym (ap (λ o. o.0) e);
}

run_refines_example :
    (get "a" (run identity hash verified changes two_entries)
      ≡ value_or_empty (replay changes (view two_entries) "a"))
    × (has "a" (run identity hash verified changes two_entries)
        ≡ is_some (replay changes (view two_entries) "a"))
    × (view (run identity hash verified changes two_entries) "a"
        ≡ replay changes (view two_entries) "a")
run_refines_example = Refined.run_refines identity hash verified changes two_entries "a"
