-- ===== src/Index/Content.antt =====
-- The content of the index of internal/index/digest.go, and its text.
use Prim.Native.String as Text
use text.Mathlib.TextLemmas.{append-nil, append_assoc}
use text.Mathlib.TextPositions.{len-append}
use source_controller.Common.{
  ℕ, ◌+◌, ◌≡◌, ◌≢◌, refl, sym, ap, subst, ◌∙◌, String, true, false, Option, none, List, [], ◌∷◌,
  arith, String-discrete, Option-cases, inl, inr,
}
use source_controller.Common.GoMap
use source_controller.Common.GoMap.{GoMap}
use source_controller.Errors.{Err}
use source_controller.Index.{
  Digester, reset, add, delete, value_of, get, has, write_line, sorted_keys, lines, string,
  write_lines, write_to,
}

-- After Add the key has the value, and any other key is as it was.
pub get-add :
    (key value q : String) (i : Digester)
    → key ≢ q
    → (get key (add key value i) ≡ value)
      × (has key (add key value i) ≡ true)
      × (get q (add key value i) ≡ get q i)
      × (has q (add key value i) ≡ has q i)
unfolding get has add reset value_of
get-add key value q i n =
    let found = GoMap.get-put_self String-discrete key value i.index in
    let kept = GoMap.get-put_ne String-discrete key q value i.index n in
    (rw (found, value_of) refl, rw found refl, rw (kept, value_of) refl, rw kept refl)

pub get-reset :
    (key q : String) (i : Digester)
    → GoMap.get String-discrete q (delete key i).index
      ≡ GoMap.get String-discrete q (GoMap.delete String-discrete key i.index)
unfolding delete reset
get-reset key q i = elim (Option-cases (GoMap.get String-discrete key i.index)) [
  | inl e ↦ rw (e, delete) (unchanged i.index e)
  | inr (v, e) ↦ rw (e, delete) refl
]
  where
    unchanged :
        (m : GoMap String String)
        → GoMap.get String-discrete key m ≡ none
        → GoMap.get String-discrete q m
          ≡ GoMap.get String-discrete q (GoMap.delete String-discrete key m)
    unchanged m e = elim (String-discrete key q) [
      | yes p ↦
          subst
            (λ x.
              GoMap.get String-discrete x m
              ≡ GoMap.get String-discrete x (GoMap.delete String-discrete key m))
            p (e ∙ sym (GoMap.get-delete_self String-discrete key m))
      | no n ↦ sym (GoMap.get-delete_ne String-discrete key q m n)
    ]

-- After Delete the key is missing, and any other key is as it was.
pub get-delete_key :
    (key q : String) (i : Digester)
    → key ≢ q
    → (get key (delete key i) ≡ "")
      × (has key (delete key i) ≡ false)
      × (get q (delete key i) ≡ get q i)
      × (has q (delete key i) ≡ has q i)
unfolding get has value_of
get-delete_key key q i n =
    let gone = get-reset key key i ∙ GoMap.get-delete_self String-discrete key i.index in
    let kept = get-reset key q i ∙ GoMap.get-delete_ne String-discrete key q i.index n in
    (rw (gone, value_of) refl, rw gone refl, rw (kept, value_of) refl, rw kept refl)

module _ (sort : List String → List String) where
  -- A writer, as far as its calls without an error go: they count all bytes and append the text.
  pub record WriterLaws {W : Type 0} (write : String → W → W × ℕ × Option Err)
      (content : W → String) : Type 0 where
    pub counts : (s : String) (w w' : W) (n : ℕ) → write s w ≡ (w', n, none) → n ≡ Text.len s
    pub appends :
        (s : String) (w w' : W) (n : ℕ)
        → write s w ≡ (w', n, none)
        → content w' ≡ Text.◌++◌ (content w) s

  module _ {W : Type 0} (write : String → W → W × ℕ × Option Err) (content : W → String)
      (laws : WriterLaws write content) where
    write_lines_done :
        (m : GoMap String String) (ks : List String) (n0 n : ℕ) (w w' : W)
        → write_lines sort write m ks n0 w ≡ (w', n, none)
        → (n ≡ n0 + Text.len (lines sort m ks))
          × (content w' ≡ Text.◌++◌ (content w) (lines sort m ks))
    unfolding write_lines lines
    write_lines_done m [] n0 n w w' e = (
      ground (arith, ap (λ o. o.1) e),
      ap content (sym (ap (λ o. o.0) e)) ∙ sym (append-nil (content w)),
    )
    write_lines_done m (k ∷ ks) n0 n w w' e =
        let line = write_line k (value_of m k) in
        let o = write line w in
        elim (Option-cases o.2) [
          | inr (x, u) ↦ absurd (ground (arith, ap (λ o. o.2) (rw (u, write_lines) at e)))
          | inl u ↦
              let written : o ≡ (o.0, o.1, none) = ap (λ x. (o.0, o.1, x)) u in
              let counted : o.1 ≡ Text.len line = laws.counts line w o.0 o.1 written in
              let (a, b) = write_lines_done m ks (n0 + o.1) n o.0 w' (rw (u, write_lines) at e) in
              (
                omega (arith, a, counted, len-append line (lines sort m ks)),
                b
                    ∙ ap (λ c. Text.◌++◌ c (lines sort m ks)) (laws.appends line w o.0 o.1 written)
                    ∙ append_assoc (content w) line (lines sort m ks),
              )
        ]

    -- A WriteTo without an error has appended the text of the index and counted its bytes.
    pub write_to-string :
        (i : Digester) (w w' : W) (n : ℕ)
        → write_to sort write i w ≡ (w', n, none)
        → (n ≡ Text.len (string sort i)) × (content w' ≡ Text.◌++◌ (content w) (string sort i))
    unfolding write_to string sorted_keys
    write_to-string i w w' n e =
        let (a, b) = write_lines_done i.index (sort (GoMap.keys i.index)) 0 n w w' e in
        (omega (arith, a), b)
