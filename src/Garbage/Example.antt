-- ===== src/Garbage/Example.antt =====
-- A sort of the time stamps that meets what is asked of it, and a directory of five files.
use source_controller.Common.{
  ℕ, suc, String, ◌≡◌, refl, false, none, List, [], ◌∷◌, arith, length, All, All-map, Bool-cases,
  inl, inr, if◌then◌else◌,
}
use source_controller.Common.Int.{ℤ, pos, ltb_ℤ, ◌≤ℤ◌}
use source_controller.Errors.{ok}
use source_controller.Garbage.{DirEntry}
use source_controller.Garbage.Selection.{IsSort, IsAscending}

-- An insertion sort meets what is asked of the sort.
abbrev pub insert : ℤ → List ℤ → List ℤ
insert a [] = a ∷ []
insert a (b ∷ l) = let rest = insert a l in if ltb_ℤ b a then b ∷ rest else a ∷ b ∷ l

abbrev pub sort : List ℤ → List ℤ
sort [] = []
sort (a ∷ l) = insert a (sort l)

length-insert : (a : ℤ) (l : List ℤ) → length (insert a l) ≡ suc (length l)
length-insert a [] = refl
length-insert a (b ∷ l) = ground (arith, length-insert a l)

length-sort : (l : List ℤ) → length (sort l) ≡ length l
length-sort [] = refl
length-sort (a ∷ l) = ground (arith, length-insert a (sort l), length-sort l)

insert-All : (P : ℤ → Type 0) (a : ℤ) (l : List ℤ) → P a → All P l → All P (insert a l)
insert-All P a [] p h = (p, tt)
insert-All P a (b ∷ l) p h = ground (arith, insert-All P a l p h.1)

sort-All : (P : ℤ → Type 0) (l : List ℤ) → All P l → All P (sort l)
sort-All P [] h = tt
sort-All P (a ∷ l) h = insert-All P a (sort l) h.0 (sort-All P l h.1)

insert-IsAscending : (a : ℤ) (l : List ℤ) → IsAscending l → IsAscending (insert a l)
insert-IsAscending a [] h = (tt, tt)
insert-IsAscending a (b ∷ l) h = elim (Bool-cases (ltb_ℤ b a)) [
  | inl e ↦ rw e (insert-All (λ u. b ≤ℤ u) a l (ground (arith, e)) h.0, insert-IsAscending a l h.1)
  | inr e ↦
      let first : a ≤ℤ b = ground (arith, e) in
      rw e ((first, All-map (λ u. b ≤ℤ u) (λ u. a ≤ℤ u) l (λ u k. omega (arith, first, k)) h.0), h)
]

sort-IsAscending : (l : List ℤ) → IsAscending (sort l)
sort-IsAscending [] = tt
sort-IsAscending (a ∷ l) = insert-IsAscending a (sort l) (sort-IsAscending l)

pub sorts : IsSort sort
sorts = record { keeps_length = length-sort; keeps_all = sort-All; ascending = sort-IsAscending }

abbrev pub file : String → ℕ → DirEntry
file path t = record {
  path = path;
  walk_err = none;
  info = ok (record { mod_time = pos t; is_dir = false; is_symlink = false });
}

abbrev pub five_files : List DirEntry
five_files = file "c" 30 ∷ file "a" 10 ∷ file "e" 50 ∷ file "b" 20 ∷ file "d" 40 ∷ []
