-- ===== src/Garbage/Oldest.antt =====
-- The order of the files in `getGarbageFiles` of internal/controller/storage.go: the sorted paths
-- are in the order of their time stamps.
use source_controller.Common.{
  ℕ, zero, suc, String, ◌≡◌, some, List, [], ◌∷◌, arith, All, All-map, take, Option-cases,
  Bool-cases, inl, inr, refl, subst,
}
use source_controller.Common.Int.{ℤ, ◌≤ℤ◌, ℤ-discrete}
use source_controller.Common.GoMap
use source_controller.Common.GoMap.{GoMap}
use source_controller.Errors.{ok, fail, Fallible, ◌>>=◌}
use source_controller.Garbage.{sorted_paths}
use source_controller.Garbage.Selection.{IsAscending}
use source_controller.Garbage.Retention.{eligible, is_eligible}

-- Each is related to those behind it.
abbrev IsPairwise : (String → String → Type 0) → List String → Type 0
IsPairwise R [] = Unit
IsPairwise R (p ∷ ps) = All (R p) ps × IsPairwise R ps

-- The list behind its first `n`.
abbrev pub drop : ℕ → List String → List String
drop zero ps = ps
drop (suc n) [] = []
drop (suc n) (p ∷ ps) = drop n ps

All-drop : (P : String → Type 0) (n : ℕ) (ps : List String) → All P ps → All P (drop n ps)
All-drop P zero ps h = h
All-drop P (suc n) [] h = tt
All-drop P (suc n) (p ∷ ps) h = All-drop P n ps h.1

IsPairwise-take :
    (R : String → String → Type 0) (n : ℕ) (ps : List String)
    → IsPairwise R ps
    → All (λ p. All (R p) (drop n ps)) (take n ps)
IsPairwise-take R zero ps h = tt
IsPairwise-take R (suc n) [] h = tt
IsPairwise-take R (suc n) (p ∷ ps) h = (All-drop (R p) n ps h.0, IsPairwise-take R n ps h.1)

module _ (ext : String → String) (local_path : String) where
  All-eligible :
      (P : String → Type 0) (ps : List String) → All P ps → All P (eligible ext local_path ps)
  All-eligible P [] h = tt
  All-eligible P (p ∷ ps) h = elim (Bool-cases (is_eligible ext local_path p)) [
    | inl e ↦ rw e (h.0, All-eligible P ps h.1)
    | inr e ↦ rw e (All-eligible P ps h.1)
  ]

  IsPairwise-eligible :
      (R : String → String → Type 0) (ps : List String)
      → IsPairwise R ps
      → IsPairwise R (eligible ext local_path ps)
  IsPairwise-eligible R [] h = tt
  IsPairwise-eligible R (p ∷ ps) h = elim (Bool-cases (is_eligible ext local_path p)) [
    | inl e ↦ rw e (All-eligible (R p) ps h.0, IsPairwise-eligible R ps h.1)
    | inr e ↦ rw e (IsPairwise-eligible R ps h.1)
  ]

module _ (files : GoMap ℤ String) where
  -- The first file has a time stamp that is not later than one of the second.
  abbrev pub IsOlder : String → String → Type 0
  IsOlder p q =
      (t : ℤ) × (u : ℤ) × (GoMap.get ℤ-discrete t files ≡ some p)
      × (GoMap.get ℤ-discrete u files ≡ some q)
      × (t ≤ℤ u)

  abbrev From : ℤ → String → Type 0
  From t q = (u : ℤ) × (GoMap.get ℤ-discrete u files ≡ some q) × (t ≤ℤ u)

  bind-ok :
      (p : String) (r : Fallible (List String)) (ps : List String)
      → (r >>= (λ paths. ok (p ∷ paths))) ≡ ok ps
      → (qs : List String) × (r ≡ ok qs) × (p ∷ qs ≡ ps)
  bind-ok p (ok qs) ps h = (qs, refl, ground (arith, h))
  bind-ok p (fail e) ps h = absurd (ground (arith, h))

  -- The first path of the sorted ones, and the rest.
  sorted_paths-cons :
      (t : ℤ) (ts : List ℤ) (ps : List String)
      → sorted_paths files (t ∷ ts) ≡ ok ps
      → (p : String) × (qs : List String) × (GoMap.get ℤ-discrete t files ≡ some p)
        × (sorted_paths files ts ≡ ok qs)
        × (p ∷ qs ≡ ps)
  unfolding sorted_paths
  sorted_paths-cons t ts ps h = elim (Option-cases (GoMap.get ℤ-discrete t files)) [
    | inl e ↦ absurd (ground (arith, rw (e, sorted_paths) at h))
    | inr (p, e) ↦
        let (qs, found, same) = bind-ok p (sorted_paths files ts) ps (rw (e, sorted_paths) at h) in
        (p, qs, e, found, same)
  ]

  sorted_paths-From :
      (t : ℤ) (ts : List ℤ) (ps : List String)
      → All (λ u. t ≤ℤ u) ts
      → sorted_paths files ts ≡ ok ps
      → All (From t) ps
  unfolding sorted_paths
  sorted_paths-From t [] ps b h =
      let empty : [] ≡ ps = ground (arith, h) in subst (All (From t)) empty tt
  sorted_paths-From t (u ∷ ts) ps b h =
      let (p, qs, e, found, same) = sorted_paths-cons u ts ps h in
      subst (All (From t)) same ((u, e, b.0), sorted_paths-From t ts qs b.1 found)

  sorted_paths-IsPairwise :
      (ts : List ℤ) (ps : List String)
      → IsAscending ts
      → sorted_paths files ts ≡ ok ps
      → IsPairwise IsOlder ps
  unfolding sorted_paths
  sorted_paths-IsPairwise [] ps a h =
      let empty : [] ≡ ps = ground (arith, h) in subst (IsPairwise IsOlder) empty tt
  sorted_paths-IsPairwise (t ∷ ts) ps a h =
      let (p, qs, e, found, same) = sorted_paths-cons t ts ps h in
      subst (IsPairwise IsOlder) same (
        All-map (From t) (IsOlder p) qs (λ q f. (t, f.0, e, f.1, f.2))
            (sorted_paths-From t ts qs a.0 found),
        sorted_paths-IsPairwise ts qs a.1 found,
      )

  -- Of the eligible paths in the order of ascending time stamps, each of the first `n` is not newer
  -- than each of the others.
  pub take_oldest :
      (ext : String → String) (local_path : String) (n : ℕ) (ts : List ℤ) (ps : List String)
      → IsAscending ts
      → sorted_paths files ts ≡ ok ps
      → All
          (λ p. All (IsOlder p) (drop n (eligible ext local_path ps)))
          (take n (eligible ext local_path ps))
  take_oldest ext local_path n ts ps a h =
      IsPairwise-take IsOlder n (eligible ext local_path ps)
        (IsPairwise-eligible ext local_path IsOlder ps (sorted_paths-IsPairwise ts ps a h))
