-- ===== src/Git/Lists.antt =====
-- The comparisons that `gitContentConfigChanged` of internal/controller/gitrepository_controller.go
-- makes one by one.
use source_controller.Common.{
  ◌≡◌, refl, ap, ◌∙◌, ◌↔◌, String, Bool, true, false, not, ◌||◌, Option, none, some, List, [], ◌∷◌,
  length, arith,
}
use source_controller.Storage.{Artifact, has_revision, has_digest}
use source_controller.Git.{
  GitRepositoryInclude, git_repository_include_equal, ptr_equal, dirs_changed, included_changed,
  includes_changed, sizes_differ, same_bool,
}

pub or-false : (a b : Bool) → ((a || b) ≡ false) ↔ ((a ≡ false) × (b ≡ false))
or-false true b = (λ h. absurd (ground (arith, h)), λ h. absurd (ground (arith, h.0)))
or-false false b = (λ h. (refl, h), λ h. h.1)

pub sizes-false :
    {A B : Type 0} (a : List A) (b : List B) → (sizes_differ a b ≡ false) ↔ (length a ≡ length b)
sizes-false a b = (λ h. ground (arith, h), λ h. ground (arith, h))

pub ptr_equal-true : (a b : Option String) → (not (ptr_equal a b) ≡ false) ↔ (a ≡ b)
unfolding ptr_equal
ptr_equal-true none none = (λ h. refl, λ h. refl)
ptr_equal-true none (some b) = (λ h. absurd (ground (arith, h)), λ h. absurd (ground (arith, h)))
ptr_equal-true (some a) none = (λ h. absurd (ground (arith, h)), λ h. absurd (ground (arith, h)))
ptr_equal-true (some a) (some b) = (λ h. ground (arith, h), λ h. ground (arith, h))

pub dirs_changed-false :
    (a b : List String) → length a ≡ length b → (dirs_changed a b ≡ false) ↔ (a ≡ b)
unfolding dirs_changed
dirs_changed-false [] [] n = (λ h. refl, λ h. refl)
dirs_changed-false [] (y ∷ b) n = absurd (ground (arith, n))
dirs_changed-false (x ∷ a) [] n = absurd (ground (arith, n))
dirs_changed-false (x ∷ a) (y ∷ b) n =
    let (to, from) = dirs_changed-false a b (omega (arith, n)) in
    (λ h. ground (arith, h, to), λ h. ground (arith, h, from))

-- The included artifacts of the status are those of the set, by their revisions and digests.
abbrev pub AllMatch : List (Option Artifact) → List Artifact → Type 0
AllMatch [] [] = Unit
AllMatch (some a ∷ l) (b ∷ m) = (a.revision ≡ b.revision) × (a.digest ≡ b.digest) × AllMatch l m
AllMatch _ _ = ⊥

include_of : String → String → String → GitRepositoryInclude
include_of r f t = record { git_repository_ref = r; from_path = f; to_path = t }

include_equal-true :
    (a b : GitRepositoryInclude) → (not (git_repository_include_equal a b) ≡ false) ↔ (a ≡ b)
unfolding git_repository_include_equal include_of
include_equal-true a b = (
  λ h.
      let r : a.git_repository_ref ≡ b.git_repository_ref = ground (arith, h) in
      let f : a.from_path ≡ b.from_path = ground (arith, h) in
      let t : a.to_path ≡ b.to_path = ground (arith, h) in
      ap (λ x. include_of x a.from_path a.to_path) r
      ∙ ap (λ x. include_of b.git_repository_ref x a.to_path) f
      ∙ ap (λ x. include_of b.git_repository_ref b.from_path x) t,
  λ h.
      let r : a.git_repository_ref ≡ b.git_repository_ref = ap (λ x. x.git_repository_ref) h in
      let f : a.from_path ≡ b.from_path = ap (λ x. x.from_path) h in
      let t : a.to_path ≡ b.to_path = ap (λ x. x.to_path) h in ground (arith, r, f, t),
)

included_changed-false :
    (a : Artifact) (b : Artifact)
    → (included_changed (some a) b ≡ false) ↔ ((a.revision ≡ b.revision) × (a.digest ≡ b.digest))
unfolding included_changed has_revision has_digest
included_changed-false a b =
    (λ h. (ground (arith, h), ground (arith, h)), λ h. ground (arith, h.0, h.1))

pub includes_changed-false :
    (a b : List GitRepositoryInclude) (l : List (Option Artifact)) (m : List Artifact)
    → length a ≡ length b
    → length a ≡ length l
    → length a ≡ length m
    → (includes_changed a b l m ≡ false) ↔ ((a ≡ b) × AllMatch l m)
unfolding includes_changed included_changed has_revision
includes_changed-false [] [] [] [] n o p = (λ h. (refl, tt), λ h. refl)
includes_changed-false [] [] [] (x ∷ m) n o p = absurd (ground (arith, p))
includes_changed-false [] [] (x ∷ l) m n o p = absurd (ground (arith, o))
includes_changed-false [] (x ∷ b) l m n o p = absurd (ground (arith, n))
includes_changed-false (x ∷ a) [] l m n o p = absurd (ground (arith, n))
includes_changed-false (x ∷ a) (y ∷ b) [] m n o p = absurd (ground (arith, o))
includes_changed-false (x ∷ a) (y ∷ b) (z ∷ l) [] n o p = absurd (ground (arith, p))
includes_changed-false (x ∷ a) (y ∷ b) (none ∷ l) (c ∷ m) n o p =
    (λ h. absurd (ground (arith, h)), λ h. absurd h.1)
includes_changed-false (x ∷ a) (y ∷ b) (some z ∷ l) (c ∷ m) n o p =
    let (to, from) =
      includes_changed-false a b l m (omega (arith, n)) (omega (arith, o)) (omega (arith, p)) in
    let (eq_to, eq_from) = include_equal-true x y in
    let (in_to, in_from) = included_changed-false z c in
    let (or_to, or_from) =
      or-false (not (git_repository_include_equal x y))
        (included_changed (some z) c || includes_changed a b l m) in
    let (or_to', or_from') = or-false (included_changed (some z) c) (includes_changed a b l m) in
    (
      λ h.
          let (e, h') = or_to h in
          let (i, r) = or_to' h' in
          let (tail, all) = to r in
          let (rev, dig) = in_to i in
          (ap (λ x. x ∷ a) (eq_to e) ∙ ap (λ t. y ∷ t) tail, (rev, dig, all)),
      λ h.
          let heads : x ≡ y = ground (arith, h.0) in
          let tails : a ≡ b = ground (arith, h.0) in
          or_from (eq_from heads, or_from' (in_from (h.1.0, h.1.1), from (tails, h.1.2))),
    )

pub length-AllMatch :
    (l : List (Option Artifact)) (m : List Artifact) → AllMatch l m → length l ≡ length m
length-AllMatch [] [] h = refl
length-AllMatch [] (x ∷ m) h = absurd h
length-AllMatch (none ∷ l) m h = absurd h
length-AllMatch (some a ∷ l) [] h = absurd h
length-AllMatch (some a ∷ l) (x ∷ m) h = omega (arith, length-AllMatch l m h.2)

pub same_bool-true : (a b : Bool) → (not (same_bool a b) ≡ false) ↔ (a ≡ b)
same_bool-true a b = (λ h. ground (arith, h), λ h. ground (arith, h))
