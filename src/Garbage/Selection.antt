-- ===== src/Garbage/Selection.antt =====
-- The files that `getGarbageFiles` of internal/controller/storage.go returns.
use source_controller.Common.{
  ℕ, suc, String, ◌≡◌, refl, ap, ◌∙◌, Bool, true, false, Option, none, List, [], ◌∷◌, ◌++◌, arith,
  length, All, All-append, is_some, inl, inr, ◌⊎◌, Bool-cases, Option-cases, ltb,
}
use source_controller.Common.Int.{ℤ, ◌≤ℤ◌, pos, ◌-ℤ◌, ltb_ℤ, ℤ-discrete}
use source_controller.Common.GoMap
use source_controller.Common.GoMap.{GoMap}
use source_controller.Errors.{Err, ok}
use source_controller.Garbage.{
  DirEntry, Walk, walk_start, walk_dir, same, collect, sorted_paths, get_garbage_files,
}
use source_controller.Garbage.Walking.{
  IsArtifactFile, Has, Collected, walk_dir-Collected, walk_start-Collected,
}

-- Each time stamp is not later than those behind it.
abbrev pub IsAscending : List ℤ → Type 0
IsAscending [] = Unit
IsAscending (t ∷ ts) = All (λ u. t ≤ℤ u) ts × IsAscending ts

-- What the sort of Go's library is relied on for, with the comparison `Before`: it keeps the
-- elements and puts them in ascending order.
pub record IsSort (sort : List ℤ → List ℤ) : Type 1 where
  pub keeps_length : (l : List ℤ) → length (sort l) ≡ length l
  pub keeps_all : (P : ℤ → Type 0) (l : List ℤ) → All P l → All P (sort l)
  pub ascending : (l : List ℤ) → IsAscending (sort l)

pub List-cases {ℓ} : {A : Type ℓ} (l : List A) → (l ≡ []) ⊎ ((x : A) × (xs : List A) × (l ≡ x ∷ xs))
List-cases [] = inl refl
List-cases (x ∷ xs) = inr (x, xs, refl)

sorted_paths_found :
    (P : String → Type 0) (files : GoMap ℤ String) (ts : List ℤ)
    → All (λ e. P e.1) files
    → All (λ t. is_some (GoMap.get ℤ-discrete t files) ≡ true) ts
    → (ps : List String) × (sorted_paths files ts ≡ ok ps) × (length ps ≡ length ts) × All P ps
unfolding sorted_paths
sorted_paths_found P files [] f h = ([], refl, refl, tt)
sorted_paths_found P files (t ∷ ts) f h = elim (Option-cases (GoMap.get ℤ-discrete t files)) [
  | inl e ↦ absurd (ground (arith, h.0))
  | inr (p, e) ↦
      let (ps, found, len, all) = sorted_paths_found P files ts f h.1 in
      (
        p ∷ ps,
        rw (e, sorted_paths) (rw found),
        ap suc len,
        (GoMap.get-All ℤ-discrete P t p files f e, all),
      )
]

module _ (ext : String → String) (local_path : String) (P : String → Type 0) where
  pub collect-All :
      (max : ℤ) (expired : Bool) (n c : ℕ) (paths g : List String)
      → All P paths
      → All (λ p. (same p local_path ≡ false) × P p) g
      → All
          (λ p. (same p local_path ≡ false) × P p)
          (collect ext local_path max expired n c paths g)
  unfolding collect
  collect-All max expired n c [] g h a = a
  collect-All max expired n c (path ∷ paths) g h a = elim (Bool-cases (same path local_path)) [
    | inl s ↦ rw s (collect-All max expired n c paths g h.1 a)
    | inr s ↦
        let skip = collect-All max expired n c paths g h.1 a in
        let add =
          collect-All max expired n (suc c) paths (g ++ path ∷ []) h.1
            (All-append (λ p. (same p local_path ≡ false) × P p) g (path ∷ []) a ((s, h.0), tt)) in
        ground (arith, skip, add)
  ]

module _ (ext : String → String) (sort : List ℤ → List ℤ) (sorts : IsSort sort)
    (local_path : String) (limit : ℕ) (max ttl now : ℤ) (entries : List DirEntry) where
  abbrev pub walked : Walk
  walked = walk_dir ext local_path limit ttl now entries walk_start

  abbrev pub out : List String × Option Err
  out = get_garbage_files ext sort local_path limit max ttl now entries

  pub walked-Collected :
      (P : String → Type 0)
      → All (λ e. IsArtifactFile ext e → P e.path) entries
      → Collected ext local_path limit ttl now P walked
  walked-Collected P h =
      walk_dir-Collected ext local_path limit ttl now P entries walk_start h
        (walk_start-Collected ext local_path limit ttl now P)

  -- The two ways to an answer.
  pub outcome :
      (P : String → Type 0)
      → All (λ e. IsArtifactFile ext e → P e.path) entries
      → walked.errors ≡ []
      → (ps : List String) × (sorted_paths walked.artifact_files_with_created_ts
            (sort walked.creation_timestamps)
          ≡ ok ps)
        × (length ps ≡ walked.total_artifact_files)
        × All P ps
        × (((ltb_ℤ (pos walked.total_artifact_files -ℤ pos (length walked.garbage_files)) max
                ≡ true)
              × (out ≡ (walked.garbage_files, none)))
            ⊎ (out ≡ (
              collect ext local_path max
                  (ltb 0 (length walked.garbage_files))
                  (length ps)
                  0
                  ps
                  walked.garbage_files,
              none,
            )))
  unfolding get_garbage_files
  outcome P h e =
      let c = walked-Collected P h in
      let files = walked.artifact_files_with_created_ts in
      let (ps, found, len, all) =
        sorted_paths_found P files (sort walked.creation_timestamps) c.files (
          sorts.keeps_all (Has ext local_path limit ttl now P files) walked.creation_timestamps
            c.stamped) in
      let few = ltb_ℤ (pos walked.total_artifact_files -ℤ pos (length walked.garbage_files)) max in
      (
        ps,
        found,
        len ∙ sorts.keeps_length walked.creation_timestamps ∙ c.counted,
        all,
        elim (Bool-cases few) [
          | inl t ↦ inl (t, rw (e, get_garbage_files) (rw t refl))
          | inr t ↦ inr (rw (e, get_garbage_files) (rw t (rw found refl)))
        ],
      )
