-- ===== src/Garbage/Policy.antt =====
-- The retention policy: what `getGarbageFiles` of internal/controller/storage.go promises.
use source_controller.Common.{
  ℕ, ◌+◌, ◌-◌, ◌≤◌, ◌<◌, String, ◌≡◌, refl, ◌↔◌, false, none, List, [], arith, length, take, All,
  All-Any, Any, inl, inr, ◌⊎◌, ltb, ltb,
}
use source_controller.Common.Int.{ℤ, pos, -ℤ_parts}
use source_controller.Errors.{ok}
use source_controller.Garbage.{
  DirEntry, Walk, walk_start, walk_dir, same, collect, sorted_paths, get_garbage_files,
}
use source_controller.Garbage.Walking.{IsArtifactFile, Collected}
use source_controller.Garbage.Retention.{
  collect_unexpired_le, collect_expired_le, collect-take, none_in_nil, eligible, IsDistinct,
}
use source_controller.Garbage.Oldest.{drop, IsOlder, take_oldest}
use source_controller.Garbage.Selection.{
  IsSort, outcome, walked, walked-Collected, collect-All, List-cases,
}

module _ (ext : String → String) (sort : List ℤ → List ℤ) (sorts : IsSort sort)
    (local_path : String) (limit : ℕ) (ttl now : ℤ) (entries : List DirEntry) where
  abbrev w : ℤ → Walk
  w max = walked ext sort sorts local_path limit max ttl now entries

  abbrev WasWalked : String → Type 0
  WasWalked p = Any (λ e. (e.path ≡ p) × IsArtifactFile ext e) entries

  met : All (λ e. IsArtifactFile ext e → WasWalked e.path) entries
  met = All-Any (λ (e : DirEntry). e.path) (IsArtifactFile ext) entries

  collected : (max : ℤ) → Collected ext local_path limit ttl now WasWalked (w max)
  collected max = walked-Collected ext sort sorts local_path limit max ttl now entries WasWalked met

  -- Every garbage file was met on the walk as a regular file that is no lock file, and none is the
  -- current artifact.
  pub get_garbage_files-IsArtifactFile :
      (max : ℤ)
      → All
          (λ p.
            (same p local_path ≡ false) × Any (λ e. (e.path ≡ p) × IsArtifactFile ext e) entries)
          (get_garbage_files ext sort local_path limit max ttl now entries).0
  unfolding get_garbage_files
  get_garbage_files-IsArtifactFile max = elim (List-cases (w max).errors) [
    | inr (x, xs, e) ↦ rw (e, get_garbage_files) tt
    | inl e ↦
        let (ps, found, len, all, answer) =
          outcome ext sort sorts local_path limit max ttl now entries WasWalked met e in
        elim answer [
          | inl (t, q) ↦ rw q (collected max).garbage
          | inr q ↦
              rw q (collect-All ext local_path WasWalked max _ _ 0 ps _ all (collected max).garbage)
        ]
  ]

  -- An error comes exactly from the walk: no time stamp is ever without its file.
  pub get_garbage_files-errors :
      (max : ℤ)
      → ((get_garbage_files ext sort local_path limit max ttl now entries).1 ≡ none)
        ↔ ((walk_dir ext local_path limit ttl now entries walk_start).errors ≡ [])
  unfolding get_garbage_files
  get_garbage_files-errors max = (
    λ h. elim (List-cases (w max).errors) [
      | inl e ↦ e
      | inr (x, xs, e) ↦ absurd (ground (arith, rw (e, get_garbage_files) at h))
    ],
    λ e.
        let (ps, found, len, all, answer) =
          outcome ext sort sorts local_path limit max ttl now entries WasWalked met e in
        elim answer [ inl (t, q) ↦ rw q refl | inr q ↦ rw q refl ],
  )

  module _ (k : ℕ)
      (e : (walk_dir ext local_path limit ttl now entries walk_start).errors ≡ []) where
    -- The count of files never takes more than it may: what is added to the expired files leaves at
    -- least `k` of the files that were walked over.
    pub get_garbage_files_retains :
        let w = walk_dir ext local_path limit ttl now entries walk_start in
        let out = (get_garbage_files ext sort local_path limit (pos k) ttl now entries).0 in
        (length out ≤ length w.garbage_files) ⊎ (length out + k ≤ w.total_artifact_files)
    get_garbage_files_retains =
        let (ps, found, len, all, answer) =
          outcome ext sort sorts local_path limit (pos k) ttl now entries WasWalked met e in
        elim answer [ inl (t, q) ↦ rw q (inl (omega arith)) | inr q ↦ rw q (bounded ps len) ]
      where
        v : Walk
        v = walk_dir ext local_path limit ttl now entries walk_start

        bounded :
            (ps : List String)
            → length ps ≡ v.total_artifact_files
            → let out =
                collect ext local_path
                  (pos k)
                  (ltb 0 (length v.garbage_files))
                  (length ps)
                  0
                  ps
                  v.garbage_files in
              (length out ≤ length v.garbage_files) ⊎ (length out + k ≤ v.total_artifact_files)
        bounded ps len = ground (
          arith,
          collect_unexpired_le ext local_path k (length ps) 0 ps v.garbage_files,
          collect_expired_le ext local_path k (length ps) 0 ps v.garbage_files,
        )

    -- Once a file has expired, the count of files takes too little: more than `k` files are left
    -- whenever the expired files alone leave `k + 2` or more.
    pub get_garbage_files_leaves_more :
        let w = walk_dir ext local_path limit ttl now entries walk_start in
        0 < length w.garbage_files
        → length w.garbage_files + k + 2 ≤ w.total_artifact_files
        → length (get_garbage_files ext sort local_path limit (pos k) ttl now entries).0 + k
          < w.total_artifact_files
    get_garbage_files_leaves_more g0 room =
        let (ps, found, len, all, answer) =
          outcome ext sort sorts local_path limit (pos k) ttl now entries WasWalked met e in
        elim answer [ inl (t, q) ↦ rw q (omega arith) | inr q ↦ rw q (more ps len) ]
      where
        v : Walk
        v = walk_dir ext local_path limit ttl now entries walk_start

        more :
            (ps : List String)
            → length ps ≡ v.total_artifact_files
            → length (
                  collect ext local_path
                    (pos k)
                    (ltb 0 (length v.garbage_files))
                    (length ps)
                    0
                    ps
                    v.garbage_files)
                + k
              < v.total_artifact_files
        more ps len =
            ground (arith, collect_expired_le ext local_path k (length ps) 0 ps v.garbage_files)

    garbage-take :
        (ps : List String)
        → (walk_dir ext local_path limit ttl now entries walk_start).garbage_files ≡ []
        → sorted_paths
            (walk_dir ext local_path limit ttl now entries
              walk_start).artifact_files_with_created_ts
            (sort (walk_dir ext local_path limit ttl now entries walk_start).creation_timestamps)
          ≡ ok ps
        → IsDistinct ps
        → (get_garbage_files ext sort local_path limit (pos k) ttl now entries).0
          ≡ take (length ps - k) (eligible ext local_path ps)
    garbage-take ps none_expired sorted d =
        let (qs, found, len, all, answer) =
          outcome ext sort sorts local_path limit (pos k) ttl now entries WasWalked met e in
        let same_paths : qs ≡ ps = ground (arith, found, sorted) in
        rw (← same_paths) (elim answer [
          | inl (t, q) ↦
              let none_left : length qs - k ≡ 0 =
                ground
                  (arith, rw none_expired at t, -ℤ_parts (pos v.total_artifact_files) (pos 0)) in
              rw (q, none_expired, none_left) refl
          | inr q ↦
              rw (q, none_expired)
                (let less : length qs - k - 0 ≡ length qs - k = omega arith in
                  rw less at (
                    collect-take ext local_path k (length qs) 0 qs [] (rw same_paths d)
                      (none_in_nil qs)))
        ])
      where
        v : Walk
        v = walk_dir ext local_path limit ttl now entries walk_start

    -- With no expired file and no path twice in the order of the time stamps, exactly the first of
    -- the eligible files are garbage, so many that `k` files are left if there are that many; and each
    -- of them has a time stamp that is not later than that of each eligible file that is left.
    pub get_garbage_files-take :
        (ps : List String)
        → (walk_dir ext local_path limit ttl now entries walk_start).garbage_files ≡ []
        → sorted_paths
            (walk_dir ext local_path limit ttl now entries
              walk_start).artifact_files_with_created_ts
            (sort (walk_dir ext local_path limit ttl now entries walk_start).creation_timestamps)
          ≡ ok ps
        → IsDistinct ps
        → let files =
            (walk_dir ext local_path limit ttl now entries
              walk_start).artifact_files_with_created_ts in
          let garbage = (get_garbage_files ext sort local_path limit (pos k) ttl now entries).0 in
          (garbage ≡ take (length ps - k) (eligible ext local_path ps))
          × All
              (λ p. All (IsOlder files p) (drop (length ps - k) (eligible ext local_path ps)))
              garbage
    get_garbage_files-take ps none_expired sorted d =
        let w = walk_dir ext local_path limit ttl now entries walk_start in
        let files = w.artifact_files_with_created_ts in
        let taken = garbage-take ps none_expired sorted d in
        (
          taken,
          rw taken (
              take_oldest files ext local_path (length ps - k) (sort w.creation_timestamps) ps
                (sorts.ascending w.creation_timestamps) sorted),
        )
