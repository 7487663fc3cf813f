-- ===== src/Garbage/Walking.antt =====
-- What the walk of `getGarbageFiles`, internal/controller/storage.go, has collected when it ends.
use source_controller.Common.{
  ℕ, ◌≤◌, String, ◌≡◌, refl, Bool, true, false, not, ◌&&◌, Option, none, some, List, [], ◌∷◌, ◌++◌,
  arith, length, length-append, All, All-append, is_some, Option-cases, inl, inr, Bool-cases, leb,
  if◌then◌else◌, All-map, subst,
}
use source_controller.Common.Int.{ℤ, ◌-ℤ◌, ltb_ℤ, ℤ-discrete}
use source_controller.Common.GoMap
use source_controller.Errors.{Err, Fallible, ok, fail}
use source_controller.Garbage.{
  FileInfo, DirEntry, Walk, walk_start, same, is_lock, record_file, visit, visit_entry, record_info,
  walk_dir,
}

-- A regular file that is no lock file, found without an error.
abbrev pub IsArtifactInfo : (String → String) → String → Fallible FileInfo → Type 0
IsArtifactInfo ext path (fail e) = ⊥
IsArtifactInfo ext path (ok info) =
    (info.is_dir ≡ false) × (info.is_symlink ≡ false) × (is_lock ext path ≡ false)

abbrev pub IsArtifactFile : (String → String) → DirEntry → Type 0
IsArtifactFile ext entry = (entry.walk_err ≡ none) × IsArtifactInfo ext entry.path entry.info

module _ (ext : String → String) (local_path : String) (total_count_limit : ℕ) (ttl now : ℤ)
    (P : String → Type 0) where
  abbrev pub Has : GoMap.GoMap ℤ String → ℤ → Type 0
  Has m ts = is_some (GoMap.get ℤ-discrete ts m) ≡ true

  pub record Collected (w : Walk) : Type 0 where
    pub garbage : All (λ p. (same p local_path ≡ false) × P p) w.garbage_files
    pub files : All (λ e. P e.1) w.artifact_files_with_created_ts
    pub stamped :
        All
          (λ ts. is_some (GoMap.get ℤ-discrete ts w.artifact_files_with_created_ts) ≡ true)
          w.creation_timestamps
    pub counted : length w.creation_timestamps ≡ w.total_artifact_files
    pub fewer : length w.garbage_files ≤ w.total_artifact_files

  pub walk_start-Collected : Collected walk_start
  walk_start-Collected = record {
    garbage = tt;
    files = tt;
    stamped = tt;
    counted = refl;
    fewer = omega arith;
  }

  add_garbage :
      (path : String) (b : Bool) (gs : List String)
      → (b ≡ true → same path local_path ≡ false)
      → P path
      → All (λ p. (same p local_path ≡ false) × P p) gs
      → All (λ p. (same p local_path ≡ false) × P p) (if b then gs ++ path ∷ [] else gs)
  add_garbage path true gs f p h =
      All-append (λ p. (same p local_path ≡ false) × P p) gs (path ∷ []) h ((f refl, p), tt)
  add_garbage path false gs f p h = h

  record_file-Collected :
      (path : String) (info : FileInfo) (w : Walk)
      → (IsArtifactInfo ext path (ok info) → P path)
      → Collected w
      → Collected (record_file ext local_path total_count_limit ttl now path info w)
  unfolding record_file
  record_file-Collected path info w f h =
      elim (Bool-cases (not info.is_dir && (not info.is_symlink && not (is_lock ext path)))) [
        | inr t ↦ rw t h
        | inl t ↦
            let files = w.artifact_files_with_created_ts in
            let p : P path = f (ground arith) in
            let expired = ltb_ℤ ttl (now -ℤ info.mod_time) in
            let b = not (same path local_path) && expired in
            rw t (record {
              garbage = add_garbage path b w.garbage_files (λ q. ground arith) p h.garbage;
              files =
                  GoMap.put-All ℤ-discrete P info.mod_time path w.artifact_files_with_created_ts p
                    h.files;
              stamped =
                  All-append (Has (GoMap.put ℤ-discrete info.mod_time path files))
                    w.creation_timestamps (info.mod_time ∷ [])
                    (All-map (Has files) (Has (GoMap.put ℤ-discrete info.mod_time path files))
                      w.creation_timestamps
                      (λ ts. GoMap.get-put_some ℤ-discrete info.mod_time ts path files) h.stamped)
                    (rw (GoMap.get-put_self ℤ-discrete info.mod_time path files) refl, tt);
              counted =
                  omega
                    (arith, length-append w.creation_timestamps (info.mod_time ∷ []), h.counted);
              fewer = ground (arith, length-append w.garbage_files (path ∷ []), h.fewer);
            })
      ]

  errors-Collected : (w : Walk) (es : List Err) → Collected w → Collected (record w { errors = es })
  errors-Collected w es h = record {
    garbage = h.garbage;
    files = h.files;
    stamped = h.stamped;
    counted = h.counted;
    fewer = h.fewer;
  }

  record_info-Collected :
      (path : String) (info : Fallible FileInfo) (w : Walk)
      → (IsArtifactInfo ext path info → P path)
      → Collected w
      → Collected (record_info ext local_path total_count_limit ttl now path info w)
  unfolding record_info
  record_info-Collected path (fail e) w f h = errors-Collected w _ h
  record_info-Collected path (ok info) w f h = record_file-Collected path info w f h

  visit_entry-Collected :
      (err : Option Err) (entry : DirEntry) (w w' : Walk)
      → (err ≡ none → IsArtifactInfo ext entry.path entry.info → P entry.path)
      → Collected w
      → visit_entry ext local_path total_count_limit ttl now err entry w ≡ some w'
      → Collected w'
  unfolding visit_entry
  visit_entry-Collected (some x) entry w w' f h e =
      let q : record w { errors = w.errors ++ x ∷ [] } ≡ w' = ground arith in
      subst Collected q (errors-Collected w _ h)
  visit_entry-Collected none entry w w' f h e =
      elim (Bool-cases (leb total_count_limit w.total_artifact_files)) [
        | inl t ↦ absurd (ground arith)
        | inr t ↦
            let q : record_info ext local_path total_count_limit ttl now entry.path entry.info w
                ≡ w' =
              ground arith in
            subst Collected q (record_info-Collected entry.path entry.info w (f refl) h)
      ]

  visit-Collected :
      (entry : DirEntry) (w w' : Walk)
      → (IsArtifactFile ext entry → P entry.path)
      → Collected w
      → visit ext local_path total_count_limit ttl now entry w ≡ some w'
      → Collected w'
  unfolding visit
  visit-Collected entry w w' f h e =
      visit_entry-Collected entry.walk_err entry w w' (λ n i. f (n, i)) h e

  pub walk_dir-Collected :
      (entries : List DirEntry) (w : Walk)
      → All (λ entry. IsArtifactFile ext entry → P entry.path) entries
      → Collected w
      → Collected (walk_dir ext local_path total_count_limit ttl now entries w)
  unfolding walk_dir
  walk_dir-Collected [] w f h = h
  walk_dir-Collected (entry ∷ entries) w f h =
      elim (Option-cases (visit ext local_path total_count_limit ttl now entry w)) [
        | inl e ↦ rw (e, walk_dir) h
        | inr (w', e) ↦
            rw (e, walk_dir)
              (walk_dir-Collected entries w' f.1 (visit-Collected entry w w' f.0 h e))
      ]
