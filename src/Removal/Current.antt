-- ===== src/Removal/Current.antt =====
-- What `RemoveAllButCurrent` of internal/controller/storage.go leaves.
use mathlib.Core.List.{append-nil}
use source_controller.Common.{
  subst, String-discrete, ℕ, ◌≡◌, ◌≢◌, refl, sym, ap, ◌∙◌, String, false, not, ◌&&◌, Option, none,
  some, List, [], ◌∷◌, ◌++◌, arith, Option-cases, Bool-cases, inl, inr, All, ◌⊎◌,
}
use source_controller.Errors.{Err}
use source_controller.Storage.{Artifact, StorageApi, local_path}
use source_controller.Garbage.{same}
use source_controller.Removal.{
  RemovalApi, WalkEntry, Removed, remove_other, remove_others, removed_one, remove_all_but_current,
  failed_to_remove,
}

append-ne-nil : (xs : List Err) (e : Err) → xs ++ e ∷ [] ≢ []
append-ne-nil [] e h = ground (arith, h)
append-ne-nil (x ∷ xs) e h = ground (arith, h)

append-nil_left : (xs ys : List Err) → xs ++ ys ≡ [] → xs ≡ []
append-nil_left [] ys h = refl
append-nil_left (x ∷ xs) ys h = absurd (ground (arith, h))

module _ {FS Data Reader : Type 0} (api : StorageApi FS Data Reader) (removal : RemovalApi FS)
    (base_path : String) (now : ℕ) where
  -- A regular file that is not the current artifact.
  abbrev pub IsOther : String → WalkEntry → Type 0
  IsOther local e =
      (e.walk_err ≡ none)
      × (e.is_dir ≡ false)
      × (e.is_symlink ≡ false)
      × (same e.path local ≡ false)

  pub removed_one_fs :
      (path : String) (r : Removed api removal base_path now) (o : FS × Option Err)
      → (removed_one api removal base_path now path r o).0 ≡ o.0
  removed_one_fs path (fs, deleted, errors) (fs', none) = refl
  removed_one_fs path (fs, deleted, errors) (fs', some e) = refl

  abbrev step :
      String → WalkEntry → Removed api removal base_path now → Removed api removal base_path now
  step = remove_other api removal base_path now

  -- One entry is removed, or nothing is done to the files.
  remove_other_lem :
      (local : String) (e : WalkEntry) (r : Removed api removal base_path now)
      → (IsOther local e
          × (step local e r
              ≡ removed_one api removal base_path now e.path r (api.remove e.path r.0)))
        ⊎ ((xs : List Err) × (¬ (IsOther local e)) × (step local e r ≡ (r.0, r.1, r.2 ++ xs)))
  unfolding remove_other
  remove_other_lem local e (fs, deleted, errors) = elim (Option-cases e.walk_err) [
    | inr (x, u) ↦ inr (x ∷ [], λ h. ground (arith, h.0, u), rw (u, remove_other) refl)
    | inl u ↦ elim (Bool-cases (not (same e.path local) && (not e.is_dir && not e.is_symlink))) [
      | inl t ↦
          inl ((u, ground (arith, t), ground (arith, t), ground (arith, t)), ground (arith, u, t))
      | inr t ↦
          inr ([], λ h. ground (arith, h.0, h.1, h.2, h.3, t), rw append-nil (ground (arith, u, t)))
    ]
  ]

  remove_other_frame :
      (local q : String) (e : WalkEntry) (r : Removed api removal base_path now)
      → (IsOther local e → q ≢ e.path)
      → api.read (step local e r).0 q ≡ api.read r.0 q
  remove_other_frame local q e r n = elim (remove_other_lem local e r) [
    | inl (other, u) ↦
        ap (λ x. api.read x.0 q) u
        ∙ ap (λ x. api.read x q) (removed_one_fs e.path r (api.remove e.path r.0))
        ∙ api.remove_frame e.path q r.0 (n other)
    | inr (xs, other, u) ↦ ap (λ x. api.read x.0 q) u
  ]

  remove_others_frame :
      (local q : String) (entries : List WalkEntry) (r : Removed api removal base_path now)
      → All (λ e. IsOther local e → q ≢ e.path) entries
      → api.read (remove_others api removal base_path now local entries r).0 q ≡ api.read r.0 q
  unfolding remove_others
  remove_others_frame local q [] r h = refl
  remove_others_frame local q (e ∷ entries) r h =
      remove_others_frame local q entries (step local e r) h.1 ∙ remove_other_frame local q e r h.0

  removed_one-errors :
      (path : String) (r : Removed api removal base_path now) (o : FS × Option Err)
      → (removed_one api removal base_path now path r o).2 ≡ []
      → (r.2 ≡ []) × (o.1 ≡ none)
  removed_one-errors path (fs, deleted, errors) (fs', none) h = (h, refl)
  removed_one-errors path (fs, deleted, errors) (fs', some e) h = absurd (append-ne-nil errors e h)

  -- No errors at the end: there were none before, and a file that is to go is gone.
  step-errors :
      (local : String) (e : WalkEntry) (r : Removed api removal base_path now)
      → (step local e r).2 ≡ []
      → (r.2 ≡ []) × (IsOther local e → api.read (step local e r).0 e.path ≡ none)
  step-errors local e r h = elim (remove_other_lem local e r) [
    | inl (other, u) ↦
        let (before, done) =
          removed_one-errors e.path r (api.remove e.path r.0) (ap (λ x. x.2) (sym u) ∙ h) in
        (
          before,
          λ o.
              ap (λ x. api.read x.0 e.path) u
              ∙ ap (λ x. api.read x e.path) (removed_one_fs e.path r (api.remove e.path r.0))
              ∙ api.remove_done e.path r.0 (api.remove e.path r.0).0
                  (ap (λ x. ((api.remove e.path r.0).0, x)) done),
        )
    | inr (xs, other, u) ↦
        (append-nil_left r.2 xs (ap (λ x. x.2) (sym u) ∙ h), λ o. absurd (other o))
  ]

  -- A file that is gone stays gone.
  step_gone :
      (local q : String) (e : WalkEntry) (r : Removed api removal base_path now)
      → (step local e r).2 ≡ []
      → api.read r.0 q ≡ none
      → api.read (step local e r).0 q ≡ none
  step_gone local q e r h gone = elim (remove_other_lem local e r) [
    | inr (xs, other, u) ↦ ap (λ x. api.read x.0 q) u ∙ gone
    | inl (other, u) ↦ elim (String-discrete q e.path) [
      | yes p ↦
          subst (λ x. api.read (step local e r).0 x ≡ none) (sym p)
            ((step-errors local e r h).1 other)
      | no n ↦ remove_other_frame local q e r (λ o. n) ∙ gone
    ]
  ]

  remove_others-errors :
      (local : String) (entries : List WalkEntry) (r : Removed api removal base_path now)
      → (remove_others api removal base_path now local entries r).2 ≡ []
      → r.2 ≡ []
  unfolding remove_others
  remove_others-errors local [] r h = h
  remove_others-errors local (e ∷ entries) r h =
      (step-errors local e r (remove_others-errors local entries (step local e r) h)).0

  remove_others_gone :
      (local q : String) (entries : List WalkEntry) (r : Removed api removal base_path now)
      → (remove_others api removal base_path now local entries r).2 ≡ []
      → api.read r.0 q ≡ none
      → api.read (remove_others api removal base_path now local entries r).0 q ≡ none
  unfolding remove_others
  remove_others_gone local q [] r h gone = gone
  remove_others_gone local q (e ∷ entries) r h gone =
      remove_others_gone local q entries (step local e r) h
        (step_gone local q e r (remove_others-errors local entries (step local e r) h) gone)

  remove_others_removes :
      (local : String) (entries : List WalkEntry) (r : Removed api removal base_path now)
      → (remove_others api removal base_path now local entries r).2 ≡ []
      → All
          (λ e.
            IsOther local e
            → api.read (remove_others api removal base_path now local entries r).0 e.path ≡ none)
          entries
  unfolding remove_others
  remove_others_removes local [] r h = tt
  remove_others_removes local (e ∷ entries) r h =
      let now_empty = remove_others-errors local entries (step local e r) h in
      (
        λ o.
            remove_others_gone local e.path entries (step local e r) h
              ((step-errors local e r now_empty).1 o),
        remove_others_removes local entries (step local e r) h,
      )

  no_failure :
      (errors : List Err) → failed_to_remove api removal base_path now errors ≡ none → errors ≡ []
  no_failure [] h = refl
  no_failure (e ∷ es) h = absurd (ground (arith, h))

  -- RemoveAllButCurrent keeps the current artifact and every file that is not on the walk as
  -- another regular file, errors or none.
  pub remove_all_but_current_frame :
      (artifact : Artifact) (entries : List WalkEntry) (fs : FS) (q : String)
      → All (λ e. IsOther (local_path api base_path now artifact) e → q ≢ e.path) entries
      → (api.read (remove_all_but_current api removal base_path now artifact entries fs).0 q
          ≡ api.read fs q)
        × (api.read
              (remove_all_but_current api removal base_path now artifact entries fs).0
              (local_path api base_path now artifact)
            ≡ api.read fs (local_path api base_path now artifact))
  unfolding remove_all_but_current
  remove_all_but_current_frame artifact entries fs q h =
      let local = local_path api base_path now artifact in
      (
        remove_others_frame local q entries (fs, [], []) h,
        remove_others_frame local local entries (fs, [], []) (spared local entries),
      )
    where
      spared :
          (local : String) (entries : List WalkEntry)
          → All (λ e. IsOther local e → local ≢ e.path) entries
      spared local [] = tt
      spared local (e ∷ es) = (λ o u. ground (arith, o.3, u), spared local es)

  -- Without an error, every other regular file of the walk is gone.
  pub remove_all_but_current_removes :
      (artifact : Artifact) (entries : List WalkEntry) (fs : FS)
      → (remove_all_but_current api removal base_path now artifact entries fs).2 ≡ none
      → All
          (λ e.
            IsOther (local_path api base_path now artifact) e
            → api.read
                (remove_all_but_current api removal base_path now artifact entries fs).0
                e.path
              ≡ none)
          entries
  unfolding remove_all_but_current
  remove_all_but_current_removes artifact entries fs h =
      let local = local_path api base_path now artifact in
      remove_others_removes local entries (fs, [], []) (no_failure _ h)
