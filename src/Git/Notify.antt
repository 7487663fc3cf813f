-- ===== src/Git/Notify.antt =====
-- When an event is sent, and when two sets of artifacts differ: `shouldNotify` of
-- internal/controller/gitrepository_controller.go and `Diff` of internal/controller/artifact.go.
use source_controller.Common.{
  Bool-cases, ◌≡◌, refl, ◌↔◌, ◌⊎◌, inl, inr, String, true, false, Option, none, some, List, [], ◌∷◌,
  length, arith, All, Any, is_some,
}
use source_controller.Errors.{Config, Err, stalling, waiting, generic, plain}
use source_controller.Reconcile.{Result, result_empty, result_requeue, result_success}
use source_controller.Storage.{Artifact, has_revision}
use source_controller.Git.{should_notify, ignored, diff, some_missing, has_any_revision}

-- An error that is generic and to be ignored.
abbrev pub IsIgnored : Option Err → Type 0
IsIgnored err =
    (reason : String) × (e : Err) × (config : Config) × (err ≡ some (generic reason e config))
    × (config.ignore ≡ true)

ignored-IsIgnored : (err : Err) → (ignored err ≡ true) ↔ IsIgnored (some err)
unfolding ignored
ignored-IsIgnored (generic reason e config) =
    (λ h. (reason, e, config, refl, h), λ (r, x, c, u, i). ground (arith, u, i))
ignored-IsIgnored (stalling reason e config) =
    (λ h. absurd (ground (arith, h)), λ (r, x, c, u, i). absurd (ground (arith, u)))
ignored-IsIgnored (waiting t reason e config) =
    (λ h. absurd (ground (arith, h)), λ (r, x, c, u, i). absurd (ground (arith, u)))
ignored-IsIgnored (plain message) =
    (λ h. absurd (ground (arith, h)), λ (r, x, c, u, i). absurd (ground (arith, u)))

-- The two occasions for an event.
abbrev IsOccasion : Result → Option Err → Type 0
IsOccasion res err =
    ((err ≡ none) × (res ≡ result_success)) ⊎ ((res ≡ result_empty) × IsIgnored err)

no_occasion : (res : Result) → (res ≡ result_success → ⊥) → IsOccasion res none → ⊥
no_occasion res n (inl (e, r)) = n r
no_occasion res n (inr (r, (s, x, c, e, i))) = ground (arith, e)

no_occasion_err :
    (res : Result) (err : Err) → (res ≡ result_empty → ⊥) → IsOccasion res (some err) → ⊥
no_occasion_err res err n (inl (e, r)) = ground (arith, e)
no_occasion_err res err n (inr (r, s)) = n r

-- `shouldNotify` is true exactly for an object with an artifact, after a success without an error or
-- an empty result with an error to be ignored.
pub should_notify-IsIgnored :
    (artifact : Option Artifact) (res : Result) (err : Option Err)
    → (should_notify artifact res err ≡ true) ↔ (
        (is_some artifact ≡ true)
        × (((err ≡ none) × (res ≡ result_success)) ⊎ ((res ≡ result_empty) × IsIgnored err)))
unfolding should_notify
should_notify-IsIgnored none res err =
    (λ h. absurd (ground (arith, h)), λ h. absurd (ground (arith, h.0)))
should_notify-IsIgnored (some a) result_success none = (λ h. (refl, inl (refl, refl)), λ h. refl)
should_notify-IsIgnored (some a) result_empty none = (
  λ h. absurd (ground (arith, h)),
  λ h. absurd (no_occasion result_empty (λ r. ground (arith, r)) h.1),
)
should_notify-IsIgnored (some a) result_requeue none = (
  λ h. absurd (ground (arith, h)),
  λ h. absurd (no_occasion result_requeue (λ r. ground (arith, r)) h.1),
)
should_notify-IsIgnored (some a) result_success (some x) = (
  λ h. absurd (ground (arith, h)),
  λ h. absurd (no_occasion_err result_success x (λ r. ground (arith, r)) h.1),
)
should_notify-IsIgnored (some a) result_requeue (some x) = (
  λ h. absurd (ground (arith, h)),
  λ h. absurd (no_occasion_err result_requeue x (λ r. ground (arith, r)) h.1),
)
should_notify-IsIgnored (some a) result_empty (some x) =
    let (to, from) = ignored-IsIgnored x in
    (
      λ h. (refl, inr (refl, to h)),
      λ h. elim h.1 [ inl (e, r) ↦ absurd (ground (arith, e)) | inr (r, s) ↦ from s ],
    )

-- The artifact is there and has the revision.
abbrev pub RevisionIs : String → Option Artifact → Type 0
RevisionIs revision none = ⊥
RevisionIs revision (some k) = k.revision ≡ revision

has_revision-RevisionIs :
    (revision : String) (k : Option Artifact)
    → (has_revision k revision ≡ true) ↔ RevisionIs revision k
unfolding has_revision
has_revision-RevisionIs revision none = (λ h. absurd (ground (arith, h)), λ h. absurd h)
has_revision-RevisionIs revision (some k) = (λ h. ground (arith, h), λ h. ground (arith, h))

has_any_revision-Any :
    (revision : String) (set : List (Option Artifact))
    → (has_any_revision revision set ≡ true) ↔ Any (RevisionIs revision) set
unfolding has_any_revision
has_any_revision-Any revision [] = (λ h. absurd (ground (arith, h)), λ h. absurd h)
has_any_revision-Any revision (k ∷ set) =
    let (to, from) = has_any_revision-Any revision set in
    let (is, has) = has_revision-RevisionIs revision k in
    (
      λ h. elim (Bool-cases (has_revision k revision)) [
        | inl p ↦ inl (is p)
        | inr n ↦ inr (to (ground (arith, h, n)))
      ],
      λ h. elim h [ inl p ↦ ground (arith, has p) | inr r ↦ ground (arith, from r) ],
    )

some_missing-All :
    (s : List Artifact) (set : List (Option Artifact))
    → (some_missing s set ≡ false) ↔ All (λ j. Any (RevisionIs j.revision) set) s
unfolding some_missing
some_missing-All [] set = (λ h. tt, λ h. refl)
some_missing-All (j ∷ s) set =
    let (to, from) = some_missing-All s set in
    let (any, back) = has_any_revision-Any j.revision set in
    (
      λ h. (any (ground (arith, h)), to (ground (arith, h))),
      λ h. ground (arith, back h.0, from h.1),
    )

-- Two sets do not differ exactly if they have the same size and every revision of the first is one
-- of an artifact of the second.
pub diff-All :
    (s : List Artifact) (set : List (Option Artifact))
    → (diff s set ≡ false)
      ↔ ((length s ≡ length set) × All (λ j. Any (RevisionIs j.revision) set) s)
unfolding diff
diff-All s set =
    let (to, from) = some_missing-All s set in
    (λ h. (ground (arith, h), to (ground (arith, h))), λ h. ground (arith, h.0, from h.1))
