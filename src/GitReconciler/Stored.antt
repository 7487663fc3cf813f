-- ===== src/GitReconciler/Stored.antt =====
-- What `reconcileStorage` and `reconcileDelete` of internal/controller/gitrepository_controller.go
-- leave.
use source_controller.Common.{
  ◌≡◌, refl, sym, ap, subst, ◌∙◌, Bool, true, false, Option, none, some, arith, Bool-cases, inl,
  inr, ◌⊎◌, if◌then◌else◌,
}
use source_controller.Errors.{Err, event_type_warning}
use source_controller.Reconcile.{Result, result_success}
use source_controller.Storage.{Artifact, artifact_exist, verify_artifact, verify_parsed, local_path}
use source_controller.Storage.Naming.{set_artifact_url}
use source_controller.Flow.{Flow, go, stop, after_flow, pass}
use source_controller.GitReconciler.{
  BaseApi, State, send, progress, delete_condition, artifact_in_storage_condition,
}
use source_controller.GitReconciler.Storing.{
  exists, integrity, check_artifact, after_integrity, after_remove_file, collect_object,
  check_current, record_artifact, remove_file, after_patch, reconcile_storage, set_artifact,
}

module _ {Conds FS Data Reader Cluster : Type 0} (api : BaseApi Conds FS Data Reader Cluster) where
  abbrev S : Type 0
  S = State Conds FS Cluster

  -- The artifact of the status, if there is one, is in the storage and verifies.
  abbrev pub IsStored : Option Artifact → FS → Type 0
  IsStored none fs = Unit {0}
  IsStored (some a) fs = (exists api a fs ≡ true) × (integrity api a fs ≡ none)

  after_remove_file-go :
      (err : Option Err) (s s' : S) (missing : Bool)
      → after_remove_file api err s ≡ (s', go missing)
      → missing ≡ true
  unfolding after_remove_file
  after_remove_file-go none s s' missing h = ground (arith, ap (λ o. o.1) h)
  after_remove_file-go (some e) s s' missing h = absurd (ground (arith, ap (λ o. o.1) h))

  removed-go :
      (o : S × Flow (Option Err)) (s' : S) (missing : Bool)
      → after_flow (after_remove_file api) o ≡ (s', go missing)
      → missing ≡ true
  removed-go (s, go err) s' missing h = after_remove_file-go err s s' missing h
  removed-go (s, stop res err) s' missing h = absurd (ground (arith, ap (λ o. o.1) h))

  abbrev warned : S → S
  warned s =
      (send api event_type_warning "ArtifactVerificationFailed"
        "failed to verify integrity of artifact" s).0

  after_integrity-IsStored :
      (a : Artifact) (err : Option Err) (s s' : S) (missing : Bool)
      → after_integrity api a err s ≡ (s', go missing)
      → ((missing ≡ false) × (err ≡ none) × (s' ≡ s)) ⊎ (missing ≡ true)
  unfolding after_integrity
  after_integrity-IsStored a none s s' missing h =
      inl (ground (arith, ap (λ o. o.1) h), refl, sym (ap (λ o. o.0) h))
  after_integrity-IsStored a (some e) s s' missing h =
      inr (removed-go (remove_file api a (warned s)) s' missing h)

  check_artifact-IsStored :
      (a : Artifact) (s s' : S) (missing : Bool)
      → check_artifact api a s ≡ (s', go missing)
      → ((missing ≡ false) × (s' ≡ s) × IsStored (some a) s.files) ⊎ (missing ≡ true)
  unfolding check_artifact
  check_artifact-IsStored a s s' missing h = elim (Bool-cases (exists api a s.files)) [
    | inl u ↦ elim (after_integrity-IsStored a (integrity api a s.files) s s' missing (rw u at h)) [
      | inl v ↦ inl (v.0, v.2, (u, v.1))
      | inr v ↦ inr v
    ]
    | inr u ↦ inr (ground (arith, ap (λ o. o.1) (rw u at h)))
  ]

  abbrev StoredNow : S → Type 0
  StoredNow s = IsStored s.obj.status.artifact s.files

  marked-go :
      (o : S × Flow Bool) (a : Artifact) (s s' : S) (missing : Bool)
      → s.obj.status.artifact ≡ some a
      → check_artifact api a s ≡ o
      → after_flow
          (λ m.
            λ t. (after_flow (λ u. λ v. (v, go m)) ((if m then set_artifact api none else pass) t)))
          o
        ≡ (s', go missing)
      → StoredNow s'
  marked-go (t, stop res err) a s s' missing e c h = absurd (ground (arith, ap (λ o. o.1) h))
  marked-go (t, go true) a s s' missing e c h = subst StoredNow (ap (λ o. o.0) h) tt
  marked-go (t, go false) a s s' missing e c h = elim (check_artifact-IsStored a s t false c) [
    | inl v ↦
        subst StoredNow (sym v.1 ∙ ap (λ o. o.0) h) (subst (λ x. IsStored x s.files) (sym e) v.2)
    | inr v ↦ absurd (ground (arith, v))
  ]

  check_current-IsStored :
      (o : Option Artifact) (s s' : S) (missing : Bool)
      → s.obj.status.artifact ≡ o
      → check_current api o s ≡ (s', go missing)
      → StoredNow s'
  unfolding check_current
  check_current-IsStored none s s' missing e h =
      subst StoredNow (ap (λ o. o.0) h) (subst (λ x. IsStored x s.files) (sym e) tt)
  check_current-IsStored (some a) s s' missing e h =
      marked-go (check_artifact api a s) a s s' missing e refl h

  -- A new URL leaves the path and the digest.
  set_artifact_url-IsStored :
      (a : Artifact) (fs : FS)
      → IsStored (some a) fs
      → IsStored (some (set_artifact_url api.naming api.hostname a)) fs
  unfolding artifact_exist verify_artifact verify_parsed local_path set_artifact_url
  set_artifact_url-IsStored a fs h = h

  patched-success :
      (err : Option Err) (s s' : S) (res : Result)
      → after_patch api err s ≡ (s', go res)
      → (res ≡ result_success) × (s' ≡ s)
  unfolding after_patch
  patched-success none s s' res h = (ground (arith, ap (λ o. o.1) h), sym (ap (λ o. o.0) h))
  patched-success (some e) s s' res h = absurd (ground (arith, ap (λ o. o.1) h))

  abbrev rebuilding : Bool → S → S
  rebuilding missing s =
      (delete_condition api artifact_in_storage_condition
        (progress api true
          (if missing then "building artifact: disappeared from storage" else "building artifact")
          s).0).0

  record_artifact-IsStored :
      (o : Option Artifact) (missing : Bool) (s s' : S) (res : Result)
      → s.obj.status.artifact ≡ o
      → StoredNow s
      → record_artifact api missing o s ≡ (s', go res)
      → (res ≡ result_success) × StoredNow s'
  unfolding record_artifact
  record_artifact-IsStored none missing s s' res e i h =
      let r = rebuilding missing s in
      let sent = api.patch r.obj r.cluster in
      let patched = patched-success sent.1 (record r { cluster = sent.0 }) s' res h in
      (patched.0, subst StoredNow (sym patched.1) i)
  record_artifact-IsStored (some a) missing s s' res e i h = (
    ground (arith, ap (λ o. o.1) h),
    subst StoredNow (ap (λ o. o.0) h)
        (set_artifact_url-IsStored a s.files (subst (λ x. IsStored x s.files) e i)),
  )

  finished :
      (o : S × Flow Bool) (s s' : S) (res : Result)
      → check_current api s.obj.status.artifact s ≡ o
      → after_flow (λ m. λ t. record_artifact api m t.obj.status.artifact t) o ≡ (s', go res)
      → (res ≡ result_success) × StoredNow s'
  finished (t, go m) s s' res c h =
      record_artifact-IsStored t.obj.status.artifact m t s' res refl
        (check_current-IsStored s.obj.status.artifact s t m refl c) h
  finished (t, stop r e) s s' res c h = absurd (ground (arith, ap (λ o. o.1) h))

  collected :
      (o : S × Flow (Option Err)) (s' : S) (res : Result)
      → after_flow
          (λ err. λ s.
            after_flow
              (λ m. λ t. record_artifact api m t.obj.status.artifact t)
              (check_current api s.obj.status.artifact s))
          o
        ≡ (s', go res)
      → (res ≡ result_success) × StoredNow s'
  collected (s, go err) s' res h =
      finished (check_current api s.obj.status.artifact s) s s' res refl h
  collected (s, stop r e) s' res h = absurd (ground (arith, ap (λ o. o.1) h))

  -- If `reconcileStorage` ends without an error, then its result is a success, and the artifact that
  -- the status names then, if any, is a file of the storage whose content matches its digest.
  pub reconcile_storage-IsStored :
      (s s' : S) (res : Result)
      → reconcile_storage api s ≡ (s', go res)
      → (res ≡ result_success) × IsStored s'.obj.status.artifact s'.files
  unfolding reconcile_storage
  reconcile_storage-IsStored s s' res h = collected (collect_object api s) s' res h
