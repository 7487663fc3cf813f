-- ===== src/GitReconciler/Deleted.antt =====
-- What `reconcileDelete` of internal/controller/gitrepository_controller.go leaves.
use source_controller.Common.{
  ◌≡◌, refl, sym, ap, ◌∙◌, String, false, not, Option, none, some, List, [], ◌∷◌, arith, Bool-cases,
  inl, inr, if◌then◌else◌, decide, String-discrete,
}
use source_controller.Errors.{Err}
use source_controller.Reconcile.{Result, result_empty}
use source_controller.Flow.{Flow, go, stop, after_flow}
use source_controller.Removal.{remove_artifacts}
use source_controller.Processor.{event_type_trace}
use source_controller.GitReconciler.{BaseApi, State, send, source_finalizer}
use source_controller.GitReconciler.Storing.{
  contains_finalizer, after_collect_object, collect_object, after_remove_dir, reconcile_delete,
  collect_current, new_artifact, set_artifact, remove_finalizer,
}

module _ {Conds FS Data Reader Cluster : Type 0} (api : BaseApi Conds FS Data Reader Cluster) where
  abbrev S : Type 0
  S = State Conds FS Cluster

  contains_finalizer-remove_finalizer :
      (fs : List String) → contains_finalizer api (remove_finalizer api fs) ≡ false
  unfolding remove_finalizer contains_finalizer
  contains_finalizer-remove_finalizer [] = refl
  contains_finalizer-remove_finalizer (f ∷ fs) =
      elim (Bool-cases (decide (String-discrete f source_finalizer))) [
        | inl u ↦ rw u (contains_finalizer-remove_finalizer fs)
        | inr u ↦ rw u (rw u (contains_finalizer-remove_finalizer fs))
      ]

  abbrev cleared : S → S
  cleared s = (set_artifact api none s).0

  abbrev traced : S → S
  traced s =
      (send api event_type_trace "GarbageCollectionSucceeded"
        "garbage collected artifacts for deleted resource" s).0

  after_remove_dir-go :
      (deleted : String) (e : Option Err) (s s' : S) (err : Option Err)
      → after_remove_dir api (deleted, e) s ≡ (s', go err)
      → err ≡ none
      → (e ≡ none) × (s'.obj.status.artifact ≡ none)
  unfolding after_remove_dir
  after_remove_dir-go deleted (some e) s s' err h n = absurd (ground (arith, n, ap (λ o. o.1) h))
  after_remove_dir-go deleted none s s' err h n =
      elim (Bool-cases (decide (String-discrete deleted ""))) [
        | inl u ↦
            let end : cleared s ≡ s' = ap (λ o. o.0) (rw u at h) in
            (refl, sym (ap (λ s. s.obj.status.artifact) end))
        | inr u ↦
            let end : cleared (traced s) ≡ s' = ap (λ o. o.0) (rw u at h) in
            (refl, sym (ap (λ s. s.obj.status.artifact) end))
      ]

  after_collect_object-go :
      (err : Option Err) (s s' : S) (res : Result)
      → after_collect_object api err s ≡ (s', go res)
      → (err ≡ none)
        × (res ≡ result_empty)
        × (s'.obj.status ≡ s.obj.status)
        × (contains_finalizer api s'.obj.metadata.finalizers ≡ false)
  unfolding after_collect_object
  after_collect_object-go none s s' res h = (
    refl,
    ground (arith, ap (λ o. o.1) h),
    sym (ap (λ o. o.0.obj.status) h),
    ap (contains_finalizer api) (sym (ap (λ o. o.0.obj.metadata.finalizers) h))
        ∙ contains_finalizer-remove_finalizer s.obj.metadata.finalizers,
  )
  after_collect_object-go (some e) s s' res h = absurd (ground (arith, ap (λ o. o.1) h))

  deleted-go :
      (e : Option Err) (o : S × Flow (Option Err)) (s' : S) (res : Result)
      → ((t : S) (err : Option Err)
          → o ≡ (t, go err)
          → err ≡ none
          → (e ≡ none) × (t.obj.status.artifact ≡ none))
      → after_flow (after_collect_object api) o ≡ (s', go res)
      → (res ≡ result_empty)
        × (e ≡ none)
        × (s'.obj.status.artifact ≡ none)
        × (contains_finalizer api s'.obj.metadata.finalizers ≡ false)
  deleted-go e (t, go err) s' res c h =
      let end = after_collect_object-go err t s' res h in
      let removed = c t err refl end.0 in
      (end.1, removed.0, ap (λ status. status.artifact) end.2 ∙ removed.1, end.3)
  deleted-go e (t, stop r x) s' res c h = absurd (ground (arith, ap (λ o. o.1) h))

  abbrev pub dir_of : S → FS × String × Option Err
  dir_of s =
      remove_artifacts api.storage api.removal api.base_path api.now (new_artifact api s.obj "" "*")
        s.files

  abbrev removed_dir : S → S
  removed_dir s = record s { files = (dir_of s).0 }

  collect_object-deleted :
      (s : S)
      → s.obj.metadata.deletion_timestamp_is_zero ≡ false
      → collect_object api s ≡ after_remove_dir api ((dir_of s).1, (dir_of s).2) (removed_dir s)
  unfolding collect_object
  collect_object-deleted s d =
      ap
        (λ b.
          if not b
          then after_remove_dir api ((dir_of s).1, (dir_of s).2) (removed_dir s)
          else collect_current api s.obj.status.artifact s)
        d

  -- If `reconcileDelete` of an object under deletion ends without an error, then the removal of the
  -- directory of its artifacts had no error, its status names no artifact, and its finalizers do not
  -- hold the finalizer of the controller.
  pub reconcile_delete-contains_finalizer :
      (s s' : S) (res : Result)
      → s.obj.metadata.deletion_timestamp_is_zero ≡ false
      → reconcile_delete api s ≡ (s', go res)
      → (res ≡ result_empty)
        × ((dir_of s).2 ≡ none)
        × (s'.obj.status.artifact ≡ none)
        × (contains_finalizer api s'.obj.metadata.finalizers ≡ false)
  unfolding reconcile_delete
  reconcile_delete-contains_finalizer s s' res d h =
      let dir = dir_of s in
      let removed = removed_dir s in
      deleted-go dir.2 (after_remove_dir api (dir.1, dir.2) removed) s' res
        (λ t err o n. after_remove_dir-go dir.1 dir.2 removed t err o n)
        (ap (after_flow (after_collect_object api)) (sym (collect_object-deleted s d)) ∙ h)
