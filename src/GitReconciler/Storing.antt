-- ===== src/GitReconciler/Storing.antt =====
-- `reconcileStorage`, `garbageCollect` and `reconcileDelete` of
-- internal/controller/gitrepository_controller.go.
use source_controller.Common.{
  String, Bool, true, false, not, Option, none, some, List, [], ◌∷◌, ◌||◌, if◌then◌else◌, decide,
  String-discrete,
}
use source_controller.Errors.{Err, new_generic, event_type_warning}
use source_controller.Processor.{event_type_trace}
use source_controller.Reconcile.{Result, result_empty, result_success}
use source_controller.Storage.{Artifact, artifact_exist, verify_artifact}
use source_controller.Storage.Naming.{new_artifact_for, set_artifact_url}
use source_controller.Removal
use source_controller.Removal.{remove_artifacts, garbage_collect}
use source_controller.Flow.{go, ◌>>=◌, ◌>>◌, pass, modify, get_state, give_up}
use source_controller.GitReconciler.{
  BaseApi, GitObject, Sub, wrap, with_object, delete_condition, progress, send, patch_object,
  artifact_in_storage_condition, patch_operation_failed_reason, source_finalizer,
}

module _ {Conds FS Data Reader Cluster : Type 0} (api : BaseApi Conds FS Data Reader Cluster) where
  abbrev pub exists : Artifact → FS → Bool
  exists artifact fs = artifact_exist api.storage api.base_path api.now artifact fs

  abbrev pub integrity : Artifact → FS → Option Err
  integrity artifact fs = verify_artifact api.storage api.base_path api.now artifact fs

  abbrev pub set_artifact : Option Artifact → Sub api (Unit {0})
  set_artifact artifact =
      with_object api (λ obj. record obj { status = record obj.status { artifact = artifact } })

  -- r.Storage.Remove, with its error.
  abbrev pub remove_file : Artifact → Sub api (Option Err)
  remove_file artifact s =
      let (files, err) =
        Removal.remove api.storage api.removal api.base_path api.now artifact s.files in
      (record s { files = files }, go err)

  abbrev pub new_artifact : GitObject Conds → String → String → Artifact
  new_artifact obj revision file_name =
      new_artifact_for api.naming api.hostname obj.metadata.kind obj.metadata.namespace
        obj.metadata.name revision file_name

  -- The removal of all artifacts, with the directory and the error.
  abbrev pub remove_dir : Artifact → Sub api (String × Option Err)
  remove_dir artifact s =
      let (files, deleted, err) =
        remove_artifacts api.storage api.removal api.base_path api.now artifact s.files in
      (record s { files = files }, go (deleted, err))

  abbrev pub collect_files : Artifact → Sub api (List String × Option Err)
  collect_files artifact s =
      let (files, deleted, err) =
        garbage_collect api.storage api.removal api.base_path api.now api.aggregate api.ext api.sort
          api.garbage_count_limit api.records api.ttl (api.timed_out s.files) artifact api.time
          (api.artifact_entries artifact s.files) s.files in
      (record s { files = files }, go (deleted, err))

  abbrev pub garbage_collection_failed : String
  garbage_collection_failed = "GarbageCollectionFailed"

  unfoldable pub after_remove_dir : String × Option Err → Sub api (Option Err)
  after_remove_dir (deleted, some e) = λ s. (
    s,
    go (
        some (
          new_generic (wrap "garbage collection for deleted resource failed" e)
            garbage_collection_failed)),
  )
  after_remove_dir (deleted, none) = do
    (if decide (String-discrete deleted "")
        then pass
        else send api event_type_trace "GarbageCollectionSucceeded"
            "garbage collected artifacts for deleted resource")
    set_artifact none
    λ s. (s, go none)

  unfoldable pub after_collect : List String × Option Err → Sub api (Option Err)
  after_collect (deleted, some e) = λ s. (
    s,
    go (
        some (
          new_generic (wrap "garbage collection of artifacts failed" e) garbage_collection_failed)),
  )
  after_collect ([], none) = λ s. (s, go none)
  after_collect (file ∷ files, none) = do
    send api event_type_trace "GarbageCollectionSucceeded" "garbage collected artifacts"
    λ s. (s, go none)

  unfoldable pub collect_current : Option Artifact → Sub api (Option Err)
  unfolding after_collect
  collect_current none = λ s. (s, go none)
  collect_current (some artifact) = do deleted ← collect_files artifact; after_collect deleted

  -- `garbageCollect`, with its error.
  unfoldable pub collect_object : Sub api (Option Err)
  unfolding after_remove_dir collect_current
  collect_object s =
      if not s.obj.metadata.deletion_timestamp_is_zero
      then (do deleted ← remove_dir (new_artifact s.obj "" "*"); after_remove_dir deleted) s
      else collect_current s.obj.status.artifact s

  unfoldable pub remove_finalizer : List String → List String
  remove_finalizer [] = []
  remove_finalizer (f ∷ fs) =
      let rest = remove_finalizer fs in
      if decide (String-discrete f source_finalizer) then rest else f ∷ rest

  unfoldable pub contains_finalizer : List String → Bool
  contains_finalizer [] = false
  contains_finalizer (f ∷ fs) = decide (String-discrete f source_finalizer) || contains_finalizer fs

  unfoldable pub after_collect_object : Option Err → Sub api Result
  unfolding remove_finalizer
  after_collect_object (some e) = give_up e
  after_collect_object none = do
    with_object api (λ obj. record obj {
      metadata = record obj.metadata { finalizers = remove_finalizer obj.metadata.finalizers };
    })
    modify (λ s. record s { cluster = api.forget_events s.obj.metadata s.cluster })
    λ s. (s, go result_empty)

  unfoldable pub reconcile_delete : Sub api Result
  unfolding collect_object after_collect_object
  reconcile_delete = do err ← collect_object; after_collect_object err

  -- An artifact whose file does not verify is removed; `true` says that it is missing.
  unfoldable pub after_remove_file : Option Err → Sub api Bool
  after_remove_file (some e) = give_up (wrap "failed to remove artifact after digest mismatch" e)
  after_remove_file none = λ s. (s, go true)

  unfoldable pub after_integrity : Artifact → Option Err → Sub api Bool
  unfolding after_remove_file
  after_integrity artifact none = λ s. (s, go false)
  after_integrity artifact (some e) = do
    send api event_type_warning "ArtifactVerificationFailed"
        "failed to verify integrity of artifact"
    err ← remove_file artifact
    after_remove_file err

  unfoldable pub check_artifact : Artifact → Sub api Bool
  unfolding after_integrity
  check_artifact artifact s =
      if exists artifact s.files
      then after_integrity artifact (integrity artifact s.files) s
      else (s, go true)

  unfoldable pub check_current : Option Artifact → Sub api Bool
  unfolding check_artifact
  check_current none = λ s. (s, go false)
  check_current (some artifact) = do
    missing ← check_artifact artifact
    (if missing then set_artifact none else pass)
    λ s. (s, go missing)

  unfoldable pub after_patch : Option Err → Sub api Result
  after_patch (some e) = give_up (new_generic e patch_operation_failed_reason)
  after_patch none = λ s. (s, go result_success)

  -- The end of `reconcileStorage`, by the artifact that the object has then.
  unfoldable pub record_artifact : Bool → Option Artifact → Sub api Result
  unfolding after_patch
  record_artifact missing none = do
    progress api true
        (if missing then "building artifact: disappeared from storage" else "building artifact")
    delete_condition api artifact_in_storage_condition
    err ← patch_object api
    after_patch err
  record_artifact missing (some artifact) = do
    set_artifact (some (set_artifact_url api.naming api.hostname artifact))
    λ s. (s, go result_success)

  unfoldable pub reconcile_storage : Sub api Result
  unfolding collect_object check_current record_artifact
  reconcile_storage = do
    err ← collect_object
    obj ← get_state
    missing ← check_current obj.obj.status.artifact
    checked ← get_state
    record_artifact missing checked.obj.status.artifact
