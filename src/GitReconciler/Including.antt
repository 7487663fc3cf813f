-- ===== src/GitReconciler/Including.antt =====
-- `reconcileInclude` of internal/controller/gitrepository_controller.go, and `CopyToPath` of
-- internal/controller/storage.go.
use source_controller.Common.{
  ℕ, String, Option, none, some, List, [], ◌∷◌, decide, String-discrete, if◌then◌else◌,
}
use source_controller.Errors.{Err, plain, error, Fallible, ok, fail, new_generic}
use source_controller.Reconcile.{Result, result_success}
use source_controller.Storage.{Artifact, local_path}
use source_controller.Git.{GitRepositoryInclude}
use source_controller.Flow.{go, ◌>>=◌, ◌>>◌, pass, get_state, give_up}
use source_controller.GitReconciler.{
  BaseApi, Sub, wrap, mark_true, delete_condition, storage_operation_failed_condition,
  include_unavailable_condition,
}

-- What else it uses of packages os and tar.
pub record CopyApi (FS Reader : Type 0) : Type 0 where
  pub mkdir_temp : String → String → FS → FS × Fallible String
  pub untar : Reader → String → FS → FS × Option Err
  pub mkdir_all : String → ℕ → FS → FS × Option Err

-- `GetFromPath` and `GetToPath` of api/v1/gitrepository_types.go.
unfoldable pub get_from_path : GitRepositoryInclude → String
get_from_path incl = incl.from_path

unfoldable pub get_to_path : GitRepositoryInclude → String
get_to_path incl =
    if decide (String-discrete incl.to_path "") then incl.git_repository_ref else incl.to_path

module _ {Conds FS Data Reader Cluster : Type 0} (api : BaseApi Conds FS Data Reader Cluster)
    (os : CopyApi FS Reader) where
  abbrev pub Copied : Type 0
  Copied = FS × Option Err

  unfoldable pub copy_from : String → FS → Fallible String → Copied
  copy_from to_path fs (fail e) = (fs, some e)
  copy_from to_path fs (ok from_path) = api.storage.rename_with_fallback from_path to_path fs

  unfoldable pub after_mkdir : String → String → String → Copied → Copied
  unfolding copy_from
  after_mkdir untar_path sub_path to_path (fs, some e) = (fs, some e)
  after_mkdir untar_path sub_path to_path (fs, none) =
      copy_from to_path fs (api.storage.secure_join untar_path sub_path)

  unfoldable pub after_untar : String → String → String → Copied → Copied
  unfolding after_mkdir
  after_untar untar_path sub_path to_path (fs, some e) = (fs, some e)
  after_untar untar_path sub_path to_path (fs, none) =
      after_mkdir untar_path sub_path to_path (os.mkdir_all (api.removal.dir to_path) 0o777 fs)

  unfoldable pub unpack : String → String → String → FS → Fallible Reader → Copied
  unfolding after_untar
  unpack tmp sub_path to_path fs (fail e) = (fs, some e)
  unpack tmp sub_path to_path fs (ok f) =
      let untar_path = api.naming.path_join (tmp ∷ "unpack" ∷ []) in
      after_untar untar_path sub_path to_path (os.untar f untar_path fs)

  -- The temporary directory is removed at the end.
  unfoldable pub without_tmp : String → Copied → Copied
  without_tmp tmp (fs, err) = ((api.removal.remove_all tmp fs).0, err)

  unfoldable pub with_tmp : Artifact → String → String → FS × Fallible String → Copied
  unfolding unpack without_tmp
  with_tmp artifact sub_path to_path (fs, fail e) = (fs, some e)
  with_tmp artifact sub_path to_path (fs, ok tmp) = without_tmp tmp (
      unpack tmp sub_path to_path fs
        (api.storage.open_file (local_path api.storage api.base_path api.now artifact) fs))

  unfoldable pub copy_to_path : Artifact → String → String → FS → Copied
  unfolding with_tmp
  copy_to_path artifact sub_path to_path fs =
      with_tmp artifact sub_path to_path (os.mkdir_temp "" "flux-include-" fs)

  unfoldable pub fail_include : {A : Type 0} → String → Err → String → Sub api A
  fail_include message err reason = do
    mark_true api storage_operation_failed_condition reason
        (error (new_generic (wrap message err) reason))
    give_up (new_generic (wrap message err) reason)

  unfoldable pub after_copy : Copied → Sub api (Unit {0})
  unfolding fail_include
  after_copy (files, none) s = (record s { files = files }, go tt)
  after_copy (files, some e) s =
      fail_include "failed to copy include" e "CopyFailure" (record s { files = files })

  unfoldable pub copy_include :
      GitRepositoryInclude → Artifact → Fallible String → Sub api (Unit {0})
  unfolding copy_to_path after_copy fail_include get_from_path
  copy_include incl artifact (fail e) s =
      fail_include "path calculation for include failed" e "IllegalPath" s
  copy_include incl artifact (ok to_path) s =
      after_copy (copy_to_path artifact (get_from_path incl) to_path s.files) s

  -- An include without an artifact at its index: `CopyToPath` panics on the nil artifact, behind its
  -- temporary directory, which it removes. The panic is an end with an error that no condition
  -- reports.
  unfoldable pub copy_nil : Fallible String → Sub api (Unit {0})
  unfolding fail_include
  copy_nil (fail e) = fail_include "path calculation for include failed" e "IllegalPath"
  copy_nil (ok to_path) = give_up (plain "nil pointer dereference")

  -- The loop over the includes, with the artifact at the same index. Artifacts without an include are
  -- not looked at.
  unfoldable pub copy_includes :
      String → List GitRepositoryInclude → List Artifact → Sub api (Unit {0})
  unfolding copy_include copy_nil get_to_path
  copy_includes dir [] artifacts = pass
  copy_includes dir (incl ∷ incls) [] = do
    copy_nil (api.storage.secure_join dir (get_to_path incl))
    copy_includes dir incls []
  copy_includes dir (incl ∷ incls) (artifact ∷ artifacts) = do
    copy_include incl artifact (api.storage.secure_join dir (get_to_path incl))
    copy_includes dir incls artifacts

  unfoldable pub reconcile_include : String → Sub api Result
  unfolding copy_includes
  reconcile_include dir = do
    s ← get_state
    copy_includes dir s.obj.spec.include s.includes
    delete_condition api include_unavailable_condition
    λ s. (s, go result_success)
