-- ===== src/GitReconciler/Included.antt =====
-- What the end of `reconcileInclude` of internal/controller/gitrepository_controller.go leaves.
use source_controller.Common.{
  ◌≡◌, refl, String, true, Option, none, some, List, [], ◌∷◌, is_some, length, ◌<◌, ◌⊎◌, inl, inr,
  arith,
}
use source_controller.Errors.{Err, Fallible, ok, fail}
use source_controller.Conditions.{has_status, status_true}
use source_controller.Reconcile.{Result, result_empty, result_success}
use source_controller.Storage.{Artifact}
use source_controller.Git.{GitRepositoryInclude}
use source_controller.Flow.{Flow, go}
use source_controller.Flow.Laws.{Outcome, Outcome-bind, Outcome-weaken}
use source_controller.GitReconciler.{
  BaseApi, State, delete_condition, storage_operation_failed_condition,
  include_unavailable_condition,
}
use source_controller.GitReconciler.Including.{
  CopyApi, Copied, fail_include, after_copy, copy_include, copy_includes, reconcile_include,
  copy_nil, copy_to_path, get_from_path, get_to_path,
}

module _ {Conds FS Data Reader Cluster : Type 0} (api : BaseApi Conds FS Data Reader Cluster)
    (os : CopyApi FS Reader) (s : State Conds FS Cluster) where
  abbrev S : Type 0
  S = State Conds FS Cluster

  abbrev Same : S → Type 0
  Same t = (t.obj.status ≡ s.obj.status) × (t.obj.spec ≡ s.obj.spec) × (t.commit ≡ s.commit)

  -- Every include has an artifact and a path in the directory, and the copies of the artifacts to
  -- these paths, one after the other, lead from the first files to the last without an error.
  abbrev pub AllCopied : String → List GitRepositoryInclude → List Artifact → FS → FS → Type 0
  AllCopied dir [] artifacts fs fs' = fs' ≡ fs
  AllCopied dir (incl ∷ incls) [] fs fs' = ⊥
  AllCopied dir (incl ∷ incls) (a ∷ artifacts) fs fs' =
      (path : String) × (mid : FS) × (api.storage.secure_join dir (get_to_path incl) ≡ ok path)
      × (copy_to_path api os a (get_from_path incl) path fs ≡ (mid, none))
      × AllCopied dir incls artifacts mid fs'

  -- All includes are copied. The status, the specification and the commit stay, and the condition is
  -- gone.
  abbrev pub IsIncluded : String → S → Result → Type 0
  IsIncluded dir t res =
      (res ≡ result_success)
      × (api.conds.get t.obj.conditions include_unavailable_condition ≡ none)
      × (t.obj.status ≡ s.obj.status)
      × (t.obj.spec ≡ s.obj.spec)
      × (t.commit ≡ s.commit)
      × AllCopied dir s.obj.spec.include s.includes s.files t.files

  -- An error, which a condition reports unless an artifact is missing; the status stays.
  abbrev pub IsNotIncluded : S → Result → Option Err → Type 0
  IsNotIncluded t res err =
      (res ≡ result_empty)
      × (is_some err ≡ true)
      × ((has_status status_true (api.conds.get t.obj.conditions storage_operation_failed_condition)
            ≡ true)
          ⊎ (length s.includes < length s.obj.spec.include))
      × (t.obj.status ≡ s.obj.status)

  -- The step from some files is a copy of the artifact.
  abbrev WasCopied : GitRepositoryInclude → Artifact → Fallible String → FS → S → Unit {0} → Type 0
  WasCopied incl a to_path fs t x =
      Same t
      × ((path : String) × (to_path ≡ ok path)
          × (copy_to_path api os a (get_from_path incl) path fs ≡ (t.files, none)))

  abbrev WereCopied :
      String → List GitRepositoryInclude → List Artifact → FS → S → Unit {0} → Type 0
  WereCopied dir incls artifacts fs t x = Same t × AllCopied dir incls artifacts fs t.files

  fail_include-IsNotIncluded :
      {A : Type 0} (P : S → A → Type 0) (message : String) (e : Err) (reason : String) (t : S)
      → Same t
      → Outcome IsNotIncluded P (fail_include api os message e reason t)
  unfolding fail_include
  fail_include-IsNotIncluded P message e reason t k = (
    refl,
    refl,
    inl (
        rw
          (
            api.conds.mark_true_lem t.obj.conditions storage_operation_failed_condition reason _,
            api.conds.get-set_self t.obj.conditions _,
          )
          refl),
    k.0,
  )

  after_copy-Same :
      (o : Copied api os) (t : S)
      → Same t
      → Outcome IsNotIncluded (λ u x. Same u × (o ≡ (u.files, none))) (after_copy api os o t)
  unfolding after_copy
  after_copy-Same (files, none) t k = (k, refl)
  after_copy-Same (files, some e) t k =
      let o : Copied api os = (files, some e) in
      fail_include-IsNotIncluded {A = Unit {0}} (λ u x. Same u × (o ≡ (u.files, none)))
        "failed to copy include" e "CopyFailure" (record t { files = files }) k

  copy_include-WasCopied :
      (incl : GitRepositoryInclude) (a : Artifact) (path : Fallible String) (t : S)
      → Same t
      → Outcome IsNotIncluded (WasCopied incl a path t.files) (copy_include api os incl a path t)
  unfolding copy_include
  copy_include-WasCopied incl a (fail e) t k =
      fail_include-IsNotIncluded (WasCopied incl a (fail e) t.files)
        "path calculation for include failed" e "IllegalPath" t k
  copy_include-WasCopied incl a (ok path) t k =
      let copied = copy_to_path api os a (get_from_path incl) path t.files in
      Outcome-weaken IsNotIncluded (λ u x. Same u × (copied ≡ (u.files, none)))
        (WasCopied incl a (ok path) t.files) (after_copy api os copied t)
        (λ u x h. (h.0, (path, refl, h.1))) (after_copy-Same copied t k)

  -- A missing artifact ends the loop.
  copy_nil-IsNotIncluded :
      (path : Fallible String) (t : S)
      → length s.includes < length s.obj.spec.include
      → Same t
      → Outcome IsNotIncluded (λ u x. ⊥) (copy_nil api os path t)
  unfolding copy_nil
  copy_nil-IsNotIncluded (fail e) t short k =
      fail_include-IsNotIncluded {A = Unit {0}} (λ u x. ⊥) "path calculation for include failed" e
        "IllegalPath" t k
  copy_nil-IsNotIncluded (ok path) t short k = (refl, refl, inr short, k.0)

  copy_includes-WereCopied :
      (dir : String) (incls : List GitRepositoryInclude) (artifacts : List Artifact) (t : S)
      → (length artifacts < length incls → length s.includes < length s.obj.spec.include)
      → Same t
      → Outcome IsNotIncluded
          (WereCopied dir incls artifacts t.files)
          (copy_includes api os dir incls artifacts t)
  unfolding copy_includes
  copy_includes-WereCopied dir [] artifacts t short k = (k, refl)
  copy_includes-WereCopied dir (incl ∷ incls) [] t short k =
      let rest : Unit {0} → S → S × Flow (Unit {0}) = λ x u. copy_includes api os dir incls [] u in
      Outcome-bind IsNotIncluded (λ u x. ⊥) (WereCopied dir (incl ∷ incls) [] t.files) rest _
        (copy_nil-IsNotIncluded _ t (short (omega arith)) k) (λ u x k'. absurd k')
  copy_includes-WereCopied dir (incl ∷ incls) (a ∷ artifacts) t short k =
      let rest : Unit {0} → S → S × Flow (Unit {0}) =
        λ x u. copy_includes api os dir incls artifacts u in
      let path = api.storage.secure_join dir (get_to_path incl) in
      Outcome-bind IsNotIncluded (WasCopied incl a path t.files)
        (WereCopied dir (incl ∷ incls) (a ∷ artifacts) t.files) rest _
        (copy_include-WasCopied incl a path t k)
        (λ u x k'.
          Outcome-weaken IsNotIncluded (WereCopied dir incls artifacts u.files)
            (WereCopied dir (incl ∷ incls) (a ∷ artifacts) t.files) (rest x u)
            (λ v y h. (h.0, (k'.1.0, u.files, k'.1.1, k'.1.2, h.1)))
            (copy_includes-WereCopied dir incls artifacts u (λ l. short (omega arith)) k'.0))

  -- However `reconcileInclude` ends, the status stays as it was. It ends with a success only if every
  -- include has an artifact and a secure path, and the copies of all artifacts to these paths, one
  -- after the other, have led to the files at the end without an error; then the includes are not
  -- reported as unavailable and the commit and the specification stay. Else it ends with an error,
  -- which the condition of a failed storage operation reports unless there are fewer artifacts than
  -- includes.
  pub reconcile_include-IsIncluded :
      (dir : String) → Outcome IsNotIncluded (IsIncluded dir) (reconcile_include api os dir s)
  unfolding reconcile_include
  reconcile_include-IsIncluded dir =
      let last : Unit {0} → S → S × Flow Result =
        λ x u. ((delete_condition api include_unavailable_condition u).0, go result_success) in
      Outcome-bind IsNotIncluded (WereCopied dir s.obj.spec.include s.includes s.files)
        (IsIncluded dir) last _
        (copy_includes-WereCopied dir s.obj.spec.include s.includes s (λ l. l) (refl, refl, refl))
        (λ u x k. (
          refl,
          api.conds.get-delete_self u.obj.conditions include_unavailable_condition,
          k.0.0,
          k.0.1,
          k.0.2,
          k.1,
        ))
