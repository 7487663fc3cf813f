-- ===== src/GitReconciler/Chained.antt =====
-- What a run of all sub-reconcilers of internal/controller/gitrepository_controller.go says of the
-- artifact.
use source_controller.Common.{
  ◌≡◌, refl, ap, subst, String, true, false, Option, none, some, [], ◌∷◌, arith, is_some,
}
use source_controller.Errors.{Err, ok}
use source_controller.Reconcile.{Result, result_empty, result_requeue, result_success}
use source_controller.Flow.{Flow, go, stop, returned}
use source_controller.Flow.Laws.{Outcome}
use source_controller.GitReconciler.{BaseApi, State}
use source_controller.GitReconciler.Storing.{reconcile_storage}
use source_controller.GitReconciler.Authorising.{AuthApi}
use source_controller.GitReconciler.Fetching.{GitApi}
use source_controller.GitReconciler.Sourcing.{reconcile_source}
use source_controller.GitReconciler.Fetched.{IsFailed}
use source_controller.GitReconciler.Accepted.{IsAccepted}
use source_controller.GitReconciler.Sourced.{reconcile_source-IsAccepted}
use source_controller.GitReconciler.Including.{CopyApi, reconcile_include}
use source_controller.GitReconciler.Included.{
  IsNotIncluded, IsIncluded, reconcile_include-IsIncluded,
}
use source_controller.GitReconciler.Archiving.{ArchivingApi, reconcile_artifact}
use source_controller.GitReconciler.Archived.{reconcile_artifact-IsReconciled}
use source_controller.GitReconciler.Recorded.{Unrecorded, IsReconciled, artifact_of}
use source_controller.GitReconciler.Looping.{
  SubReconciler, LoopEnd, ended, after_sub, run_sub_reconcilers, in_dir,
}
use source_controller.GitReconciler.Chain.{reconcilers}

module _ {S : Type 0} where
  -- A loop that ends without an error has gone on behind its first step.
  after_sub-ended :
      (next : Result → S → S × LoopEnd) (res : Result) (o : S × Result × Option Err) (t : S)
      (r : Result)
      → after_sub next res o ≡ (t, ended r none)
      → (u : S) × (x : Result) × (res' : Result) × (o ≡ (u, x, none))
        × (next res' u ≡ (t, ended r none))
  unfolding after_sub
  after_sub-ended next res (u, result_requeue, err) t r h = absurd (ground (arith, ap (λ o. o.1) h))
  after_sub-ended next res (u, result_empty, some e) t r h =
      absurd (ground (arith, ap (λ o. o.1) h))
  after_sub-ended next res (u, result_success, some e) t r h =
      absurd (ground (arith, ap (λ o. o.1) h))
  after_sub-ended next res (u, result_empty, none) t r h = (u, result_empty, _, refl, h)
  after_sub-ended next res (u, result_success, none) t r h = (u, result_success, _, refl, h)

  -- A step that returns no error has gone on.
  returned-done :
      (F : S → Result → Option Err → Type 0) (P : S → Result → Type 0) (o : S × Flow Result) (u : S)
      (x : Result)
      → ((s : S) (res : Result) (err : Option Err) → F s res err → is_some err ≡ true)
      → Outcome F P o
      → returned o ≡ (u, x, none)
      → P u x
  returned-done F P (s, go a) u x k p h = subst (λ o. P o.0 o.1) h p
  returned-done F P (s, stop res err) u x k p h =
      absurd (ground (arith, k s res err p, ap (λ o. o.2) h))

module _ {Conds FS Data Reader Cluster Url Client Pattern Matcher : Type 0}
    (api : BaseApi Conds FS Data Reader Cluster) (auth : AuthApi Cluster Url)
    (git : GitApi FS Cluster Client) (copier : CopyApi FS Reader)
    (os : ArchivingApi FS Data Reader Pattern Matcher)
    -- A regular file is no symbolic link, and a lock is released without a change of other content.
    (lstat_regular : (p : String) (fs : FS) (d : Data)
      → api.storage.read fs p ≡ some d
      → os.lstat_is_symlink p fs ≡ ok false)
    (unlock_frame : (l p : String) (fs : FS)
      → api.storage.read (os.unlock l fs) p ≡ api.storage.read fs p) where
  abbrev Run : Type 0
  Run = State Conds FS Cluster

  -- If a run of all sub-reconcilers from a state ends without an error and without a requeue, then
  -- `reconcileStorage` from that state, `reconcileSource` from its end, `reconcileInclude` from there
  -- and `reconcileArtifact` from there have all returned no error, the last three with a success, and
  -- the end of `reconcileArtifact` is the end of the run. Behind `reconcileSource` there is a commit
  -- for which the verification that the object asks for is settled, `reconcileInclude` keeps that
  -- commit and the specification, and at the end the status names an artifact of that commit, which
  -- is up to date or has been built.
  pub run_sub_reconcilers-IsReconciled :
      (dir : String) (res r : Result) (s t : Run)
      → run_sub_reconcilers
          (in_dir api copier.mkdir_temp dir (reconcilers api auth git copier os))
          res
          s
        ≡ (t, ended r none)
      → (x : Result) × (stored : Run) × (sourced : Run) × (included : Run) × (returned
            (reconcile_storage api s)
          ≡ (stored, x, none))
        × (returned (reconcile_source api auth git dir stored) ≡ (sourced, result_success, none))
        × (returned (reconcile_include api copier dir sourced) ≡ (included, result_success, none))
        × (returned (reconcile_artifact api os dir included) ≡ (t, result_success, none))
        × IsAccepted api auth git stored sourced result_success
        × (included.commit ≡ sourced.commit)
        × (included.obj.spec ≡ sourced.obj.spec)
        × IsReconciled api os included (artifact_of api os included) t result_success
  unfolding run_sub_reconcilers in_dir reconcilers
  run_sub_reconcilers-IsReconciled dir res r s t h =
      let step2 : SubReconciler Run = λ u. returned (reconcile_source api auth git dir u) in
      let step3 : SubReconciler Run = λ u. returned (reconcile_include api copier dir u) in
      let step4 : SubReconciler Run = λ u. returned (reconcile_artifact api os dir u) in
      let (s1, x1, r1, e1, h1) =
        after_sub-ended (run_sub_reconcilers (step2 ∷ step3 ∷ step4 ∷ [])) res
          (returned (reconcile_storage api s)) t r h in
      let (s2, x2, r2, e2, h2) =
        after_sub-ended (run_sub_reconcilers (step3 ∷ step4 ∷ [])) r1 (step2 s1) t r h1 in
      let (s3, x3, r3, e3, h3) =
        after_sub-ended (run_sub_reconcilers (step4 ∷ [])) r2 (step3 s2) t r h2 in
      let (s4, x4, r4, e4, h4) = after_sub-ended (run_sub_reconcilers []) r3 (step4 s3) t r h3 in
      let a = artifact_of api os s3 in
      let sourced =
        returned-done (IsFailed api auth git) (IsAccepted api auth git s1)
          (reconcile_source api auth git dir s1) s2 x2 (λ u res err f. f.1)
          (reconcile_source-IsAccepted api auth git dir s1) e2 in
      let included =
        returned-done (IsNotIncluded api copier s2) (IsIncluded api copier s2 dir)
          (reconcile_include api copier dir s2) s3 x3 (λ u res err f. f.1)
          (reconcile_include-IsIncluded api copier s2 dir) e3 in
      let built =
        returned-done (Unrecorded api os s3 a) (IsReconciled api os s3 a)
          (reconcile_artifact api os dir s3) s4 x4 (λ u res err f. f.1)
          (reconcile_artifact-IsReconciled api os lstat_regular unlock_frame dir s3) e4 in
      let last : s4 ≡ t = ap (λ o. o.0) h4 in
      (
        x1,
        s1,
        s2,
        s3,
        e1,
        subst (λ x. step2 s1 ≡ (s2, x, none)) sourced.0 e2,
        subst (λ x. step3 s2 ≡ (s3, x, none)) included.0 e3,
        subst (λ u. step4 s3 ≡ (u, result_success, none)) last
            (subst (λ x. step4 s3 ≡ (s4, x, none)) built.0 e4),
        (refl, sourced.1),
        included.4,
        included.3,
        subst (λ t. IsReconciled api os s3 a t result_success) last (refl, built.1),
      )
