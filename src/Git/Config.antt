-- ===== src/Git/Config.antt =====
-- When the artifact of a GitRepository has to be built again: `gitContentConfigChanged` of
-- internal/controller/gitrepository_controller.go.
use source_controller.Common.{◌≡◌, ap, sym, ◌∙◌, ◌↔◌, false, List, length}
use source_controller.Storage.{Artifact}
use source_controller.Git.{GitRepository, requires_verification, git_content_config_changed}
use source_controller.Git.Lists.{
  AllMatch, or-false, sizes-false, ptr_equal-true, dirs_changed-false, includes_changed-false,
  length-AllMatch, same_bool-true,
}

-- The content need not be built again exactly if everything observed is what the specification
-- says, no verification is due, and the included artifacts are those of the set.
pub git_content_config_changed-false :
    (obj : GitRepository) (artifacts : List Artifact)
    → (git_content_config_changed obj artifacts ≡ false) ↔ (
        (obj.spec.ignore ≡ obj.status.observed_ignore)
        × (obj.spec.recurse_submodules ≡ obj.status.observed_recurse_submodules)
        × (obj.spec.include ≡ obj.status.observed_include)
        × (requires_verification obj ≡ false)
        × (obj.spec.sparse_checkout ≡ obj.status.observed_sparse_checkout)
        × (length obj.spec.include ≡ length artifacts)
        × AllMatch obj.status.included_artifacts artifacts)
unfolding git_content_config_changed
git_content_config_changed-false obj artifacts = (
  λ h.
      let (ignore, h1) = (or-false _ _).0 h in
      let (recurse, h2) = (or-false _ _).0 h1 in
      let (includes, h3) = (or-false _ _).0 h2 in
      let (verified, h4) = (or-false _ _).0 h3 in
      let (dirs, h5) = (or-false _ _).0 h4 in
      let (same_dirs, h6) = (or-false _ _).0 h5 in
      let (sets, h7) = (or-false _ _).0 h6 in
      let (all, changed) = (or-false _ _).0 h7 in
      let n = (sizes-false obj.spec.include obj.status.observed_include).0 includes in
      let o = (sizes-false obj.spec.include obj.status.included_artifacts).0 all in
      let p = (sizes-false obj.spec.include artifacts).0 sets in
      let (same_includes, match) =
        (includes_changed-false obj.spec.include obj.status.observed_include
            obj.status.included_artifacts artifacts n o p).0
          changed in
      (
        (ptr_equal-true obj.spec.ignore obj.status.observed_ignore).0 ignore,
        (same_bool-true obj.spec.recurse_submodules obj.status.observed_recurse_submodules).0
            recurse,
        same_includes,
        verified,
        (dirs_changed-false obj.spec.sparse_checkout obj.status.observed_sparse_checkout
              ((sizes-false obj.spec.sparse_checkout obj.status.observed_sparse_checkout).0 dirs)).0
            same_dirs,
        p,
        match,
      ),
  λ (ignore, recurse, includes, verified, dirs, p, match).
      let n : length obj.spec.include ≡ length obj.status.observed_include = ap length includes in
      let d : length obj.spec.sparse_checkout ≡ length obj.status.observed_sparse_checkout =
        ap length dirs in
      let o : length obj.spec.include ≡ length obj.status.included_artifacts =
        p ∙ sym (length-AllMatch obj.status.included_artifacts artifacts match) in
      (or-false _ _).1 (
        (ptr_equal-true obj.spec.ignore obj.status.observed_ignore).1 ignore,
        (or-false _ _).1 (
          (same_bool-true obj.spec.recurse_submodules obj.status.observed_recurse_submodules).1
              recurse,
          (or-false _ _).1 (
            (sizes-false obj.spec.include obj.status.observed_include).1 n,
            (or-false _ _).1 (
              verified,
              (or-false _ _).1 (
                (sizes-false obj.spec.sparse_checkout obj.status.observed_sparse_checkout).1 d,
                (or-false _ _).1 (
                  (dirs_changed-false obj.spec.sparse_checkout obj.status.observed_sparse_checkout
                        d).1
                      dirs,
                  (or-false _ _).1 (
                    (sizes-false obj.spec.include artifacts).1 p,
                    (or-false _ _).1 (
                      (sizes-false obj.spec.include obj.status.included_artifacts).1 o,
                      (includes_changed-false obj.spec.include obj.status.observed_include
                            obj.status.included_artifacts artifacts n o p).1
                          (includes, match),
                    ),
                  ),
                ),
              ),
            ),
          ),
        ),
      ),
)
