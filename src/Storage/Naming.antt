-- ===== src/Storage/Naming.antt =====
-- The names and addresses of artifacts: `NewArtifactFor` and `SetArtifactURL` of
-- internal/controller/storage.go, `ArtifactDir` and `ArtifactPath` of api/v1/artifact_types.go.
use Prim.Native.String as Text
use text.Mathlib.Text.{starts_with}
use source_controller.Common.{
  String, ◌||◌, none, List, [], ◌∷◌, if◌then◌else◌, decide, String-discrete,
}
use source_controller.Storage.{Artifact}

-- path.Join, strings.ToLower, and strings.TrimLeft of slashes.
pub record NamingApi : Type 0 where
  pub path_join : List String → String
  pub to_lower : String → String
  pub trim_left : String → String

unfoldable pub artifact_dir : NamingApi → String → String → String → String
artifact_dir names kind namespace name =
    names.path_join (names.to_lower kind ∷ namespace ∷ name ∷ [])

unfoldable pub artifact_path : NamingApi → String → String → String → String → String
unfolding artifact_dir
artifact_path names kind namespace name filename =
    names.path_join (artifact_dir names kind namespace name ∷ filename ∷ [])

unfoldable pub artifact_url : NamingApi → String → String → String
artifact_url names hostname path =
    let rest = Text.◌++◌ hostname (Text.◌++◌ "/" (names.trim_left path)) in
    if starts_with hostname "http://" || starts_with hostname "https://"
    then rest
    else Text.◌++◌ "http://" rest

unfoldable pub set_artifact_url : NamingApi → String → Artifact → Artifact
unfolding artifact_url
set_artifact_url names hostname artifact = record artifact {
  url =
      if decide (String-discrete artifact.path "")
      then artifact.url
      else artifact_url names hostname artifact.path;
}

unfoldable pub new_artifact_for :
    NamingApi → String → String → String → String → String → String → Artifact
unfolding artifact_path set_artifact_url
new_artifact_for names hostname kind namespace name revision file_name =
    set_artifact_url names hostname (record {
      path = artifact_path names kind namespace name file_name;
      url = "";
      revision = revision;
      digest = "";
      last_update_time = 0;
      size = none;
      metadata = [];
    })
