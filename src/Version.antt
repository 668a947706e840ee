-- ===== src/Version.antt =====
-- internal/version/version.go, and the version command of internal/cmd/version.go.
pub mod Settings
use libvirt_operator.Prelude.{
  String, Bool, List, [], ◌∷◌, Option, none, some, if◌then◌else◌, str_eq,
}
use Prim.Native.String.{◌++◌}
use libvirt_operator.Outcome.{Outcome, ok, err, panic, hang, error_text, ◌>>=◌}

pub record Info : Type 0 where
  pub version : String
  pub git_commit : String
  pub git_commit_date : String
  pub git_tree_state : String
  pub go_version : String
  pub compiler : String
  pub platform : String

-- debug.BuildInfo
pub record BuildInfo : Type 0 where
  pub go_version : String
  pub settings : List (String × String)

abbrev pub no_info : Info
no_info = record {
  version = "";
  git_commit = "";
  git_commit_date = "";
  git_tree_state = "";
  go_version = "";
  compiler = "";
  platform = "";
}

-- The variables of NewInfo while it goes through the settings.
pub record Read : Type 0 where
  pub info : Info
  pub os : String
  pub arch : String

abbrev pub tree_state : String → String
tree_state modified = if str_eq modified "true" then "dirty" else "clean"

-- One round of the loop.
unfoldable pub read_setting : Read → String → String → Read
read_setting r key value =
    let i = r.info in
    if str_eq key "vcs.revision"
    then record r { info = record i { git_commit = value } }
    else if str_eq key "vcs.time"
    then record r { info = record i { git_commit_date = value } }
    else if str_eq key "vcs.modified"
    then record r { info = record i { git_tree_state = tree_state value } }
    else if str_eq key "GOOS"
    then record r { os = value }
    else if str_eq key "GOARCH"
    then record r { arch = value }
    else if str_eq key "-compiler"
    then record r { info = record i { compiler = value } }
    else r

unfoldable pub read_settings : Read → List (String × String) → Read
read_settings r [] = r
read_settings r ((key, value) ∷ settings) = read_settings (read_setting r key value) settings

-- NewInfo, by the variable `version` that the build sets and what debug.ReadBuildInfo gives.
unfoldable pub new_info : String → Option BuildInfo → Info
new_info version none = no_info
new_info version (some bi) =
    let r = read_settings (record { info = no_info; os = ""; arch = "" }) bi.settings in
    let i = r.info in
    record i {
      version = if str_eq version "" then "sha-" ++ i.git_commit else version;
      go_version = bi.go_version;
      platform = r.os ++ ("/" ++ r.arch);
    }

-- Info.String
unfoldable pub info_string : Info → String
info_string i = "version: " ++ i.version

-- The encoders: json.MarshalIndent, and what the YAML encoder writes for Encode and for Close.
pub record Encoders : Type 0 where
  pub marshal_json : Info → Outcome String
  pub encode_yaml : Info → Outcome String
  pub close_yaml : Outcome String

module _ (encoders : Encoders) where
  -- Info.JSON
  unfoldable pub info_json : Info → Outcome String
  info_json i = encoders.marshal_json i >>= (λ s. ok s)

  -- Info.YAML, with util.Marshal of an empty buffer.
  unfoldable pub info_yaml : Info → Outcome String
  info_yaml i = encoders.encode_yaml i >>= (λ s. encoders.close_yaml >>= (λ rest. ok (s ++ rest)))

  -- The text of an error takes the place of the information.
  abbrev pub text_or_error : Outcome String → Outcome String
  text_or_error (err e) = ok (error_text e)
  text_or_error o = o

  -- runVersion: the line that it prints.
  unfoldable pub run_version : String → String → Option BuildInfo → Outcome String
  run_version output version build =
      let i = new_info version build in
      if str_eq output "json"
      then text_or_error (info_json i)
      else if str_eq output "yaml"
      then text_or_error (info_yaml i)
      else ok (info_string i)
