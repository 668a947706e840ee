-- ===== src/Version/Settings.antt =====
-- What NewInfo says of a build: for each key the last setting counts.
use libvirt_operator.Prelude.{
  String, List, [], ◌∷◌, Option, none, some, if◌then◌else◌, str_eq, ◌≡◌, refl, eq_iff, arith,
  Bool-cases, inl, inr,
}
use Prim.Native.String.{◌++◌}
use libvirt_operator.Version.{
  Info, BuildInfo, Read, no_info, tree_state, read_setting, read_settings, new_info,
}

-- The last value of a key, if it is set.
abbrev pub last_value : String → List (String × String) → Option String
last_value key [] = none
last_value key ((k, v) ∷ settings) =
    let rest = last_value key settings in
    elim rest [ some w ↦ some w | none ↦ if str_eq k key then some v else none ]

-- A field that a round sets to f of the value exactly at one key.
abbrev Assigns : (Read → String) → String → (String → String) → Type 0
Assigns field key f =
    (r : Read) (k v : String) → field (read_setting r k v) ≡ (if str_eq k key then f v else field r)

-- A value through f, or d where there is none.
abbrev pub mapped : (String → String) → String → Option String → String
mapped f d none = d
mapped f d (some v) = f v

sets_last :
    (field : Read → String) (key : String) (f : String → String)
    → Assigns field key f
    → (r : Read) (settings : List (String × String))
    → field (read_settings r settings) ≡ mapped f (field r) (last_value key settings)
unfolding read_settings
sets_last field key f sets r [] = refl
sets_last field key f sets r ((k, v) ∷ settings) =
    ground (arith, sets r k v, sets_last field key f sets (read_setting r k v) settings)

sets_commit : Assigns (λ r. r.info.git_commit) "vcs.revision" (λ v. v)
unfolding read_setting
sets_commit r k v = elim (Bool-cases (str_eq k "vcs.revision")) [
  | inl h ↦ rw ((eq_iff k "vcs.revision").0 h) refl
  | inr h ↦ ground (arith, h)
]

sets_date : Assigns (λ r. r.info.git_commit_date) "vcs.time" (λ v. v)
unfolding read_setting
sets_date r k v = elim (Bool-cases (str_eq k "vcs.time")) [
  | inl h ↦ rw ((eq_iff k "vcs.time").0 h) refl
  | inr h ↦ ground (arith, h)
]

sets_tree_state : Assigns (λ r. r.info.git_tree_state) "vcs.modified" (tree_state)
unfolding read_setting
sets_tree_state r k v = elim (Bool-cases (str_eq k "vcs.modified")) [
  | inl h ↦ rw ((eq_iff k "vcs.modified").0 h) refl
  | inr h ↦ ground (arith, h)
]

sets_os : Assigns (λ r. r.os) "GOOS" (λ v. v)
unfolding read_setting
sets_os r k v = elim (Bool-cases (str_eq k "GOOS")) [
  | inl h ↦ rw ((eq_iff k "GOOS").0 h) refl
  | inr h ↦ ground (arith, h)
]

sets_arch : Assigns (λ r. r.arch) "GOARCH" (λ v. v)
unfolding read_setting
sets_arch r k v = elim (Bool-cases (str_eq k "GOARCH")) [
  | inl h ↦ rw ((eq_iff k "GOARCH").0 h) refl
  | inr h ↦ ground (arith, h)
]

sets_compiler : Assigns (λ r. r.info.compiler) "-compiler" (λ v. v)
unfolding read_setting
sets_compiler r k v = elim (Bool-cases (str_eq k "-compiler")) [
  | inl h ↦ rw ((eq_iff k "-compiler").0 h) refl
  | inr h ↦ ground (arith, h)
]

-- The information by the last value of each key.
abbrev pub described : String → BuildInfo → Info
described version bi =
    let last = λ (key : String). mapped (λ v. v) "" (last_value key bi.settings) in
    record {
      version = if str_eq version "" then "sha-" ++ last "vcs.revision" else version;
      git_commit = last "vcs.revision";
      git_commit_date = last "vcs.time";
      git_tree_state = mapped tree_state "" (last_value "vcs.modified" bi.settings);
      go_version = bi.go_version;
      compiler = last "-compiler";
      platform = last "GOOS" ++ ("/" ++ last "GOARCH");
    }

-- NewInfo goes through the settings of the build once, and gives what the last value of each key says:
-- the commit, its date, the state of the tree (dirty exactly if the last vcs.modified is "true", and
-- empty if there is none), the compiler and the platform, with "" for a key that is not set. The
-- version is the one of the build, or the commit behind "sha-" where that is empty.
pub new_info-described :
    (version : String) (bi : BuildInfo) → new_info version (some bi) ≡ described version bi
unfolding new_info
new_info-described version bi =
    let start : Read = record { info = no_info; os = ""; arch = "" } in
    ground (
      arith,
      sets_last (λ r. r.info.git_commit) "vcs.revision" (λ v. v) sets_commit start bi.settings,
      sets_last (λ r. r.info.git_commit_date) "vcs.time" (λ v. v) sets_date start bi.settings,
      sets_last (λ r. r.info.git_tree_state) "vcs.modified" tree_state sets_tree_state start
          bi.settings,
      sets_last (λ r. r.os) "GOOS" (λ v. v) sets_os start bi.settings,
      sets_last (λ r. r.arch) "GOARCH" (λ v. v) sets_arch start bi.settings,
      sets_last (λ r. r.info.compiler) "-compiler" (λ v. v) sets_compiler start bi.settings,
    )
