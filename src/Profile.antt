-- ===== src/Profile.antt =====
-- internal/profile/profile.go: the links of the system profiles, and what of internal/utils/utils.go
-- they ask. The file system and `nix-env` are parameters, on a state of the host of any type.
pub mod Kept
pub mod Removed
pub mod Tests
use comin.Base.{
  Bool, true, false, not, ◌&&◌, ◌||◌, Option, none, some, List, [], ◌∷◌, ◌++◌, String, ◌==◌,
  str_append, Result, ok, err, if◌then◌else◌,
}
use comin.Base.Texts.Paths.{path_join}
use comin.Types.{Error}

-- The calls of `os` and of `nix-env`, with what they leave of the host; `nix-env --profile p --set o`
-- takes `p` and `o`. An error that `MkdirAll` gives is one other than `os.IsExist`.
pub record Host (W : Type 0) : Type 0 where
  pub read_dir : W → String → Result (List String)
  pub readlink : W → String → Option String
  pub remove : W → String → W × Error
  pub mkdir_all : W → String → W × Error
  pub nix_env_set : W → String → String → W × Error

abbrev pub system_profiles : String
system_profiles = "/nix/var/nix/profiles/system-profiles"

abbrev pub profile_name : String
profile_name = "comin"

abbrev pub comin_profile_dir : String
comin_profile_dir = "/nix/var/nix/profiles/system-profiles/comin"

-- `slices.Contains`.
unfoldable pub is_among : String → List String → Bool
is_among s [] = false
is_among s (x ∷ rest) = x == s || is_among s rest

abbrev pub text_of : Option String → String
text_of none = ""
text_of (some s) = s

-- A link that is not the booted system's, with a path that is not listed.
abbrev pub untracked : String → List String → String → String → Bool
untracked booted listed p storepath = not (storepath == booted) && not (is_among p listed)

module _ {W : Type 0} (host : Host W) where
  -- `GetBootedAndCurrentStorepaths`: a link that cannot be read is the empty text, and then the second
  -- one is not read.
  unfoldable pub booted_and_current_storepaths : W → String × String
  booted_and_current_storepaths w = elim (host.readlink w "/run/booted-system") [
    | none ↦ ("", "")
    | some booted ↦ (booted, text_of (host.readlink w "/run/current-system"))
  ]

  -- The loop of `removeProfiles` over the entries of the directory.
  module _ (dir : String) (name : String) (booted : String) (listed : List String) where
    unfoldable pub remove_entry : W → String → W
    remove_entry w entry =
        if entry == name then w else elim (host.readlink w (path_join dir entry)) [
          | none ↦ w
          | some storepath ↦
              if untracked booted listed (path_join dir entry) storepath
              then (host.remove w (path_join dir entry)).0
              else w
        ]

    unfoldable pub remove_loop : W → List String → W
    unfolding remove_entry
    remove_loop w [] = w
    remove_loop w (entry ∷ rest) = remove_loop (remove_entry w entry) rest

  unfoldable pub remove_profiles_in : W → String → String → List String → W
  unfolding booted_and_current_storepaths remove_loop path_join
  remove_profiles_in w dir name paths = elim (host.read_dir w dir) [
    | err e ↦ w
    | ok entries ↦ elim (host.readlink w (path_join dir name)) [
      | none ↦ w
      | some default_target ↦
          remove_loop dir name (booted_and_current_storepaths w).0 (paths ++ default_target ∷ []) w
            entries
    ]
  ]

  -- `RemoveProfiles`.
  unfoldable pub remove_profiles : W → List String → W
  unfolding remove_profiles_in
  remove_profiles w paths = remove_profiles_in w system_profiles profile_name paths

  -- The profile behind the link that `nix-env` has set.
  unfoldable pub created_profile : W → W × String × Error
  unfolding path_join
  created_profile w = elim (host.readlink w comin_profile_dir) [
    | none ↦
        (w, "", some (str_append "nix: failed to os.Readlink(" (str_append comin_profile_dir ")")))
    | some dst ↦ (w, path_join system_profiles dst, none)
  ]

  abbrev command_fails : String → String → String
  command_fails out_path e = str_append "nix: command 'nix-env --profile " (
      str_append comin_profile_dir
        (str_append " --set " (str_append out_path (str_append "' fails with " e))))

  -- What stands behind the run of `nix-env`, and behind `MkdirAll`.
  unfoldable pub after_set : String → W → Error → W × String × Error
  unfolding created_profile
  after_set out_path w none = created_profile w
  after_set out_path w (some e) = (w, "", some (command_fails out_path e))

  unfoldable pub after_mkdir : String → Bool → W → Error → W × String × Error
  unfolding after_set
  after_mkdir out_path dry_run w (some e) =
      (w, "", some (str_append "nix: failed to create the profile directory: " system_profiles))
  after_mkdir out_path dry_run w none =
      let set = host.nix_env_set w comin_profile_dir out_path in
      if dry_run then (w, "", none) else after_set out_path set.0 set.1

  -- `SetSystemProfile`, with the path of the profile that it creates.
  unfoldable pub set_system_profile : W → String → String → Bool → W × String × Error
  unfolding after_mkdir
  set_system_profile w operation out_path dry_run =
      let made = host.mkdir_all w system_profiles in
      if operation == "switch" || operation == "boot"
      then after_mkdir out_path dry_run made.0 made.1
      else (w, "", none)

  -- `RemoveProfilePath`.
  unfoldable pub remove_profile_path : W → String → W × Error
  remove_profile_path w profile_path = host.remove w profile_path
