-- ===== src/Executor.antt =====
-- internal/executor: the deployment of a built system (utils.go), what is read from the output of Nix,
-- and the choice of an executor (executor.go, nix.go, nix_flake.go), with internal/utils/reboot.go and
-- the machine id. The commands are parameters.
pub mod Nix
pub mod Output
pub mod Success
pub mod Deployment
mod Tests
use comin.Base.{
  ℕ, Bool, true, false, not, ◌&&◌, ◌||◌, Option, none, some, List, [], ◌∷◌, ◌++◌, String, ◌==◌,
  str_append, Result, ok, err, ◌>>=◌, if◌then◌else◌,
}
use comin.Base.Texts.{has_prefix, trim_prefix, trim_last, split, quoted}
use comin.Base.Texts.Paths.{path_join}
use comin.Types.{Error}
use comin.Profile.{Host, set_system_profile, remove_profiles}

-- The commands that a deployment runs: the units of the service, as `systemctl cat` or `launchctl print`
-- gives them, and an executable of the system with its arguments.
pub record Commands (W : Type 0) : Type 0 where
  pub cat_unit : W → Result String
  pub print_plist : W → Result String
  pub run : W → String → List String → W × Error
  pub sha256_hex : String → String

-- What `deploy` returns.
pub record Deployed (W : Type 0) : Type 0 where
  pub host_after : W
  pub need_to_restart_comin : Bool
  pub profile_path : String
  pub deploy_err : Error

abbrev hash_of : (String → String) → Result String → String
hash_of sha256_hex (err e) = ""
hash_of sha256_hex (ok text) = sha256_hex text

module _ {W : Type 0} (host : Host W) (commands : Commands W) where
  abbrev pub comin_unit_file_hash_linux : W → String
  comin_unit_file_hash_linux w = hash_of commands.sha256_hex (commands.cat_unit w)

  abbrev pub comin_unit_file_hash_darwin : W → String
  comin_unit_file_hash_darwin w = hash_of commands.sha256_hex (commands.print_plist w)

  abbrev pub wrapped : String → Error → Error
  wrapped command none = none
  wrapped command (some e) = some (str_append command (str_append " fails with " e))

  unfoldable pub switch_to_configuration_linux : W → String → String → Bool → W × Error
  unfolding path_join
  switch_to_configuration_linux w operation out_path dry_run =
      let exe = path_join (path_join out_path "bin") "switch-to-configuration" in
      let ran = commands.run w exe (operation ∷ []) in
      if dry_run then (w, none) else (
        ran.0,
        wrapped (str_append "command " (str_append exe (str_append " " operation))) ran.1,
      )

  abbrev activate : String → W → Error → W × Error
  activate out_path w (some e) = (
    w,
    some (
        str_append "user activation command "
          (str_append (path_join out_path "activate-user") (str_append " fails with " e))),
  )
  activate out_path w none =
      let ran = commands.run w (path_join out_path "activate") [] in
      (
        ran.0,
        wrapped (str_append "system activation command " (path_join out_path "activate")) ran.1,
      )

  unfoldable pub switch_to_configuration_darwin : W → String → String → Bool → W × Error
  unfolding path_join
  switch_to_configuration_darwin w operation out_path dry_run =
      let user = commands.run w (path_join out_path "activate-user") [] in
      if dry_run then (w, none) else activate out_path user.0 user.1

  -- What `deployLinux` and `deployDarwin` share: the hash of the unit before and after, and the switch.
  module _ (hash : W → String) (switch : W → String → String → Bool → W × Error) where
    abbrev pub after_switch : String → String → W → Error → Deployed W
    after_switch before profile_path w (some e) = record {
      host_after = w;
      need_to_restart_comin = false;
      profile_path = profile_path;
      deploy_err = some e;
    }
    after_switch before profile_path w none = record {
      host_after = w;
      need_to_restart_comin = not (before == hash w);
      profile_path = profile_path;
      deploy_err = none;
    }

    abbrev pub after_profile :
        String → String → String → List String → W → String → Error → Deployed W
    after_profile before out_path operation profile_paths w profile_path (some e) = record {
      host_after = w;
      need_to_restart_comin = false;
      profile_path = profile_path;
      deploy_err = some e;
    }
    after_profile before out_path operation profile_paths w profile_path none =
        let cleaned = remove_profiles host w (profile_paths ++ profile_path ∷ []) in
        let switched = switch cleaned operation out_path false in
        after_switch before profile_path switched.0 switched.1

    unfoldable pub deploy_with : W → String → String → List String → Deployed W
    unfolding set_system_profile remove_profiles
    deploy_with w out_path operation profile_paths =
        let (made, profile_path, failed) = set_system_profile host w operation out_path false in
        after_profile (hash w) out_path operation profile_paths made profile_path failed

  unfoldable pub deploy_linux : W → String → String → List String → Deployed W
  unfolding deploy_with switch_to_configuration_linux
  deploy_linux w out_path operation profile_paths =
      deploy_with comin_unit_file_hash_linux switch_to_configuration_linux w out_path operation
        profile_paths

  unfoldable pub deploy_darwin : W → String → String → List String → Deployed W
  unfolding deploy_with switch_to_configuration_darwin
  deploy_darwin w out_path operation profile_paths =
      deploy_with comin_unit_file_hash_darwin switch_to_configuration_darwin w out_path operation
        profile_paths

  unfoldable pub deploy : W → String → String → String → List String → Deployed W
  unfolding deploy_linux deploy_darwin
  deploy w out_path operation system_attr profile_paths =
      if system_attr == "darwinConfigurations"
      then deploy_darwin w out_path operation profile_paths
      else deploy_linux w out_path operation profile_paths

  -- `NeedToRebootLinux`.
  abbrev differ : Option String → Option String → Bool
  differ (some a) (some b) = not (a == b)
  differ _ _ = false

  unfoldable pub need_to_reboot_linux : W → String → String → Bool
  need_to_reboot_linux w out_path operation =
      if operation == "boot"
      then differ (some out_path) (host.readlink w "/run/current-system")
      else differ (host.readlink w "/run/current-system/kernel")
          (host.readlink w "/run/booted-system/kernel")
