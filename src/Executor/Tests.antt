-- ===== src/Executor/Tests.antt =====
-- Runs and witnesses of the executor (internal/executor).
use comin.Base.{
  ◌≡◌, refl, true, false, inl, none, some, [], ◌∷◌, String, ◌==◌, ok, err, if◌then◌else◌,
}
use comin.Base.Texts.{
  has_prefix, drop_prefix, trim_prefix, trim_last, contains, split_from, split, join,
}
use comin.Base.Texts.Paths.{clean, path_join}
use comin.Profile.{set_system_profile, remove_profiles}
use comin.Profile.Tests.{profiles, Links, host, links, host-RemovesOnly}
use comin.Executor.{
  Commands, switch_to_configuration_linux, deploy_with, deploy_linux, need_to_reboot_linux,
}
use comin.Executor.Nix.{
  Evaluated, parse_instantiate, DerivationDecoder, returned, panicked, parse_derivation_with_flake,
  new,
}
use comin.Executor.Output.{printed}
use comin.Executor.Deployment.{deploy_linux_keeps}
use comin.Executor.Success.{deploy_linux_succeeds, HasDeployed}

unfoldable executor : Unit {0}
unfolding profiles has_prefix drop_prefix trim_prefix trim_last contains split_from split join clean
    path_join set_system_profile remove_profiles switch_to_configuration_linux deploy_with
    deploy_linux need_to_reboot_linux parse_instantiate parse_derivation_with_flake new printed
executor = tt

abbrev commands : Commands Links
commands = record {
  cat_unit = λ w. ok "[Unit]";
  print_plist = λ w. err "no such file";
  run = λ w exe args. (w, none);
  sha256_hex = λ s. s;
}

abbrev first_profile : String
first_profile = "/nix/var/nix/profiles/system-profiles/comin-1-link"

deploy_linux_keeps_example :
    host.readlink
      (deploy_linux host commands links "/nix/store/newer" "switch" (first_profile ∷ [])).host_after
      first_profile
    ≡ host.readlink
        (set_system_profile host links "switch" "/nix/store/newer" false).0
        first_profile
unfolding executor
deploy_linux_keeps_example =
    deploy_linux_keeps host commands links "/nix/store/newer" "switch" first_profile
      (first_profile ∷ []) host-RemovesOnly (λ w exe args. refl) (inl refl)

it_succeeds : (deploy_linux host commands links "/nix/store/newer" "switch" []).deploy_err ≡ none
unfolding executor
it_succeeds = refl

new_profile_is_returned :
    (deploy_linux host commands links "/nix/store/newer" "switch" []).profile_path
    ≡ "/nix/var/nix/profiles/system-profiles/comin-3-link"
unfolding executor
new_profile_is_returned = refl

deploy_linux_succeeds_example : HasDeployed host commands links "/nix/store/newer" "switch" []
deploy_linux_succeeds_example =
    deploy_linux_succeeds host commands links "/nix/store/newer" "switch" [] refl it_succeeds

reboot_after_boot : need_to_reboot_linux host commands links "/nix/store/newer" "boot" ≡ true
unfolding executor
reboot_after_boot = refl

abbrev found : Evaluated
found = record { drv_path = "/nix/store/a.drv"; out_path = "/nix/store/a"; machine_id = "" }

abbrev decoder : DerivationDecoder
decoder = record {
  unmarshal_wrapper = λ text. if text == "{}" then some [] else some (("a.drv", "") ∷ []);
  unmarshal_legacy = λ text. err "not an object";
  unmarshal_machine_id = λ text. ok none;
}

no_derivation : parse_derivation_with_flake decoder "{}" ≡ panicked
unfolding executor
no_derivation = refl

one_derivation : parse_derivation_with_flake decoder "{a}" ≡ returned (ok ("/nix/store/a.drv", ""))
unfolding executor
one_derivation = refl
