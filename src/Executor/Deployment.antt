-- ===== src/Executor/Deployment.antt =====
-- What `deployLinux` (internal/executor/utils.go) leaves of the links, whether it succeeds or not.
use comin.Base.{
  ◌≡◌, ◌⊎◌, refl, ap, ◌∙◌, true, false, inl, inr, none, some, List, [], ◌∷◌, ◌++◌, String, eq_iff,
  arith,
}
use comin.Types.{Error}
use comin.Profile.{
  Host, is_among, system_profiles, profile_name, set_system_profile, remove_profiles,
}
use comin.Profile.Kept.{RemovesOnly, remove_profiles_in_keeps, is_among-append}
use comin.Executor.{
  Commands, switch_to_configuration_linux, after_switch, after_profile, deploy_with, deploy_linux,
  comin_unit_file_hash_linux,
}

-- No command that a deployment runs changes the link.
abbrev pub LeavesLink : {W : Type 0} → Host W → Commands W → String → Type 0
LeavesLink {W} host commands q =
    (w : W) (exe : String) (args : List String)
    → host.readlink (commands.run w exe args).0 q ≡ host.readlink w q

module _ {W : Type 0} (host : Host W) (commands : Commands W) where
  switch-LeavesLink :
      (q : String)
      → LeavesLink host commands q
      → (w : W) (operation out_path : String)
      → host.readlink (switch_to_configuration_linux host commands w operation out_path false).0 q
        ≡ host.readlink w q
  unfolding switch_to_configuration_linux
  switch-LeavesLink q leaves w operation out_path = leaves w _ _

  in_new_list :
      (q path : String) (paths : List String)
      → (is_among q paths ≡ true) ⊎ (q ≡ path)
      → is_among q (paths ++ path ∷ []) ≡ true
  unfolding is_among
  in_new_list q path paths (inl h) = is_among-append q paths (path ∷ []) h
  in_new_list q path [] (inr e) = ground (arith, eq_iff path q)
  in_new_list q path (x ∷ paths) (inr e) = ground (arith, in_new_list q path paths (inr e))

  pub after_switch-host_after :
      (before path : String) (w : W) (e : Error)
      → (after_switch host commands
          (comin_unit_file_hash_linux host commands)
          (switch_to_configuration_linux host commands)
          before
          path
          w
          e).host_after
        ≡ w
  after_switch-host_after before path w none = refl
  after_switch-host_after before path w (some e) = refl

  pub after_switch-profile_path :
      (before path : String) (w : W) (e : Error)
      → (after_switch host commands
          (comin_unit_file_hash_linux host commands)
          (switch_to_configuration_linux host commands)
          before
          path
          w
          e).profile_path
        ≡ path
  after_switch-profile_path before path w none = refl
  after_switch-profile_path before path w (some e) = refl

  removal_keeps :
      (w : W) (paths : List String) (q : String)
      → RemovesOnly host
      → is_among q paths ≡ true
      → host.readlink (remove_profiles host w paths) q ≡ host.readlink w q
  unfolding remove_profiles
  removal_keeps w paths q only h =
      remove_profiles_in_keeps host only w system_profiles profile_name paths q (inl h)

  profile_keeps :
      (q before out_path operation path : String) (paths : List String) (w : W) (e : Error)
      → RemovesOnly host
      → LeavesLink host commands q
      → (is_among q paths ≡ true)
        ⊎ (q
            ≡ (after_profile host commands
                (comin_unit_file_hash_linux host commands)
                (switch_to_configuration_linux host commands)
                before
                out_path
                operation
                paths
                w
                path
                e).profile_path)
      → host.readlink
          (after_profile host commands
            (comin_unit_file_hash_linux host commands)
            (switch_to_configuration_linux host commands)
            before
            out_path
            operation
            paths
            w
            path
            e).host_after
          q
        ≡ host.readlink w q
  profile_keeps q before out_path operation path paths w (some e) only leaves safe = refl
  profile_keeps q before out_path operation path paths w none only leaves safe =
      let cleaned = remove_profiles host w (paths ++ path ∷ []) in
      let switched = switch_to_configuration_linux host commands cleaned operation out_path false in
      let tracked : (is_among q paths ≡ true) ⊎ (q ≡ path) = elim safe [
        | inl h ↦ inl h
        | inr e ↦ inr (e ∙ after_switch-profile_path before path switched.0 switched.1)
      ] in
      ap (λ v. host.readlink v q) (after_switch-host_after before path switched.0 switched.1)
      ∙ switch-LeavesLink q leaves cleaned operation out_path
      ∙ removal_keeps w (paths ++ path ∷ []) q only (in_new_list q path paths tracked)

  -- A deployment, whether it succeeds or not, leaves the links of the profiles that it is given and of
  -- the profile that it has made as `nix-env` has left them, as long as no command that it runs changes
  -- them.
  pub deploy_linux_keeps :
      (w : W) (out_path operation q : String) (paths : List String)
      → RemovesOnly host
      → LeavesLink host commands q
      → (is_among q paths ≡ true)
        ⊎ (q ≡ (deploy_linux host commands w out_path operation paths).profile_path)
      → host.readlink (deploy_linux host commands w out_path operation paths).host_after q
        ≡ host.readlink (set_system_profile host w operation out_path false).0 q
  unfolding deploy_linux deploy_with
  deploy_linux_keeps w out_path operation q paths only leaves safe =
      let made = set_system_profile host w operation out_path false in
      profile_keeps q (comin_unit_file_hash_linux host commands w) out_path operation made.1 paths
        made.0 made.2 only leaves safe
