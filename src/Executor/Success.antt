-- ===== src/Executor/Success.antt =====
-- The deployments of `deployLinux` (internal/executor/utils.go) that succeed.
use comin.Base.{
  ◌≡◌, ◌≢◌, refl, sym, ap, subst, ◌∙◌, true, false, not, ◌||◌, inl, inr, none, some, List, [], ◌∷◌,
  ◌++◌, String, ◌==◌, Option-cases, arith,
}
use comin.Base.Texts.Paths.{path_join}
use comin.Types.{Error}
use comin.Profile.{
  Host, system_profiles, comin_profile_dir, set_system_profile, after_mkdir, after_set,
  created_profile, remove_profiles,
}
use comin.Executor.{
  wrapped, Commands, switch_to_configuration_linux, after_switch, after_profile, deploy_with,
  deploy_linux, comin_unit_file_hash_linux,
}
use comin.Executor.Deployment.{after_switch-host_after, after_switch-profile_path}

module _ {W : Type 0} (host : Host W) (commands : Commands W) where
  -- What success of a step means.
  set_succeeds :
      (out_path : String) (w : W) (e : Error)
      → (after_set host out_path w e).2 ≡ none
      → (link : String) × (e ≡ none)
        × (host.readlink w comin_profile_dir ≡ some link)
        × ((after_set host out_path w e).1 ≡ path_join system_profiles link)
  unfolding after_set created_profile
  set_succeeds out_path w (some e) h = absurd (ground arith)
  set_succeeds out_path w none h = elim (Option-cases (host.readlink w comin_profile_dir)) [
    | inl f ↦
        let failed : (created_profile host w).2 ≢ none =
          simp (f, created_profile) (λ e. ground arith) in
        absurd (failed h)
    | inr (link, f) ↦ (link, refl, f, simp (f, created_profile))
  ]

  after_set-host : (out_path : String) (w : W) (e : Error) → (after_set host out_path w e).0 ≡ w
  unfolding after_set created_profile
  after_set-host out_path w (some e) = refl
  after_set-host out_path w none = elim (Option-cases (host.readlink w comin_profile_dir)) [
    | inl f ↦ simp (f, created_profile)
    | inr (link, f) ↦ simp (f, created_profile)
  ]

  -- `nix-env` has run without an error on the directory that was made, and `profile` is the path behind
  -- the link that it has left.
  pub record IsProfileSet (w : W) (out_path : String) (after : W) (profile : String) : Type 0 where
    pub link : String
    pub directory_made : (host.mkdir_all w system_profiles).1 ≡ none
    pub profile_set :
        host.nix_env_set (host.mkdir_all w system_profiles).0 comin_profile_dir out_path
        ≡ (after, none)
    pub link_read : host.readlink after comin_profile_dir ≡ some link
    pub path_returned : profile ≡ path_join system_profiles link

  made_behind :
      (w : W) (out_path : String) (e : Error)
      → (host.mkdir_all w system_profiles).1 ≡ e
      → let r = after_mkdir host out_path false (host.mkdir_all w system_profiles).0 e in
        r.2 ≡ none → IsProfileSet w out_path r.0 r.1
  unfolding after_mkdir
  made_behind w out_path (some e) m h = absurd (ground arith)
  made_behind w out_path none m h =
      let set = host.nix_env_set (host.mkdir_all w system_profiles).0 comin_profile_dir out_path in
      let (link, no_error, f, path) = set_succeeds out_path set.0 set.1 h in
      let same = after_set-host out_path set.0 set.1 in
      record {
        link = link;
        directory_made = m;
        profile_set = ground (arith, no_error, same);
        link_read = ap (λ v. host.readlink v comin_profile_dir) same ∙ f;
        path_returned = path;
      }

  made_profile :
      (w : W) (out_path operation : String)
      → (operation == "switch" || operation == "boot") ≡ true
      → let r = set_system_profile host w operation out_path false in
        r.2 ≡ none → IsProfileSet w out_path r.0 r.1
  unfolding set_system_profile
  made_profile w out_path operation real h =
      let made = host.mkdir_all w system_profiles in
      let same : set_system_profile host w operation out_path false
          ≡ after_mkdir host out_path false made.0 made.1 =
        rw real refl in
      subst (λ (r : W × String × Error). IsProfileSet w out_path r.0 r.1) (sym same)
        (made_behind w out_path made.1 refl (ap (λ r. r.2) (sym same) ∙ h))

  -- The command that `switchToConfigurationLinux` runs, and its error where it has one.
  abbrev pub switch_command : W → String → String → W × Error
  switch_command w out_path operation =
      commands.run w (path_join (path_join out_path "bin") "switch-to-configuration")
        (operation ∷ [])

  wrapped-none : (command : String) (e : Error) → wrapped host commands command e ≡ none → e ≡ none
  wrapped-none command none h = refl
  wrapped-none command (some e) h = absurd (ground arith)

  switch_runs :
      (w : W) (out_path operation : String)
      → (switch_to_configuration_linux host commands w operation out_path false).1 ≡ none
      → switch_command w out_path operation
        ≡ ((switch_to_configuration_linux host commands w operation out_path false).0, none)
  unfolding switch_to_configuration_linux
  switch_runs w out_path operation h =
      let no_error = wrapped-none _ (switch_command w out_path operation).1 h in
      ground (arith, no_error)

  switched_well :
      (before path : String) (w : W) (e : Error)
      → (after_switch host commands
          (comin_unit_file_hash_linux host commands)
          (switch_to_configuration_linux host commands)
          before
          path
          w
          e).deploy_err
        ≡ none
      → (e ≡ none)
        × ((after_switch host commands
              (comin_unit_file_hash_linux host commands)
              (switch_to_configuration_linux host commands)
              before
              path
              w
              e).need_to_restart_comin
            ≡ not (before == comin_unit_file_hash_linux host commands w))
  switched_well before path w none h = (refl, refl)
  switched_well before path w (some e) h = absurd (ground arith)

  set_without_error :
      (before out_path operation path : String) (paths : List String) (w : W) (e : Error)
      → (after_profile host commands
          (comin_unit_file_hash_linux host commands)
          (switch_to_configuration_linux host commands)
          before
          out_path
          operation
          paths
          w
          path
          e).deploy_err
        ≡ none
      → e ≡ none
  set_without_error before out_path operation path paths w none h = refl
  set_without_error before out_path operation path paths w (some e) h = absurd (ground arith)

  -- What `deployLinux` has done when it returns no error.
  pub record HasDeployed (w : W) (out_path operation : String) (paths : List String) : Type 0 where
    pub set_host : W
    pub is_set :
        IsProfileSet w out_path set_host
          (deploy_linux host commands w out_path operation paths).profile_path
    pub switched :
        switch_command
          (remove_profiles host set_host
            (paths ++ (deploy_linux host commands w out_path operation paths).profile_path ∷ []))
          out_path
          operation
        ≡ ((deploy_linux host commands w out_path operation paths).host_after, none)
    pub restart_if_changed :
        (deploy_linux host commands w out_path operation paths).need_to_restart_comin
        ≡ not (
            comin_unit_file_hash_linux host commands w
            == comin_unit_file_hash_linux host commands
                (deploy_linux host commands w out_path operation paths).host_after)

  -- A deployment with `switch` or `boot` that succeeds has run `nix-env` on the system without an error and
  -- returns the path of the profile behind the link that `nix-env` has left; it has then removed the
  -- profiles but for those given and the new one, and run `switch-to-configuration` of the system with the
  -- operation without an error, with nothing after it; and the service is to be restarted just when its
  -- unit has changed.
  pub deploy_linux_succeeds :
      (w : W) (out_path operation : String) (paths : List String)
      → (operation == "switch" || operation == "boot") ≡ true
      → (deploy_linux host commands w out_path operation paths).deploy_err ≡ none
      → HasDeployed w out_path operation paths
  unfolding deploy_linux deploy_with
  deploy_linux_succeeds w out_path operation paths real h =
      let made = set_system_profile host w operation out_path false in
      let before = comin_unit_file_hash_linux host commands w in
      let no_error = set_without_error before out_path operation made.1 paths made.0 made.2 h in
      let same : deploy_linux host commands w out_path operation paths
          ≡ after_profile host commands (comin_unit_file_hash_linux host commands)
              (switch_to_configuration_linux host commands) before out_path operation paths made.0
              made.1 none =
        ap
          (after_profile host commands (comin_unit_file_hash_linux host commands)
            (switch_to_configuration_linux host commands) before out_path operation paths made.0
            made.1)
          no_error in
      let cleaned = remove_profiles host made.0 (paths ++ made.1 ∷ []) in
      let ran = switch_to_configuration_linux host commands cleaned operation out_path false in
      let (well, restart) =
        switched_well before made.1 ran.0 ran.1 (sym (ap (λ d. d.deploy_err) same) ∙ h) in
      let path : (deploy_linux host commands w out_path operation paths).profile_path ≡ made.1 =
        ap (λ d. d.profile_path) same
        ∙ after_switch-profile_path host commands before made.1 ran.0 ran.1 in
      let after : (deploy_linux host commands w out_path operation paths).host_after ≡ ran.0 =
        ap (λ d. d.host_after) same
        ∙ after_switch-host_after host commands before made.1 ran.0 ran.1 in
      record {
        set_host = made.0;
        is_set =
            subst (IsProfileSet w out_path made.0) (sym path)
              (made_profile w out_path operation real no_error);
        switched =
            ap
              (λ p.
                switch_command (remove_profiles host made.0 (paths ++ p ∷ [])) out_path operation)
              path
            ∙ switch_runs cleaned out_path operation well
            ∙ ap (λ v. (v, none)) (sym after);
        restart_if_changed =
            ap (λ d. d.need_to_restart_comin) same
            ∙ restart
            ∙ ap (λ v. not (before == comin_unit_file_hash_linux host commands v)) (sym after);
      }
