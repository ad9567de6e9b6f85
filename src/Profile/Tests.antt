-- ===== src/Profile/Tests.antt =====
-- Runs and witnesses of the profiles (internal/profile/profile.go), on a host that is its links.
use mathlib.Core.List.{Memᴰ}
use comin.Base.{
  ◌≡◌, refl, Option, none, some, [], ◌∷◌, String, ◌==◌, eq_iff, eq_refl, ok, arith, if◌then◌else◌,
}
use comin.Base.Texts.{has_prefix, split_from, split, join}
use comin.Base.Texts.Paths.{clean, path_join}
use comin.Profile.{
  Host, system_profiles, profile_name, is_among, booted_and_current_storepaths, remove_entry,
  remove_loop, remove_profiles_in, remove_profiles, created_profile, after_set, after_mkdir,
  set_system_profile,
}
use comin.Profile.Kept.{RemovesOnly}
use comin.Profile.Removed.{Removes, default_profile_is_removed}

unfoldable pub profiles : Unit {0}
unfolding has_prefix split_from split join clean path_join is_among booted_and_current_storepaths
    remove_entry remove_loop remove_profiles_in remove_profiles created_profile after_set
    after_mkdir set_system_profile
profiles = tt

-- The links of a host.
abbrev pub Links : Type 0
Links = String → Option String

abbrev pub host : Host Links
host = record {
  read_dir = λ w dir. ok ("comin" ∷ "comin-1-link" ∷ "comin-2-link" ∷ []);
  readlink = λ w p. w p;
  remove = λ w p. ((λ q. if q == p then none else w q), none);
  mkdir_all = λ w p. (w, none);
  nix_env_set = λ w p o. (
    (λ q.
        if q == p
        then some "comin-3-link"
        else if q == "/nix/var/nix/profiles/system-profiles/comin-3-link"
        then some o
        else w q),
    none,
  );
}

pub host-RemovesOnly : RemovesOnly host
host-RemovesOnly w p q other = ground (arith, eq_iff q p)

host-Removes : Removes host
host-Removes = record {
  removed = λ w p h. ground (arith, eq_refl p);
  makes_nothing = λ w p q h. ground (arith, eq_iff q p);
}

-- The second profile is the current one, and the first one is booted.
abbrev pub links : Links
links p =
    if p == "/run/booted-system"
    then some "/nix/store/old"
    else if p == "/run/current-system"
    then some "/nix/store/new"
    else if p == "/nix/var/nix/profiles/system-profiles/comin"
    then some "comin-2-link"
    else if p == "/nix/var/nix/profiles/system-profiles/comin-1-link"
    then some "/nix/store/old"
    else if p == "/nix/var/nix/profiles/system-profiles/comin-2-link"
    then some "/nix/store/new"
    else none

abbrev first_profile : String
first_profile = "/nix/var/nix/profiles/system-profiles/comin-1-link"

abbrev second_profile : String
second_profile = "/nix/var/nix/profiles/system-profiles/comin-2-link"

default_profile_is_removed_example :
    host.readlink (remove_profiles_in host links system_profiles profile_name []) second_profile
    ≡ none
unfolding profiles
default_profile_is_removed_example =
    default_profile_is_removed host host-RemovesOnly host-Removes links system_profiles profile_name
      [] ("comin" ∷ "comin-1-link" ∷ "comin-2-link" ∷ []) "comin-2-link" "/nix/store/new" refl refl
      (Memᴰ.tail (Memᴰ.tail (Memᴰ.head refl))) refl
      (ground (arith, eq_iff "comin-2-link" second_profile)) (λ w s h. refl) refl
      (ground (arith, eq_iff "/nix/store/new" "/nix/store/old")) refl
