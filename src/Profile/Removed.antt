-- ===== src/Profile/Removed.antt =====
-- Which links `removeProfiles` (internal/profile/profile.go) removes.
use mathlib.Core.List.{Memᴰ}
use comin.Base.{
  ◌≡◌, ◌≢◌, ◌⊎◌, sym, ap, subst, ◌∙◌, true, false, inl, inr, none, some, List, [], ◌∷◌, ◌++◌,
  String, ◌==◌, eq_iff, ok, Option-cases, Bool-cases, arith,
}
use comin.Base.Texts.Paths.{path_join}
use comin.Profile.{
  Host, is_among, booted_and_current_storepaths, untracked, remove_entry, remove_loop,
  remove_profiles_in,
}
use comin.Profile.Kept.{RemovesOnly}

-- What `os.Remove` does: where it returns no error the link is gone, and it makes no link.
pub record Removes {W : Type 0} (host : Host W) : Type 0 where
  pub removed :
      (w : W) (p : String) → (host.remove w p).1 ≡ none → host.readlink (host.remove w p).0 p ≡ none
  pub makes_nothing :
      (w : W) (p q : String) → host.readlink w q ≡ none → host.readlink (host.remove w p).0 q ≡ none

-- The link can be removed as long as it is there.
abbrev pub CanRemove : {W : Type 0} → Host W → String → Type 0
CanRemove {W} host q =
    (w : W) (s : String) → host.readlink w q ≡ some s → (host.remove w q).1 ≡ none

is_among-append_one :
    (p x : String) (l : List String)
    → is_among p l ≡ false
    → x ≢ p
    → is_among p (l ++ x ∷ []) ≡ false
unfolding is_among
is_among-append_one p x [] h other = ground (arith, eq_iff x p)
is_among-append_one p x (y ∷ l) h other = ground (arith, is_among-append_one p x l)

is_untracked :
    (booted : String) (paths : List String) (target p s : String)
    → s ≢ booted
    → target ≢ p
    → is_among p paths ≡ false
    → untracked booted (paths ++ target ∷ []) p s ≡ true
is_untracked booted paths target p s not_booted relative unlisted =
    ground (arith, eq_iff s booted, is_among-append_one p target paths unlisted relative)

module _ {W : Type 0} (host : Host W) (removes_only : RemovesOnly host)
    (removes : Removes host) where
  module _ (dir name booted : String) (listed : List String) where
    -- An entry is left alone, or its path is removed.
    entry_cases :
        (w : W) (entry : String)
        → (remove_entry host dir name booted listed w entry ≡ w)
          ⊎ (remove_entry host dir name booted listed w entry
              ≡ (host.remove w (path_join dir entry)).0)
    unfolding remove_entry
    entry_cases w entry = elim (Bool-cases (entry == name)) [
      | inl default ↦ inl (simp default)
      | inr other ↦ elim (Option-cases (host.readlink w (path_join dir entry))) [
        | inl no_link ↦ inl (simp (other, no_link, remove_entry))
        | inr (s, leads) ↦ elim (Bool-cases (untracked booted listed (path_join dir entry) s)) [
          | inr tracked ↦ inl (simp (other, leads, tracked, remove_entry))
          | inl free ↦ inr (simp (other, leads, free, remove_entry))
        ]
      ]
    ]

    entry_stays_removed :
        (w : W) (entry q : String)
        → host.readlink w q ≡ none
        → host.readlink (remove_entry host dir name booted listed w entry) q ≡ none
    entry_stays_removed w entry q gone = elim (entry_cases w entry) [
      | inl left ↦ ap (λ v. host.readlink v q) left ∙ gone
      | inr taken ↦
          ap (λ v. host.readlink v q) taken ∙ removes.makes_nothing w (path_join dir entry) q gone
    ]

    loop_stays_removed :
        (entries : List String) (w : W) (q : String)
        → host.readlink w q ≡ none
        → host.readlink (remove_loop host dir name booted listed w entries) q ≡ none
    unfolding remove_loop
    loop_stays_removed [] w q gone = gone
    loop_stays_removed (entry ∷ rest) w q gone =
        loop_stays_removed rest (remove_entry host dir name booted listed w entry) q
          (entry_stays_removed w entry q gone)

    -- The link of an entry is as it was, or removed already.
    as_before :
        (w : W) (entry q s : String)
        → CanRemove host q
        → host.readlink w q ≡ some s
        → (host.readlink (remove_entry host dir name booted listed w entry) q ≡ some s)
          ⊎ (host.readlink (remove_entry host dir name booted listed w entry) q ≡ none)
    as_before w entry q s can leads = elim (entry_cases w entry) [
      | inl left ↦ inl (ap (λ v. host.readlink v q) left ∙ leads)
      | inr taken ↦ elim (Bool-cases (q == path_join dir entry)) [
        | inl here ↦
            let same : q ≡ path_join dir entry = ground (arith, eq_iff q (path_join dir entry)) in
            inr (
              ap (λ v. host.readlink v q) taken
              ∙ subst (λ p. host.readlink (host.remove w p).0 q ≡ none) same
                  (removes.removed w q (can w s leads)))
        | inr elsewhere ↦ inl (
            ap (λ v. host.readlink v q) taken
            ∙ removes_only w (path_join dir entry) q
                (ground (arith, eq_iff q (path_join dir entry)))
            ∙ leads)
      ]
    ]

    -- The entry itself, where it is neither the default one nor tracked.
    removes_entry :
        (w : W) (entry s : String)
        → (entry == name) ≡ false
        → CanRemove host (path_join dir entry)
        → host.readlink w (path_join dir entry) ≡ some s
        → untracked booted listed (path_join dir entry) s ≡ true
        → host.readlink (remove_entry host dir name booted listed w entry) (path_join dir entry)
          ≡ none
    unfolding remove_entry
    removes_entry w entry s other can leads free =
        simp (other, leads, free, remove_entry)
          (removes.removed w (path_join dir entry) (can w s leads))

    loop_removes :
        (entries : List String) (w : W) (entry s : String)
        → Memᴰ entry entries
        → (entry == name) ≡ false
        → CanRemove host (path_join dir entry)
        → host.readlink w (path_join dir entry) ≡ some s
        → untracked booted listed (path_join dir entry) s ≡ true
        → host.readlink (remove_loop host dir name booted listed w entries) (path_join dir entry)
          ≡ none
    unfolding remove_loop
    loop_removes [] w entry s m other can leads free = elim m [ ]
    loop_removes (e ∷ rest) w entry s (Memᴰ.head same) other can leads free =
        loop_stays_removed rest (remove_entry host dir name booted listed w e) (path_join dir entry)
          (ap
              (λ x.
                host.readlink (remove_entry host dir name booted listed w x) (path_join dir entry))
              (sym same)
            ∙ removes_entry w entry s other can leads free)
    loop_removes (e ∷ rest) w entry s (Memᴰ.tail m) other can leads free =
        let next = remove_entry host dir name booted listed w e in
        elim (as_before w e (path_join dir entry) s can leads) [
          | inl still ↦ loop_removes rest next entry s m other can still free
          | inr gone ↦ loop_stays_removed rest next (path_join dir entry) gone
        ]

  -- An entry of the directory that is not the default link, leads elsewhere than the booted system and
  -- has a path that is neither listed nor the text of the default link, is removed.
  pub remove_profiles_in_removes :
      (w : W) (dir name : String) (paths entries : List String) (target entry s : String)
      → host.read_dir w dir ≡ ok entries
      → host.readlink w (path_join dir name) ≡ some target
      → Memᴰ entry entries
      → (entry == name) ≡ false
      → CanRemove host (path_join dir entry)
      → host.readlink w (path_join dir entry) ≡ some s
      → untracked
          (booted_and_current_storepaths host w).0
          (paths ++ target ∷ [])
          (path_join dir entry)
          s
        ≡ true
      → host.readlink (remove_profiles_in host w dir name paths) (path_join dir entry) ≡ none
  unfolding remove_profiles_in
  remove_profiles_in_removes w dir name paths entries target entry s e f m other can leads free =
      simp (e, f, remove_profiles_in)
        (loop_removes dir name (booted_and_current_storepaths host w).0 (paths ++ target ∷ [])
          entries w entry s m other can leads free)

  -- The profile that the default link leads to is not preserved as such: the link is relative, as
  -- `nix-env` writes it, and its text is compared with whole paths. So that profile is removed where no
  -- deployment of the list has it, it is not the booted one and its link can be removed as long as it is
  -- there. Of `os.Remove` it is taken that without an error the link is gone, that other links are left
  -- alone, and that no link is made.
  pub default_profile_is_removed :
      (w : W) (dir name : String) (paths entries : List String) (target s : String)
      → host.read_dir w dir ≡ ok entries
      → host.readlink w (path_join dir name) ≡ some target
      → Memᴰ target entries
      → (target == name) ≡ false
      → target ≢ path_join dir target
      → CanRemove host (path_join dir target)
      → host.readlink w (path_join dir target) ≡ some s
      → s ≢ (booted_and_current_storepaths host w).0
      → is_among (path_join dir target) paths ≡ false
      → host.readlink (remove_profiles_in host w dir name paths) (path_join dir target) ≡ none
  default_profile_is_removed w dir name paths entries target s e f m other relative can leads
        not_booted unlisted =
      remove_profiles_in_removes w dir name paths entries target target s e f m other can leads
        (is_untracked _ paths target (path_join dir target) s not_booted relative unlisted)
