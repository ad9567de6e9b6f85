-- ===== src/Profile/Kept.antt =====
-- Which links `removeProfiles` (internal/profile/profile.go) leaves alone.
use comin.Base.{
  ◌≡◌, ◌≢◌, ◌⊎◌, refl, sym, ap, ◌∙◌, true, inl, inr, Option, some, List, [], ◌∷◌, ◌++◌, String,
  ◌==◌, eq_refl, Result-cases, Option-cases, Bool-cases, arith,
}
use comin.Base.Texts.Paths.{path_join}
use comin.Profile.{
  Host, is_among, booted_and_current_storepaths, untracked, remove_entry, remove_loop,
  remove_profiles_in,
}

-- To remove a link leaves the others as they are.
abbrev pub RemovesOnly : {W : Type 0} → Host W → Type 0
RemovesOnly {W} host =
    (w : W) (p q : String) → q ≢ p → host.readlink (host.remove w p).0 q ≡ host.readlink w q

pub is_among-append :
    (q : String) (front back : List String)
    → is_among q front ≡ true
    → is_among q (front ++ back) ≡ true
unfolding is_among
is_among-append q [] back h = absurd (ground arith)
is_among-append q (x ∷ front) back h = ground (arith, is_among-append q front back)

still_safe :
    (paths : List String) (target q : String) (link : Option String) (booted : String)
    → (is_among q paths ≡ true) ⊎ (link ≡ some booted)
    → (is_among q (paths ++ target ∷ []) ≡ true) ⊎ (link ≡ some booted)
still_safe paths target q link booted (inl h) = inl (is_among-append q paths (target ∷ []) h)
still_safe paths target q link booted (inr h) = inr h

module _ {W : Type 0} (host : Host W) (removes_only : RemovesOnly host) where
  module _ (dir name booted : String) (listed : List String) (q : String) where
    -- What protects a link: its path is listed, or it leads to the booted system.
    abbrev IsProtected : Option String → Type 0
    IsProtected link = (is_among q listed ≡ true) ⊎ (link ≡ some booted)

    protected_is_tracked :
        (w : W) (p s : String) (link : Option String)
        → host.readlink w q ≡ link
        → host.readlink w p ≡ some s
        → untracked booted listed p s ≡ true
        → IsProtected link
        → q ≢ p
    protected_is_tracked w p s link e leads gone (inl listed_path) same =
        absurd (ground (arith, ap (λ t. is_among t listed) same))
    protected_is_tracked w p s link e leads gone (inr booted_link) same =
        let system : s ≡ booted =
          ground (arith, sym leads ∙ ap (host.readlink w) (sym same) ∙ e ∙ booted_link) in
        absurd (ground (arith, ap (λ t. t == booted) system ∙ eq_refl booted))

    remove_entry_keeps :
        (w : W) (entry : String) (link : Option String)
        → host.readlink w q ≡ link
        → IsProtected link
        → host.readlink (remove_entry host dir name booted listed w entry) q ≡ link
    unfolding remove_entry
    remove_entry_keeps w entry link e safe = elim (Bool-cases (entry == name)) [
      | inl default ↦ rw default e
      | inr other ↦ elim (Option-cases (host.readlink w (path_join dir entry))) [
        | inl no_link ↦ simp (other, no_link, remove_entry) e
        | inr (s, leads) ↦ elim (Bool-cases (untracked booted listed (path_join dir entry) s)) [
          | inr tracked ↦ simp (other, leads, tracked, remove_entry) e
          | inl gone ↦
              let different : q ≢ path_join dir entry =
                protected_is_tracked w (path_join dir entry) s link e leads gone safe in
              simp (other, leads, gone, remove_entry)
                (removes_only w (path_join dir entry) q different ∙ e)
        ]
      ]
    ]

    remove_loop_keeps :
        (entries : List String) (w : W) (link : Option String)
        → host.readlink w q ≡ link
        → IsProtected link
        → host.readlink (remove_loop host dir name booted listed w entries) q ≡ link
    unfolding remove_loop
    remove_loop_keeps [] w link e safe = e
    remove_loop_keeps (entry ∷ rest) w link e safe =
        remove_loop_keeps rest (remove_entry host dir name booted listed w entry) link
          (remove_entry_keeps w entry link e safe) safe

  -- What `removeProfiles` never removes: a path of the list that it is given, which holds the profiles
  -- of the history and the new one, and a link to the booted system.
  pub remove_profiles_in_keeps :
      (w : W) (dir name : String) (paths : List String) (q : String)
      → (is_among q paths ≡ true)
        ⊎ (host.readlink w q ≡ some (booted_and_current_storepaths host w).0)
      → host.readlink (remove_profiles_in host w dir name paths) q ≡ host.readlink w q
  unfolding remove_profiles_in
  remove_profiles_in_keeps w dir name paths q safe = elim (Result-cases (host.read_dir w dir)) [
    | inr (m, e) ↦ simp (e, remove_profiles_in)
    | inl (entries, e) ↦ elim (Option-cases (host.readlink w (path_join dir name))) [
      | inl f ↦ simp (e, f, remove_profiles_in)
      | inr (target, f) ↦
          let kept =
            remove_loop_keeps dir name (booted_and_current_storepaths host w).0
              (paths ++ target ∷ []) q entries w (host.readlink w q) refl
              (still_safe paths target q (host.readlink w q) _ safe) in
          simp (e, f, remove_profiles_in) kept
    ]
  ]
