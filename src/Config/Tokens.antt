-- ===== src/Config/Tokens.antt =====
-- The access tokens that `Read` (internal/config/config.go) takes from files.
use mathlib.Core.List.{Memᴰ}
use comin.Base.{
  ◌≡◌, ◌≢◌, sym, subst, ◌∙◌, false, inl, inr, List, [], ◌∷◌, String, ◌==◌, eq_iff, ok, err,
  Result-cases, All, arith,
}
use comin.Config.{RemoteConfig, Configuration, Files, access_token_of, fill_remotes, read}
use comin.Config.Defaults.{before}

-- The token of the remote can be read.
abbrev HasToken : Files → RemoteConfig → Type 0
HasToken files r = (token : String) × (access_token_of files r ≡ ok token)

fill_remotes-HasToken :
    (files : Files) (l filled : List RemoteConfig)
    → fill_remotes files l ≡ ok filled
    → All (HasToken files) l
unfolding fill_remotes
fill_remotes-HasToken files [] filled h = tt
fill_remotes-HasToken files (r ∷ rest) filled h =
    let (token, e₁, h₁) = before (access_token_of files r) _ filled h in
    let (others, e₂, h₂) = before (fill_remotes files rest) _ filled h₁ in
    ((token, e₁), fill_remotes-HasToken files rest others e₂)

one_of :
    (P : RemoteConfig → Type 0) {r : RemoteConfig} {l : List RemoteConfig}
    → Memᴰ r l
    → All P l
    → P r
one_of P (Memᴰ.head e) (first, others) = subst P (sym e) first
one_of P (Memᴰ.tail m) (first, others) = one_of P m others

no_token :
    (files : Files) (r : RemoteConfig) (e : String)
    → r.auth.access_token_path ≢ ""
    → files.read_file r.auth.access_token_path ≡ err e
    → access_token_of files r ≡ err e
unfolding access_token_of
no_token files r e named unreadable =
    let given : (r.auth.access_token_path == "") ≡ false =
      ground (arith, eq_iff r.auth.access_token_path "") in
    simp (given, unreadable)

-- A configuration is refused if a remote names a file for its token and the file cannot be read: no
-- remote is polled without the token that it asks for.
pub read_without_token :
    (files : Files) (path e : String) (d : Configuration) (r : RemoteConfig)
    → files.decode path ≡ ok d
    → Memᴰ r d.remotes
    → r.auth.access_token_path ≢ ""
    → files.read_file r.auth.access_token_path ≡ err e
    → (message : String) × (read files path ≡ err message)
unfolding read
read_without_token files path e d r decoded m named unreadable =
    elim (Result-cases (read files path)) [
      | inr (message, f) ↦ (message, f)
      | inl (c, f) ↦
          let (d', e₁, h₁) = before (files.decode path) _ c f in
          let (remotes, e₂, h₂) = before (fill_remotes files d'.remotes) _ c h₁ in
          let same : d' ≡ d = ground (arith, sym e₁ ∙ decoded) in
          let (token, g) = one_of (HasToken files) m (
            subst (λ (x : Configuration). All (HasToken files) x.remotes) same
              (fill_remotes-HasToken files d'.remotes remotes e₂)) in
          absurd (ground (arith, sym g ∙ no_token files r e named unreadable))
    ]
