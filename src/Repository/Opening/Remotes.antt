-- ===== src/Repository/Opening/Remotes.antt =====
-- What `manageRemotes` (internal/repository/git.go) leaves of the remotes of a repository.
use comin.Base.{
  ◌≡◌, ◌≢◌, refl, sym, ap, ◌∙◌, Bool, true, false, not, inl, inr, none, some, List, [], ◌∷◌, String,
  ◌==◌, eq_iff, Bool-cases, All, All-mono, arith, if◌then◌else◌,
}
use comin.Types.{Error}
use comin.Config.{RemoteConfig}
use comin.Repository.Opening.{
  RemoteAnswer, found, not_found, unknown, RemoteCalls, after_delete, manage_remote_by,
  manage_remote, manage_remotes,
}

-- What go-git does: a remote that is made has the URL, and the others are left alone.
pub record IsGit {R : Type 0} (git : RemoteCalls R) : Type 0 where
  pub made :
      (r : R) (name url : String)
      → (git.create_remote r name url).1 ≡ none
      → git.remote (git.create_remote r name url).0 name ≡ found url []
  pub made_only :
      (r : R) (name url another : String)
      → another ≢ name
      → git.remote (git.create_remote r name url).0 another ≡ git.remote r another
  pub deleted_only :
      (r : R) (name another : String)
      → another ≢ name
      → git.remote (git.delete_remote r name).0 another ≡ git.remote r another

-- No two remotes have one name.
abbrev pub HasDistinctNames : List RemoteConfig → Type 0
HasDistinctNames [] = Unit
HasDistinctNames (c ∷ rest) =
    All (λ (d : RemoteConfig). d.remote_name ≢ c.remote_name) rest × HasDistinctNames rest

module _ {R : Type 0} (git : RemoteCalls R) where
  -- The remote of the repository has the URL of the configuration.
  abbrev pub HasUrl : R → RemoteConfig → Type 0
  HasUrl r c = (rest : List String) × (git.remote r c.remote_name ≡ found c.url rest)

module _ {R : Type 0} (git : RemoteCalls R) (is_git : IsGit git) where
  after_delete-HasUrl :
      (c : RemoteConfig) (r : R) (e : Error)
      → (after_delete git c (r, e)).1 ≡ none
      → HasUrl git (after_delete git c (r, e)).0 c
  unfolding after_delete
  after_delete-HasUrl c r (some e) h = absurd (ground arith)
  after_delete-HasUrl c r none h = ([], is_git.made r c.remote_name c.url h)

  -- Both ends of the test of `manageRemote`.
  if_not-HasUrl :
      (b : Bool) (x y : R × Error) (c : RemoteConfig)
      → (b ≡ true → HasUrl git y.0 c)
      → (x.1 ≡ none → HasUrl git x.0 c)
      → (if not b then x else y).1 ≡ none
      → HasUrl git (if not b then x else y).0 c
  if_not-HasUrl true x y c same other h = same refl
  if_not-HasUrl false x y c same other h = other h

  manage_remote_by-HasUrl :
      (answer : RemoteAnswer) (r : R) (c : RemoteConfig)
      → git.remote r c.remote_name ≡ answer
      → (manage_remote_by git answer r c).1 ≡ none
      → HasUrl git (manage_remote_by git answer r c).0 c
  unfolding manage_remote_by
  manage_remote_by-HasUrl not_found r c a h = ([], is_git.made r c.remote_name c.url h)
  manage_remote_by-HasUrl (unknown e) r c a h = absurd (ground arith)
  manage_remote_by-HasUrl (found url rest) r c a h =
      let removed = git.delete_remote r c.remote_name in
      if_not-HasUrl (url == c.url) (after_delete git c removed) (r, none) c
        (λ same. (rest, a ∙ ap (λ u. found u rest) ((eq_iff url c.url).0 same)))
        (after_delete-HasUrl c removed.0 removed.1) h

  after_delete-only :
      (c : RemoteConfig) (r : R) (e : Error) (another : String)
      → another ≢ c.remote_name
      → git.remote (after_delete git c (r, e)).0 another ≡ git.remote r another
  unfolding after_delete
  after_delete-only c r (some e) another h = refl
  after_delete-only c r none another h = is_git.made_only r c.remote_name c.url another h

  manage_remote_by-only :
      (answer : RemoteAnswer) (r : R) (c : RemoteConfig) (another : String)
      → another ≢ c.remote_name
      → git.remote (manage_remote_by git answer r c).0 another ≡ git.remote r another
  unfolding manage_remote_by
  manage_remote_by-only not_found r c another h = is_git.made_only r c.remote_name c.url another h
  manage_remote_by-only (unknown e) r c another h = refl
  manage_remote_by-only (found url rest) r c another h = elim (Bool-cases (url == c.url)) [
    | inl same ↦ rw same refl
    | inr other ↦ rw other (
        after_delete-only c (git.delete_remote r c.remote_name).0
          (git.delete_remote r c.remote_name).1 another h
        ∙ is_git.deleted_only r c.remote_name another h)
  ]

  manage_remote-HasUrl :
      (r : R) (c : RemoteConfig)
      → (manage_remote git r c).1 ≡ none
      → HasUrl git (manage_remote git r c).0 c
  unfolding manage_remote
  manage_remote-HasUrl r c h = manage_remote_by-HasUrl (git.remote r c.remote_name) r c refl h

  manage_remote-only :
      (r : R) (c : RemoteConfig) (another : String)
      → another ≢ c.remote_name
      → git.remote (manage_remote git r c).0 another ≡ git.remote r another
  unfolding manage_remote
  manage_remote-only r c another h =
      manage_remote_by-only (git.remote r c.remote_name) r c another h

  -- One turn of the loop of `manageRemotes`: an error ends it.
  turn-cases :
      (P : R × Error → Type 0) (r : R) (e : Error) (more : R × Error)
      → ((message : String) → e ≡ some message → P (r, some message))
      → (e ≡ none → P more)
      → P (elim e [ some message ↦ (r, some message) | none ↦ more ])
  turn-cases P r (some message) more ended goes_on = ended message refl
  turn-cases P r none more ended goes_on = goes_on refl

  manage_remotes-only :
      (r : R) (remotes : List RemoteConfig) (another : String)
      → All (λ (c : RemoteConfig). another ≢ c.remote_name) remotes
      → git.remote (manage_remotes git r remotes).0 another ≡ git.remote r another
  unfolding manage_remotes
  manage_remotes-only r [] another _ = refl
  manage_remotes-only r (c ∷ rest) another (h, more) =
      let next = manage_remote git r c in
      let same = manage_remote-only r c another h in
      turn-cases (λ p. git.remote p.0 another ≡ git.remote r another) next.0 next.1
        (manage_remotes git next.0 rest) (λ _ _. same)
        (λ _. manage_remotes-only next.0 rest another more ∙ same)

  -- When the loop ends with no error, every remote of the configuration has its URL.
  pub manage_remotes-HasUrl :
      (r : R) (remotes : List RemoteConfig)
      → HasDistinctNames remotes
      → (manage_remotes git r remotes).1 ≡ none
      → All (HasUrl git (manage_remotes git r remotes).0) remotes
  unfolding manage_remotes
  manage_remotes-HasUrl r [] _ h = tt
  manage_remotes-HasUrl r (c ∷ rest) (names, distinct) h =
      let next = manage_remote git r c in
      turn-cases (λ p. p.1 ≡ none → All (HasUrl git p.0) (c ∷ rest)) next.0 next.1
        (manage_remotes git next.0 rest) (λ message e impossible. absurd (ground arith))
        (λ ok_next ends.
          let others =
            All-mono {P = λ (d : RemoteConfig). d.remote_name ≢ c.remote_name}
              {R = λ (d : RemoteConfig). c.remote_name ≢ d.remote_name} (λ d n e. n (sym e)) rest
              names in
          let (more, url) = manage_remote-HasUrl r c ok_next in
          (
            (more, manage_remotes-only next.0 rest c.remote_name others ∙ url),
            manage_remotes-HasUrl next.0 rest distinct ends,
          ))
        h
