-- ===== src/Repository/Opening/Ready.antt =====
-- What `New` (internal/repository/repository.go) leaves for the updates: the keys and the signers of the
-- configured files, and the remotes of the repository.
use comin.Base.{
  ◌⊎◌, ◌≡◌, refl, sym, ap, subst, inl, inr, none, some, List, [], ◌∷◌, String, ◌==◌, eq_iff, Result,
  ok, err, Bool-cases, All, arith,
}
use comin.Types.{Error}
use comin.Config.Defaults.{before}
use comin.Config.{GitConfig}
use comin.Repository.Signatures.{SshAllowedSigner}
use comin.Repository.Signers.{KeyParser, Reading, got, failed, parse_ssh_allowed_signers}
use comin.Repository.Opening.{
  RemoteCalls, manage_remotes, Disk, read_gpg_key, read_gpg_keys, named, checked_key, signers_of,
  read_ssh_allowed_signers, repository_open, Opened, managed, new,
}
use comin.Repository.Opening.Remotes.{IsGit, HasDistinctNames, HasUrl, manage_remotes-HasUrl}

-- The list that is read holds, in the order of the paths, the content of each file, and each is a key
-- ring.
pub record IsKey {W R : Type 0} (disk : Disk W R) (w : W) (path key : String) : Type 0 where
  pub content : disk.read_file w path ≡ ok key
  pub armored : disk.read_armored_key_ring key ≡ none

module _ {W R : Type 0} (disk : Disk W R) where
  abbrev pub AreKeys : W → List String → List String → Type 0
  AreKeys w [] [] = Unit
  AreKeys w [] (key ∷ keys) = ⊥
  AreKeys w (path ∷ paths) [] = ⊥
  AreKeys w (path ∷ paths) (key ∷ keys) = IsKey disk w path key × AreKeys w paths keys

  named-ok {ℓ} :
      {A : Type ℓ} (what path : String) (r : Result A) (a : A) → named what path r ≡ ok a → r ≡ ok a
  named-ok what path (ok b) a h = h
  named-ok what path (err e) a h = absurd (ground arith)

  checked_key-ok :
      (path key : String) (e : Error) (kept : String)
      → checked_key path key e ≡ ok kept
      → (e ≡ none) × (key ≡ kept)
  checked_key-ok path key (some m) kept h = absurd (ground arith)
  checked_key-ok path key none kept h = (refl, ground arith)

  signers_of-got :
      (path : String) (r : Reading (List SshAllowedSigner)) (signers : List SshAllowedSigner)
      → signers_of disk path r ≡ ok signers
      → r ≡ got signers
  signers_of-got path (got l) signers h = ground arith
  signers_of-got path (failed e) signers h = absurd (ground arith)

  read_gpg_key-IsKey :
      (w : W) (path key : String) → read_gpg_key disk w path ≡ ok key → IsKey disk w path key
  unfolding read_gpg_key
  read_gpg_key-IsKey w path key h =
      let (text, e, h₁) =
        before (named "failed to open the GPG public key file " path (disk.read_file w path)) _ key
          h in
      let (armored, same) = checked_key-ok path text (disk.read_armored_key_ring text) key h₁ in
      subst (IsKey disk w path) same
        (record { content = named-ok _ path (disk.read_file w path) text e; armored = armored })

  read_gpg_keys-AreKeys :
      (w : W) (paths keys : List String)
      → read_gpg_keys disk w paths ≡ ok keys
      → AreKeys w paths keys
  unfolding read_gpg_keys
  read_gpg_keys-AreKeys w [] keys h =
      let whole : [] ≡ keys = ground arith in subst (AreKeys w []) whole tt
  read_gpg_keys-AreKeys w (path ∷ paths) keys h =
      let (key, e, h₁) = before (read_gpg_key disk w path) _ keys h in
      let (more, e₁, h₂) = before (read_gpg_keys disk w paths) _ keys h₁ in
      let whole : (key ∷ more) ≡ keys = ground arith in
      subst (AreKeys w (path ∷ paths)) whole
        (read_gpg_key-IsKey w path key e, read_gpg_keys-AreKeys w paths more e₁)

-- The signers are those of the file, or there are none when no file is configured.
abbrev pub AreSigners :
    {W R : Type 0} → Disk W R → KeyParser → W → String → List SshAllowedSigner → Type 0
AreSigners disk parse w path signers =
    (path ≡ "") × (signers ≡ [])
    ⊎ (text : String) × (disk.read_file w path ≡ ok text)
      × (parse_ssh_allowed_signers parse text ≡ got signers)

module _ {W R : Type 0} (disk : Disk W R) (git : RemoteCalls R) (parse : KeyParser) where
  read_ssh_allowed_signers-AreSigners :
      (w : W) (path : String) (signers : List SshAllowedSigner)
      → read_ssh_allowed_signers disk parse w path ≡ ok signers
      → AreSigners disk parse w path signers
  unfolding read_ssh_allowed_signers
  read_ssh_allowed_signers-AreSigners w path signers h = elim (Bool-cases (path == "")) [
    | inl empty ↦ inl ((eq_iff path "").0 empty, ground arith)
    | inr t ↦
        let (text, e, h₁) =
          before (named "failed to open the SSH allowed signers file " path (disk.read_file w path))
            (λ text. signers_of disk path (parse_ssh_allowed_signers parse text)) signers
            (ground arith) in
        inr (
          text,
          named-ok disk _ path (disk.read_file w path) text e,
          signers_of-got disk path _ signers h₁,
        )
  ]

  managed-ok :
      (keys : List String) (signers : List SshAllowedSigner) (p : R × Error) (opened : Opened R)
      → managed disk git parse keys signers p ≡ ok opened
      → (p.1 ≡ none)
        × (opened.opened_repository ≡ p.0)
        × (opened.gpg_public_keys ≡ keys)
        × (opened.ssh_allowed_signers ≡ signers)
  managed-ok keys signers (r, some e) opened h = absurd (ground arith)
  managed-ok keys signers (r, none) opened h =
      let same : record {
        opened_repository = r;
        gpg_public_keys = keys;
        ssh_allowed_signers = signers;
      }
          ≡ opened =
        ground arith in
      (
        refl,
        ap (λ o. o.opened_repository) (sym same),
        ap (λ o. o.gpg_public_keys) (sym same),
        ap (λ o. o.ssh_allowed_signers) (sym same),
      )

  -- What `New` gives: keys and signers of the files, and every remote with its URL.
  pub record IsReady (w : W) (c : GitConfig) (o : Opened R) : Type 0 where
    pub keys_read : AreKeys disk w c.git_gpg_public_key_paths o.gpg_public_keys
    pub signers_read : AreSigners disk parse w c.git_ssh_allowed_signers_path o.ssh_allowed_signers
    pub remotes_set : All (HasUrl git o.opened_repository) c.git_remotes

  -- When `New` returns a repository, its keys are the contents of the configured files, in their order, and
  -- each is an armored key ring; its signers are those of the configured file, or none when no file is
  -- configured; and every configured remote has the configured URL, when no two remotes have one name.
  pub new-IsReady :
      (is_git : IsGit git) (w : W) (c : GitConfig) (o : Opened R)
      → HasDistinctNames c.git_remotes
      → new disk git parse w c ≡ ok o
      → IsReady w c o
  unfolding new
  new-IsReady is_git w c o distinct h =
      let (keys, e, h₁) = before (read_gpg_keys disk w c.git_gpg_public_key_paths) _ o h in
      let (signers, e₁, h₂) =
        before (read_ssh_allowed_signers disk parse w c.git_ssh_allowed_signers_path) _ o h₁ in
      let (r, e₂, h₃) = before (repository_open disk w c.repository_path).1 _ o h₂ in
      let (no_error, same_r, same_keys, same_signers) =
        managed-ok keys signers (manage_remotes git r c.git_remotes) o h₃ in
      record {
        keys_read =
            subst (AreKeys disk w c.git_gpg_public_key_paths) (sym same_keys)
              (read_gpg_keys-AreKeys disk w c.git_gpg_public_key_paths keys e);
        signers_read =
            subst (AreSigners disk parse w c.git_ssh_allowed_signers_path) (sym same_signers)
              (read_ssh_allowed_signers-AreSigners w c.git_ssh_allowed_signers_path signers e₁);
        remotes_set =
            subst (λ g. All (HasUrl git g) c.git_remotes) (sym same_r)
              (manage_remotes-HasUrl git is_git r c.git_remotes distinct no_error);
      }
