-- ===== src/Repository/Opening.antt =====
-- `New` (internal/repository/repository.go) with `repositoryOpen` and `manageRemotes` (git.go): the keys
-- that are read, the repository that is opened, and its remotes. go-git, the files and the reader of GPG
-- keys are parameters.
pub mod Ready
pub mod Remotes
pub mod Tests
use comin.Base.{
  Bool, true, false, not, ◌&&◌, ◌||◌, Option, none, some, List, [], ◌∷◌, String, ◌==◌, str_append,
  Result, ok, err, ◌>>=◌, if◌then◌else◌,
}
use comin.Config.{RemoteConfig, GitConfig}
use comin.Repository.Signatures.{SshAllowedSigner}
use comin.Repository.Signers.{
  KeyParser, Reading, got, failed, parse_ssh_allowed_signers, SignerError,
}
use comin.Types.{Error}

-- What `Remote` of go-git answers: the URLs of the remote, of which there is a first one.
pub data RemoteAnswer : Type 0 where
  found : String → List String → RemoteAnswer
  not_found : RemoteAnswer
  unknown : String → RemoteAnswer

-- The calls of go-git on a repository, with what they leave of it.
pub record RemoteCalls (R : Type 0) : Type 0 where
  pub remote : R → String → RemoteAnswer
  pub create_remote : R → String → String → R × Error
  pub delete_remote : R → String → R × Error

module _ {R : Type 0} (git : RemoteCalls R) where
  -- The remote exists with another URL: it is deleted and made again.
  unfoldable pub after_delete : RemoteConfig → R × Error → R × Error
  after_delete c (r, some e) = (r, some e)
  after_delete c (r, none) = git.create_remote r c.remote_name c.url

  unfoldable pub manage_remote_by : RemoteAnswer → R → RemoteConfig → R × Error
  unfolding after_delete
  manage_remote_by not_found r c = git.create_remote r c.remote_name c.url
  manage_remote_by (unknown e) r c = (r, some e)
  manage_remote_by (found url rest) r c =
      if not (url == c.url) then after_delete c (git.delete_remote r c.remote_name) else (r, none)

  -- `manageRemote`.
  unfoldable pub manage_remote : R → RemoteConfig → R × Error
  unfolding manage_remote_by
  manage_remote r c = manage_remote_by (git.remote r c.remote_name) r c

  -- `manageRemotes`: the first error ends the loop.
  unfoldable pub manage_remotes : R → List RemoteConfig → R × Error
  unfolding manage_remote
  manage_remotes r [] = (r, none)
  manage_remotes r (c ∷ rest) =
      let next = manage_remote r c in
      elim next.1 [ some e ↦ (next.0, some e) | none ↦ manage_remotes next.0 rest ]

-- The files of the host and the local repository: `PlainOpen` with whether the repository is bare, which
-- only its configuration tells, `RemoveAll`, and `PlainInit`.
pub record Disk (W : Type 0) (R : Type 0) : Type 0 where
  pub read_file : W → String → Result String
  pub read_armored_key_ring : String → Error
  pub plain_open : W → String → Result R
  pub is_bare : R → Result Bool
  pub remove_all : W → String → W × Error
  pub plain_init : W → String → W × Result R
  pub error_text : SignerError → String

-- The error of a file, with what failed and its path before the cause.
abbrev failed_to : String → String → String → String
failed_to what path e = str_append what (str_append path (str_append ": " e))

abbrev pub named {ℓ} : {A : Type ℓ} → String → String → Result A → Result A
named what path (ok a) = ok a
named what path (err e) = err (failed_to what path e)

abbrev pub checked_key : String → String → Error → Result String
checked_key path key (some e) = err (failed_to "failed to read the GPG public key " path e)
checked_key path key none = ok key

module _ {W : Type 0} {R : Type 0} (disk : Disk W R) where
  abbrev delete_unless_bare : W → String → Result Bool → W
  delete_unless_bare w path (ok true) = w
  delete_unless_bare w path (ok false) = (disk.remove_all w path).0
  delete_unless_bare w path (err e) = w

  -- A repository that is not bare is deleted.
  unfoldable pub delete_old_repository : W → String → W
  delete_old_repository w path =
      delete_unless_bare w path (disk.plain_open w path >>= λ r. disk.is_bare r)

  abbrev open_unless_made : W × Result R → String → W × Result R
  open_unless_made (w, ok r) path = (w, ok r)
  open_unless_made (w, err e) path = (w, disk.plain_open w path)

  -- `repositoryOpen`.
  unfoldable pub repository_open : W → String → W × Result R
  unfolding delete_old_repository
  repository_open w path =
      open_unless_made (disk.plain_init (delete_old_repository w path) path) path

  unfoldable pub read_gpg_key : W → String → Result String
  read_gpg_key w path =
      named "failed to open the GPG public key file " path (disk.read_file w path) >>= λ key.
      checked_key path key (disk.read_armored_key_ring key)

  -- The loop over the paths of the GPG keys.
  unfoldable pub read_gpg_keys : W → List String → Result (List String)
  unfolding read_gpg_key
  read_gpg_keys w [] = ok []
  read_gpg_keys w (path ∷ rest) =
      read_gpg_key w path >>= λ key. read_gpg_keys w rest >>= λ keys. ok (key ∷ keys)

  abbrev pub signers_of : String → Reading (List SshAllowedSigner) → Result (List SshAllowedSigner)
  signers_of path (got signers) = ok signers
  signers_of path (failed e) =
      err (failed_to "failed to read the SSH allowed signers file " path (disk.error_text e))

  unfoldable pub read_ssh_allowed_signers : KeyParser → W → String → Result (List SshAllowedSigner)
  unfolding parse_ssh_allowed_signers
  read_ssh_allowed_signers parse w path =
      if not (path == "")
      then (named "failed to open the SSH allowed signers file " path (disk.read_file w path)
          >>= λ text. signers_of path (parse_ssh_allowed_signers parse text))
      else ok []

-- The keys and the repository that `New` keeps; its status is the one that `NewGitRepositoryStatus` makes.
pub record Opened (R : Type 0) : Type 0 where
  pub opened_repository : R
  pub gpg_public_keys : List String
  pub ssh_allowed_signers : List SshAllowedSigner

module _ {W : Type 0} {R : Type 0} (disk : Disk W R) (git : RemoteCalls R) (parse : KeyParser) where
  abbrev pub managed : List String → List SshAllowedSigner → R × Error → Result (Opened R)
  managed keys signers (r, some e) = err e
  managed keys signers (r, none) =
      ok (record { opened_repository = r; gpg_public_keys = keys; ssh_allowed_signers = signers })

  unfoldable pub new : W → GitConfig → Result (Opened R)
  unfolding read_gpg_keys read_ssh_allowed_signers repository_open manage_remotes
  new w c = read_gpg_keys disk w c.git_gpg_public_key_paths >>= λ keys.
      read_ssh_allowed_signers disk parse w c.git_ssh_allowed_signers_path >>= λ signers.
      (repository_open disk w c.repository_path).1 >>= λ r.
      managed keys signers (manage_remotes git r c.git_remotes)
