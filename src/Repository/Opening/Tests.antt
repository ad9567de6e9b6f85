-- ===== src/Repository/Opening/Tests.antt =====
-- Runs of the opening of a repository (internal/repository/repository.go), and the theorem at one.
use comin.Base.{
  ◌≡◌, ◌≢◌, refl, Bool-cases, inl, inr, true, false, none, some, [], ◌∷◌, String, ◌==◌, eq_iff, ok,
  err, if◌then◌else◌,
}
use comin.Config.{GitConfig}
use comin.Repository.Signers.{KeyParser}
use comin.Repository.Opening.{
  RemoteAnswer, found, not_found, RemoteCalls, Disk, after_delete, manage_remote_by, manage_remote,
  manage_remotes, read_gpg_key, read_gpg_keys, read_ssh_allowed_signers, delete_old_repository,
  repository_open, Opened, new,
}
use comin.Repository.Opening.Remotes.{IsGit}
use comin.Repository.Opening.Ready.{IsReady, new-IsReady}

-- A repository is the function from a name to what it answers; a call never fails.
abbrev pub changed : (String → RemoteAnswer) → String → RemoteAnswer → String → RemoteAnswer
changed r name answer another = if another == name then answer else r another

abbrev pub calls : RemoteCalls (String → RemoteAnswer)
calls = record {
  remote = λ r name. r name;
  create_remote = λ r name url. (changed r name (found url []), none);
  delete_remote = λ r name. (changed r name not_found, none);
}

changed_other :
    (r : String → RemoteAnswer) (name another : String) (answer : RemoteAnswer)
    → another ≢ name
    → changed r name answer another ≡ r another
changed_other r name another answer h = elim (Bool-cases (another == name)) [
  | inl same ↦ absurd (h ((eq_iff another name).0 same))
  | inr other ↦ rw other refl
]

changed_same :
    (r : String → RemoteAnswer) (name : String) (answer : RemoteAnswer)
    → changed r name answer name ≡ answer
changed_same r name answer = rw ((eq_iff name name).1 refl) refl

calls-IsGit : IsGit calls
calls-IsGit = record {
  made = λ r name url h. changed_same r name (found url []);
  made_only = λ r name url another h. changed_other r name another (found url []) h;
  deleted_only = λ r name another h. changed_other r name another not_found h;
}

abbrev pub disk : Disk (String → RemoteAnswer) (String → RemoteAnswer)
disk = record {
  read_file = λ w path. if path == "/keys/alice.asc" then ok "alice" else err "no such file";
  read_armored_key_ring = λ key. if key == "alice" then none else some "no armored data";
  plain_open = λ w path. ok w;
  is_bare = λ r. ok true;
  remove_all = λ w path. (w, none);
  plain_init = λ w path. (w, err "repository already exists");
  error_text = λ e. "";
}

abbrev config : GitConfig
config = record {
  repository_path = "/var/lib/comin/repository";
  dir = "";
  git_remotes =
      record {
        remote_name = "origin";
        url = "https://example.org/config";
        auth = record {
          access_token = "";
          access_token_path = "";
          ssh_deploy_key_path = "";
          ssh_known_hosts_path = "";
          username = "";
        };
        branches = record {
          main = record { branch_name = "main"; protected = false; operation = "" };
          testing = record { branch_name = "testing"; protected = false; operation = "" };
        };
        timeout = 300;
        poller_period = 60;
      }
      ∷ [];
  git_gpg_public_key_paths = "/keys/alice.asc" ∷ [];
  git_ssh_allowed_signers_path = "";
  git_submodules = false;
}

abbrev pub no_keys : KeyParser
no_keys text = err "no key found"

-- The repository has the remote with another URL.
abbrev pub moved : String → RemoteAnswer
moved name = if name == "origin" then found "https://example.org/old" [] else not_found

unfoldable opener : Unit {0}
unfolding after_delete manage_remote_by manage_remote manage_remotes read_gpg_key read_gpg_keys
    read_ssh_allowed_signers delete_old_repository repository_open new
opener = tt

abbrev opened : Opened (String → RemoteAnswer)
opened = record {
  opened_repository =
      (changed (changed moved "origin" not_found) "origin" (found "https://example.org/config" []));
  gpg_public_keys = "alice" ∷ [];
  ssh_allowed_signers = [];
}

new-moved : new disk calls no_keys moved config ≡ ok opened
unfolding opener
new-moved = refl

-- A key that is no key ring is refused.
new-no_key_ring :
    new
      (record disk { read_armored_key_ring = λ key. some "no armored data" })
      calls
      no_keys
      moved
      config
    ≡ err "failed to read the GPG public key /keys/alice.asc: no armored data"
unfolding opener
new-no_key_ring = refl

new-IsReady_example : IsReady disk calls no_keys moved config opened
new-IsReady_example =
    new-IsReady disk calls no_keys calls-IsGit moved config opened (tt, tt) new-moved
