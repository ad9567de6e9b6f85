-- ===== src/Repository/Tests.antt =====
-- A repository of three commits, and the theorems at it.
use comin.Base.{◌≡◌, refl, ◌⊎◌, true, false, none, some, [], ◌∷◌, ◌==◌, ok, err, if◌then◌else◌}
use comin.Samples.{sample_status}
use comin.Repository.{
  GitRepository, is_ancestor, reset_unless, has_not_been_hard_reset,
  get_head_from_remote_and_branch, main_loop, testing_loop, verify_selected, walk, update,
}
use comin.Repository.Fetching.{Client, Answer, RemoteConfig}
use comin.Repository.Forward.{IsForward}
use comin.Repository.Selection.{update-IsForward}
use comin.Repository.Signatures.{
  Objects, CommitObject, gpg_loop, commit_signed_by_gpg, commit_signed_by, verifier,
}

-- The branch testing is on top of main, which is on top of the commit c1.
abbrev pub history : GitRepository
history = record {
  reference = λ name.
      if name == "refs/remotes/origin/main"
      then some "c2"
      else if name == "refs/remotes/origin/testing"
      then some "c3"
      else none;
  log = λ commit.
      if commit == "c3"
      then ok ("c3" ∷ "c2" ∷ "c1" ∷ [])
      else if commit == "c2"
      then ok ("c2" ∷ "c1" ∷ [])
      else if commit == "c1"
      then ok ("c1" ∷ [])
      else err "object not found";
  message = λ commit. ok commit;
}

abbrev signed_commit : CommitObject
signed_commit = record {
  verify_gpg = λ key. if key == "k" then some "alice" else none;
  pgp_signature = "-----BEGIN PGP SIGNATURE-----";
  payload = ok "";
}

abbrev pub objects : Objects
objects = record {
  commit_object = λ id. if id == "c3" then ok signed_commit else err "object not found";
  sha256 = λ s. s;
  sha512 = λ s. s;
  pem_decode = λ s. none;
  unmarshal_wire = λ s. err "short read";
  parse_public_key = λ k. ok k;
  unmarshal_signature = λ s. err "short read";
  marshal = λ n r a d. d;
  verify_ssh = λ k d s. false;
}

unfoldable pub program : Unit {0}
unfolding is_ancestor reset_unless has_not_been_hard_reset get_head_from_remote_and_branch main_loop
    testing_loop verify_selected walk update verifier commit_signed_by commit_signed_by_gpg gpg_loop
program = tt

update_selects :
    let s = update history (verifier objects ("k" ∷ []) []) sample_status in
    (s.main_commit_id ≡ "c2")
    × (s.selected_commit_id ≡ "c3")
    × (s.selected_branch_is_testing ≡ some true)
    × (s.selected_commit_signed_by ≡ "alice")
unfolding program
update_selects = (refl, refl, refl, refl)

is_signed :
    (update history (verifier objects ("k" ∷ []) []) sample_status).selected_commit_signed ≡ true
unfolding program
is_signed = refl

update-IsForward_example :
    let s' = update history (verifier objects ("k" ∷ []) []) sample_status in
    IsForward history "c1" s'.main_commit_id
    × ((s'.selected_commit_id ≡ "c1") ⊎ IsForward history s'.main_commit_id s'.selected_commit_id)
update-IsForward_example = update-IsForward history (verifier objects ("k" ∷ []) []) sample_status

abbrev pub client : Client
client = record {
  load_key = λ user path. none;
  load_known_hosts = λ path. none;
  fetch_context = λ c. Answer.fails "timeout";
}

abbrev origin : RemoteConfig
origin = record {
  name = "origin";
  url = "https://example.org/config";
  main = "main";
  testing = "testing";
  access_token = "";
  ssh_deploy_key_path = "";
  ssh_known_hosts_path = "";
  username = "";
}
