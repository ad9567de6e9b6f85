-- ===== src/Repository/Fetching.antt =====
-- internal/repository: `NewGitRepositoryStatus` and `GetRemote` (repository_status.go), `Fetch`
-- (repository.go) and `fetch` (git.go). The client of go-git is a parameter.
use comin.Base.{
  ℕ, ◌≡◌, refl, sym, ap, ◌∙◌, inl, inr, true, false, ◌||◌, not, Option, none, some, List, [], ◌∷◌,
  map, String, ◌==◌, eq_iff, str_append, contains, if◌then◌else◌, Bool-cases, arith,
}
use comin.Types.{Branch, Remote, GitRepositoryStatus, Error}

-- `types.Remote`, with its credentials.
pub record RemoteConfig : Type 0 where
  pub name : String
  pub url : String
  pub main : String
  pub testing : String
  pub access_token : String
  pub ssh_deploy_key_path : String
  pub ssh_known_hosts_path : String
  pub username : String

-- What `FetchContext` of go-git answers.
pub data Answer : Type 0 where
  fetched already_up_to_date : Answer
  fails : String → Answer

pub record Client : Type 0 where
  pub load_key : String → String → Error
  pub load_known_hosts : String → Error
  pub fetch_context : RemoteConfig → Answer

abbrev branch_of : String → Branch
branch_of name = record {
  name = name;
  commit_id = "";
  commit_msg = "";
  error_msg = "";
  on_top_of = "";
}

abbrev remote_of : RemoteConfig → Remote
remote_of c = record {
  name = c.name;
  url = c.url;
  fetch_error_msg = "";
  main = branch_of c.main;
  testing = branch_of c.testing;
  fetched_at = none;
  fetched = false;
}

unfoldable pub new_git_repository_status : List RemoteConfig → String → GitRepositoryStatus
new_git_repository_status config main_commit_id = record {
  selected_commit_id = "";
  selected_commit_msg = "";
  selected_remote_name = "";
  selected_branch_name = "";
  selected_branch_is_testing = none;
  selected_commit_signed = false;
  selected_commit_signed_by = "";
  selected_commit_should_be_signed = false;
  main_commit_id = main_commit_id;
  main_remote_name = "";
  main_branch_name = "";
  remotes = map remote_of config;
  error_msg = "";
}

unfoldable pub get_remote : List Remote → String → Option Remote
get_remote [] name = none
get_remote (r ∷ rs) name = if r.name == name then some r else get_remote rs name

-- `fetch` once the credentials are set.
abbrev answer_error : RemoteConfig → Answer → Error
answer_error c fetched = none
answer_error c already_up_to_date = none
answer_error c (fails e) =
    some (str_append "'git fetch " (str_append c.name (str_append "' fails: '" (str_append e "'"))))

abbrev known_hosts_path : RemoteConfig → String
known_hosts_path c =
    if c.ssh_known_hosts_path == "" then "/etc/ssh/ssh_known_hosts" else c.ssh_known_hosts_path

unfoldable pub fetch_remote : Client → RemoteConfig → Error
fetch_remote client c =
    if not (c.access_token == "") || c.ssh_deploy_key_path == ""
    then answer_error c (client.fetch_context c)
    else (elim (client.load_key c.username c.ssh_deploy_key_path) [
      | some e ↦ some (str_append "loading SSH private key failed: " e)
      | none ↦ elim (client.load_known_hosts (known_hosts_path c)) [
        | some e ↦ some (str_append "loading SSH known_hosts file failed: " (known_hosts_path c))
        | none ↦ answer_error c (client.fetch_context c)
      ]
    ])

abbrev note_fetch : Error → ℕ → Remote → Remote
note_fetch (some e) now r = record r { fetch_error_msg = e; fetched_at = some now }
note_fetch none now r = record r { fetch_error_msg = ""; fetched = true; fetched_at = some now }

-- A write through the pointer of `GetRemote`. `NewGitRepositoryStatus` makes a remote for each that
-- is configured, so there is one.
unfoldable pub update_remote : String → (Remote → Remote) → List Remote → List Remote
update_remote name f [] = []
update_remote name f (r ∷ rs) = if r.name == name then f r ∷ rs else r ∷ update_remote name f rs

-- The loop of `Fetch`.
unfoldable pub fetch_loop : Client → List String → ℕ → List RemoteConfig → List Remote → List Remote
unfolding fetch_remote update_remote
fetch_loop client names now [] rs = rs
fetch_loop client names now (c ∷ cs) rs = fetch_loop client names now cs (
    if contains names c.name
    then update_remote c.name (note_fetch (fetch_remote client c) now) rs
    else rs)

unfoldable pub fetch :
    Client → List String → ℕ → List RemoteConfig → GitRepositoryStatus → GitRepositoryStatus
unfolding fetch_loop
fetch client names now config s = record s {
  error_msg = "";
  remotes = fetch_loop client names now config s.remotes;
}

note_fetch-name : (e : Error) (now : ℕ) (r : Remote) → (note_fetch e now r).name ≡ r.name
note_fetch-name (some m) now r = refl
note_fetch-name none now r = refl

get_remote-update_remote :
    (e : Error) (now : ℕ) (name other : String) (rs : List Remote)
    → (name == other) ≡ false
    → get_remote (update_remote name (note_fetch e now) rs) other ≡ get_remote rs other
unfolding get_remote update_remote
get_remote-update_remote e now name other [] h = refl
get_remote-update_remote e now name other (r ∷ rs) h = ground (
  arith,
  eq_iff r.name name,
  eq_iff r.name other,
  eq_iff name other,
  note_fetch-name e now r,
  get_remote-update_remote e now name other rs h,
)

-- What a fetch must not touch of a remote.
abbrev pub branches_of : Remote → String × Branch × Branch
branches_of r = (r.name, r.main, r.testing)

note_fetch-branches_of :
    (e : Error) (now : ℕ) (r : Remote) → branches_of (note_fetch e now r) ≡ branches_of r
note_fetch-branches_of (some m) now r = refl
note_fetch-branches_of none now r = refl

update_remote-branches_of :
    (e : Error) (now : ℕ) (name : String) (rs : List Remote)
    → map branches_of (update_remote name (note_fetch e now) rs) ≡ map branches_of rs
unfolding update_remote
update_remote-branches_of e now name [] = refl
update_remote-branches_of e now name (r ∷ rs) = elim (Bool-cases (r.name == name)) [
  | inl hit ↦ rw hit (ap (λ b. b ∷ map branches_of rs) (note_fetch-branches_of e now r))
  | inr miss ↦ rw miss (ap (λ bs. branches_of r ∷ bs) (update_remote-branches_of e now name rs))
]

apart :
    (names : List String) (name other : String)
    → contains names name ≡ true
    → contains names other ≡ false
    → (name == other) ≡ false
apart names name other h k = elim (Bool-cases (name == other)) [
  | inr e ↦ e
  | inl e ↦
      let same : name ≡ other = ground (arith, eq_iff name other) in
      let both : true ≡ false = sym h ∙ ap (contains names) same ∙ k in absurd (ground arith)
]

fetch_loop-kept :
    (client : Client) (names : List String) (now : ℕ) (config : List RemoteConfig)
    (rs : List Remote) (other : String)
    → contains names other ≡ false
    → (map branches_of (fetch_loop client names now config rs) ≡ map branches_of rs)
      × (get_remote (fetch_loop client names now config rs) other ≡ get_remote rs other)
unfolding fetch_loop
fetch_loop-kept client names now [] rs other h = (refl, refl)
fetch_loop-kept client names now (c ∷ cs) rs other h = elim (Bool-cases (contains names c.name)) [
  | inr skipped ↦ rw (skipped, fetch_loop) (fetch_loop-kept client names now cs rs other h)
  | inl asked ↦
      let e = fetch_remote client c in
      let rs' = update_remote c.name (note_fetch e now) rs in
      let (heads, others) = fetch_loop-kept client names now cs rs' other h in
      rw (asked, fetch_loop)
        (
          heads ∙ update_remote-branches_of e now c.name rs,
          others
              ∙ get_remote-update_remote e now c.name other rs (apart names c.name other asked h),
        )
]

-- A fetch selects nothing: whatever the client answers, it changes neither the main and the selected
-- commit nor what is known of the branches of any remote, and it leaves a remote that it is not asked
-- for as it is.
pub fetch-kept :
    (client : Client) (names : List String) (now : ℕ) (config : List RemoteConfig)
    (s : GitRepositoryStatus) (other : String)
    → contains names other ≡ false
    → let s' = fetch client names now config s in
      (s'.main_commit_id ≡ s.main_commit_id)
      × (s'.selected_commit_id ≡ s.selected_commit_id)
      × (map branches_of s'.remotes ≡ map branches_of s.remotes)
      × (get_remote s'.remotes other ≡ get_remote s.remotes other)
unfolding fetch
fetch-kept client names now config s other h =
    let (heads, others) = fetch_loop-kept client names now config s.remotes other h in
    (refl, refl, heads, others)
