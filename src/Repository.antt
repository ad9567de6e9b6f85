-- ===== src/Repository.antt =====
-- internal/repository: the heads of the remote branches (git.go), and `Update`, which chooses the
-- commit to deploy (repository.go). What go-git reads from the local repository is a parameter; a
-- hash is its hexadecimal text.
pub mod Forward
pub mod Selection
pub mod Fetching
pub mod Signatures
pub mod Signers
pub mod Opening
pub mod Accepted
pub mod Verified
pub mod Tests
use comin.Base.{
  ◌≡◌, Bool, true, false, not, ◌&&◌, ◌||◌, Option, none, some, List, [], ◌∷◌, String, ◌==◌,
  str_append, if◌then◌else◌, Result, ok, err, ◌>>=◌, contains,
}
use comin.Types.{Branch, Remote, GitRepositoryStatus, Timestamp}

-- go-git: the hash of a reference, the hashes of `git log` from a commit, the message of a commit.
pub record GitRepository : Type 0 where
  pub reference : String → Option String
  pub log : String → Result (List String)
  pub message : String → Result String

-- `getRemoteCommitHash`.
abbrev pub get_remote_commit_hash : GitRepository → String → String → Option String
get_remote_commit_hash r remote branch =
    r.reference (str_append "refs/remotes/" (str_append remote (str_append "/" branch)))

-- The walk of `isAncestor`, which skips the first commit.
abbrev pub below_top : List String → List String
below_top [] = []
below_top (top ∷ rest) = rest

unfoldable pub is_ancestor : GitRepository → String → String → Result Bool
is_ancestor r base top = elim (r.log top) [
  | err e ↦ err (str_append "git log " (str_append top (str_append " fails: '" (str_append e "'"))))
  | ok commits ↦ ok (contains (below_top commits) base)
]

reset_unless : String → String → Bool → Result (Unit {0})
reset_unless head current true = ok tt
reset_unless head current false = err (
    str_append "this branch has been hard reset: its head '"
      (str_append head (str_append "' is not on top of '" (str_append current "'"))))

-- `hasNotBeenHardReset`, with the current main commit empty where its pointer is nil.
unfoldable pub has_not_been_hard_reset : GitRepository → String → String → Result (Unit {0})
unfolding is_ancestor reset_unless
has_not_been_hard_reset r current head =
    if not (current == "") && not (current == head)
    then is_ancestor r current head >>= reset_unless head current
    else ok tt

unfoldable pub get_head_from_remote_and_branch :
    GitRepository → String → String → String → Result (String × String)
unfolding has_not_been_hard_reset
get_head_from_remote_and_branch r remote branch current =
    elim (get_remote_commit_hash r remote branch) [
      | none ↦ err (
          str_append "the branch '"
            (str_append remote (str_append "/" (str_append branch "' doesn't exist"))))
      | some head ↦ do
        _ ← has_not_been_hard_reset r current head
        msg ← r.message head
        ok (head, msg)
    ]

-- What the loops of `Update` carry: the local variable and the status.
pub record Choice : Type 0 where
  pub selected : String
  pub status : GitRepositoryStatus

abbrev pub select : Choice → String → String → String → String → Bool → Choice
select c head msg branch remote testing = record {
  selected = head;
  status = record (c.status) {
    selected_commit_msg = msg;
    selected_branch_name = branch;
    selected_remote_name = remote;
    selected_branch_is_testing = some testing;
  };
}

abbrev pub note_error : Branch → String → Branch
note_error b e = record b { error_msg = e }

abbrev pub note_head : Branch → String → String → String → Branch
note_head b head msg main = record b {
  error_msg = "";
  commit_id = head;
  commit_msg = msg;
  on_top_of = main;
}

abbrev pub add_remote : Remote → List Remote × Choice → List Remote × Choice
add_remote x (rest, c) = (x ∷ rest, c)

-- The first remote of a main branch is selected while nothing else is.
abbrev pub first_main : Choice → String → String → Remote → Choice
first_main c head msg x = if c.selected == "" then select c head msg x.main.name x.name false else c

abbrev pub new_main : Choice → String → String → Remote → Choice
new_main c head msg x =
    let c' = select c head msg x.main.name x.name false in
    record c' {
      status = record (c'.status) {
        main_commit_id = head;
        main_branch_name = x.main.name;
        main_remote_name = x.name;
      };
    }

-- The loop over the main branches. It stops at the first head that is not the main commit.
unfoldable pub main_loop : GitRepository → List Remote → Choice → List Remote × Choice
unfolding get_head_from_remote_and_branch
main_loop r [] c = ([], c)
main_loop r (x ∷ xs) c = elim (x.fetch_error_msg == "") [
  | false ↦ add_remote x (main_loop r xs c)
  | true ↦ elim (get_head_from_remote_and_branch r x.name x.main.name c.status.main_commit_id) [
    | err e ↦ add_remote (record x { main = note_error x.main e }) (main_loop r xs c)
    | ok (head, msg) ↦
        let x' = record x { main = note_head x.main head msg c.status.main_commit_id } in
        let c' = first_main c head msg x in
        elim (head == c.status.main_commit_id) [
          | true ↦ add_remote x' (main_loop r xs c')
          | false ↦ (x' ∷ xs, new_main c' head msg x)
        ]
  ]
]

-- The loop over the testing branches. It stops at the first head that is neither selected nor the
-- main commit.
unfoldable pub testing_loop : GitRepository → List Remote → Choice → List Remote × Choice
unfolding get_head_from_remote_and_branch
testing_loop r [] c = ([], c)
testing_loop r (x ∷ xs) c = elim (x.fetch_error_msg == "" && not (x.testing.name == "")) [
  | false ↦ add_remote x (testing_loop r xs c)
  | true ↦ elim (get_head_from_remote_and_branch r x.name x.testing.name c.status.main_commit_id) [
    | err e ↦ add_remote (record x { testing = note_error x.testing e }) (testing_loop r xs c)
    | ok (head, msg) ↦
        let x' = record x { testing = note_head x.testing head msg c.status.main_commit_id } in
        elim (head == c.selected || head == c.status.main_commit_id) [
          | true ↦ add_remote x' (testing_loop r xs c)
          | false ↦ (x' ∷ xs, select c head msg x.testing.name x.name true)
        ]
  ]
]

-- Whether commits must be signed, and who signed one (`commitSignedBy`).
pub record Verifier : Type 0 where
  pub has_keys : Bool
  pub signed_by : String → Result String

abbrev pub set_signed : GitRepositoryStatus → Result String → GitRepositoryStatus
set_signed s (err e) = record s {
  error_msg = e;
  selected_commit_signed = false;
  selected_commit_signed_by = "";
}
set_signed s (ok signer) =
    if signer == ""
    then record s { selected_commit_signed = false; selected_commit_signed_by = "" }
    else record s { selected_commit_signed = true; selected_commit_signed_by = signer }

unfoldable pub verify_selected : Verifier → String → GitRepositoryStatus → GitRepositoryStatus
verify_selected v selected s =
    if v.has_keys
    then set_signed (record s { selected_commit_should_be_signed = true }) (v.signed_by selected)
    else record s { selected_commit_should_be_signed = false }

abbrev pub store_selected : Choice → GitRepositoryStatus
store_selected c =
    if c.selected == "" then c.status else record (c.status) { selected_commit_id = c.selected }

-- The two loops of `Update`.
unfoldable pub walk : GitRepository → GitRepositoryStatus → List Remote × Choice
unfolding main_loop testing_loop
walk r s =
    let (remotes, c) = main_loop r s.remotes (record { selected = ""; status = s }) in
    testing_loop r remotes c

-- `Update` after its loops.
abbrev pub conclude : Verifier → List Remote × Choice → GitRepositoryStatus
conclude v (remotes, c) =
    verify_selected v c.selected (record (store_selected c) { remotes = remotes })

unfoldable pub update : GitRepository → Verifier → GitRepositoryStatus → GitRepositoryStatus
unfolding walk verify_selected
update r v s = conclude v (walk r s)
