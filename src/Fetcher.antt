-- ===== src/Fetcher.antt =====
-- internal/fetcher/git.go: the loop of `Start`, one message at a time. `worker` is the fetch that
-- `FetchAndUpdate` runs, with its remotes; what it sends comes from the repository and is a parameter.
pub mod Pending
mod Tests
use comin.Base.{
  ◌≡◌, Bool, true, false, ◌&&◌, ◌||◌, not, Option, none, some, List, [], ◌∷◌, ◌++◌, String, ◌==◌,
  contains, if◌then◌else◌,
}
use comin.Types.{GitRepositoryStatus, Event}

pub record Fetcher : Type 0 where
  pub is_fetching : Bool
  pub repository_status : GitRepositoryStatus
  pub remotes : List String
  pub worker : Option (List String)
  pub events : List Event

-- `NewGitFetcher`, and the variables of `Start` before its loop.
unfoldable pub new_fetcher : GitRepositoryStatus → Fetcher
new_fetcher rs = record {
  is_fetching = false;
  repository_status = rs;
  remotes = [];
  worker = none;
  events = [];
}

unfoldable pub union : List String → List String → List String
union l [] = l
union l (e ∷ es) = union (if contains l e then l else l ++ e ∷ []) es

-- `GetValue` of an optional Boolean.
abbrev pub get_value : Option Bool → Bool
get_value none = false
get_value (some b) = b

bool_eq : Bool → Bool → Bool
bool_eq true b = b
bool_eq false b = not b

unfoldable pub testing_differs : Option Bool → Option Bool → Bool
unfolding bool_eq
testing_differs none old = false
testing_differs (some b) old = not (bool_eq b (get_value old))

unfoldable pub is_updated : GitRepositoryStatus → GitRepositoryStatus → Bool
unfolding testing_differs
is_updated rs old =
    not (rs.selected_commit_id == old.selected_commit_id)
    || testing_differs rs.selected_branch_is_testing old.selected_branch_is_testing

unfoldable pub is_verified : GitRepositoryStatus → Bool
is_verified rs = not rs.selected_commit_should_be_signed || rs.selected_commit_signed

pub data Message : Type 0 where
  submitted : List String → Message
  returned : GitRepositoryStatus → Message

-- The body of the `select`. A worker sends one status.
unfoldable pub receive_status : GitRepositoryStatus → Fetcher → Fetcher
unfolding is_updated is_verified
receive_status rs f =
    let updated = is_updated rs f.repository_status in
    record f {
      is_fetching = false;
      worker = none;
      repository_status = if updated then rs else f.repository_status;
      events = f.events ++ Event.fetched rs updated (is_verified rs) ∷ [];
    }

unfoldable pub receive : Message → Fetcher → Fetcher
unfolding union receive_status
receive (submitted l) f = record f { remotes = union f.remotes l }
receive (returned rs) f = elim f.worker [ none ↦ f | some _ ↦ receive_status rs f ]

abbrev pub is_empty : List String → Bool
is_empty [] = true
is_empty (_ ∷ _) = false

-- The test after the `select`.
unfoldable pub launch : Fetcher → Fetcher
launch f =
    if not f.is_fetching && not (is_empty f.remotes)
    then record f { is_fetching = true; worker = some f.remotes; remotes = [] }
    else f

unfoldable pub step : Fetcher → Message → Fetcher
unfolding receive launch
step f m = launch (receive m f)

unfoldable pub run : Fetcher → List Message → Fetcher
unfolding step
run f [] = f
run f (m ∷ ms) = run (step f m) ms
