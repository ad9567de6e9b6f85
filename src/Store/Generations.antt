-- ===== src/Store/Generations.antt =====
-- The operations on generations (internal/store/generation.go). A pointer that `generationGet`
-- returns is the first cell with the uuid; a write through it replaces that cell's generation.
pub mod Collected
pub mod Status
pub mod Bounded
use comin.Base.{
  ℕ, suc, ◌≡◌, Bool, true, false, ◌&&◌, ◌||◌, not, Option, none, some, List, [], ◌∷◌, ◌++◌, String,
  ◌==◌, str_append, nat_eq, if◌then◌else◌,
}
use comin.Types.{Generation, empty_generation, Git, GitRepositoryStatus, Remote, Event, Error}
use comin.Store.{Store, Persisted, Cell, Disk, publish}

pub data EvalStatus : Type 0 where
  eval_init evaluating evaluated eval_failed : EvalStatus

abbrev pub eval_status_string : EvalStatus → String
eval_status_string eval_init = "initialized"
eval_status_string evaluating = "evaluating"
eval_status_string evaluated = "evaluated"
eval_status_string eval_failed = "failed"

unfoldable pub string_to_eval_status : String → EvalStatus
string_to_eval_status s =
    if s == "initialized"
    then eval_init
    else if s == "evaluating"
    then evaluating
    else if s == "evaluated"
    then evaluated
    else if s == "failed"
    then eval_failed
    else eval_init

pub data BuildStatus : Type 0 where
  build_init building built build_failed : BuildStatus

abbrev pub build_status_string : BuildStatus → String
build_status_string build_init = "initialized"
build_status_string building = "building"
build_status_string built = "built"
build_status_string build_failed = "failed"

unfoldable pub string_to_build_status : String → BuildStatus
string_to_build_status s =
    if s == "initialized"
    then build_init
    else if s == "building"
    then building
    else if s == "built"
    then built
    else if s == "failed"
    then build_failed
    else build_init

-- The first remote of the status with the selected name.
unfoldable pub remote_url : String → List Remote → String
remote_url name [] = ""
remote_url name (r ∷ rs) = if r.name == name then r.url else remote_url name rs

-- `NewGeneration`, with the uuid that `uuid.New` hands out: the store and the generation returned.
unfoldable pub new_generation :
    Store → String → String → String → GitRepositoryStatus → String → Store × Generation
unfolding remote_url
new_generation s hostname repository_dir system_attr rs uuid =
    let g : Generation = record empty_generation {
      uuid = uuid;
      source = some (record {
        repository_subdir = repository_dir;
        system_attr = system_attr;
        hostname = hostname;
        selected_remote_url = remote_url rs.selected_remote_name rs.remotes;
        selected_remote_name = rs.selected_remote_name;
        selected_branch_name = rs.selected_branch_name;
        selected_commit_id = rs.selected_commit_id;
        selected_commit_msg = rs.selected_commit_msg;
        selected_branch_is_testing = rs.selected_branch_is_testing;
        main_commit_id = rs.main_commit_id;
        main_remote_name = rs.main_remote_name;
        main_branch_name = rs.main_branch_name;
      });
      eval_status = eval_status_string eval_init;
      build_status = build_status_string build_init;
    } in
    (
      record s {
        persisted = record (s.persisted) {
          generations = s.persisted.generations ++ record { ref = s.next_ref; generation = g } ∷ [];
        };
        next_ref = suc s.next_ref;
      },
      g,
    )

abbrev pub find_cell : String → List Cell → Option Cell
find_cell uuid [] = none
find_cell uuid (c ∷ cs) = if c.generation.uuid == uuid then some c else find_cell uuid cs

unfoldable pub set_cell : String → Generation → List Cell → List Cell
set_cell uuid g [] = []
set_cell uuid g (c ∷ cs) =
    if c.generation.uuid == uuid then record c { generation = g } ∷ cs else c ∷ set_cell uuid g cs

abbrev pub is_ref : Option ℕ → Cell → Bool
is_ref none c = false
is_ref (some r) c = nat_eq c.ref r

-- The test of `generationsGC`.
unfoldable pub is_alive : Store → Cell → Bool
is_alive s c =
    is_ref s.last_eval_started c
    || is_ref s.last_eval_finished c
    || is_ref s.last_build_started c
    || is_ref s.last_build_finished c

unfoldable pub alive_cells : Store → List Cell → List Cell
alive_cells s [] = []
alive_cells s (c ∷ cs) = if is_alive s c then c ∷ alive_cells s cs else alive_cells s cs

unfoldable pub generations_gc : Store → Store
unfolding alive_cells is_alive
generations_gc s = record s {
  persisted = record (s.persisted) { generations = alive_cells s s.persisted.generations };
}

unfoldable pub no_generation : String → Error
no_generation uuid =
    some (str_append "store: no generation with uuid " (str_append uuid " has been found"))

-- `GenerationGet`, which returns a copy.
abbrev pub generation_of : Option Cell → Option Generation
generation_of none = none
generation_of (some c) = some c.generation

abbrev pub generation_get : Store → String → Option Generation
generation_get s uuid = generation_of (find_cell uuid s.persisted.generations)

abbrev pub write_generation : Store → String → Generation → Store
write_generation s uuid g = record s {
  persisted = record (s.persisted) { generations = set_cell uuid g s.persisted.generations };
}

unfoldable pub eval_started_of : ℕ → Generation → Generation
eval_started_of now g = record g {
  eval_started_at = some now;
  eval_status = eval_status_string evaluating;
}

unfoldable pub generation_eval_started : Store → String → ℕ → Store × Error
unfolding set_cell generations_gc publish no_generation eval_started_of
generation_eval_started s uuid now = elim (find_cell uuid s.persisted.generations) [
  | none ↦ (s, no_generation uuid)
  | some c ↦
      let g = eval_started_of now c.generation in
      (
        publish
            (generations_gc (record (write_generation s uuid g) { last_eval_started = some c.ref }))
            (Event.eval_started g),
        none,
      )
]

unfoldable pub eval_outcome : Error → Generation → Generation
eval_outcome (some msg) g = record g {
  eval_err = msg;
  eval_status = eval_status_string eval_failed;
}
eval_outcome none g = record g { eval_status = eval_status_string evaluated }

unfoldable pub eval_finished_of : String → String → String → Error → ℕ → Generation → Generation
unfolding eval_outcome
eval_finished_of drv_path out_path machine_id eval_err now g = record (eval_outcome eval_err g) {
  drv_path = drv_path;
  out_path = out_path;
  machine_id = machine_id;
  eval_ended_at = some now;
}

unfoldable pub generation_eval_finished :
    Store → String → String → String → String → Error → ℕ → Store × Error
unfolding set_cell generations_gc publish no_generation eval_finished_of
generation_eval_finished s uuid drv_path out_path machine_id eval_err now =
    elim (find_cell uuid s.persisted.generations) [
      | none ↦ (s, no_generation uuid)
      | some c ↦
          let g = eval_finished_of drv_path out_path machine_id eval_err now c.generation in
          (
            publish
                (generations_gc
                  (record (write_generation s uuid g) { last_eval_finished = some c.ref }))
                (Event.eval_finished g),
            none,
          )
    ]

unfoldable pub build_started_of : String → ℕ → Generation → Generation
build_started_of reason now g = record g {
  build_started_at = some now;
  build_status = build_status_string building;
  build_reason = reason;
}

unfoldable pub generation_build_start : Store → String → String → ℕ → Store × Error
unfolding set_cell generations_gc publish no_generation build_started_of
generation_build_start s uuid reason now = elim (find_cell uuid s.persisted.generations) [
  | none ↦ (s, no_generation uuid)
  | some c ↦
      let g = build_started_of reason now c.generation in
      (
        publish
            (generations_gc
              (record (write_generation s uuid g) { last_build_started = some c.ref }))
            (Event.build_started g),
        none,
      )
]

unfoldable pub build_finished_of : Error → ℕ → Generation → Generation
build_finished_of none now g = record g {
  build_ended_at = some now;
  build_err = "";
  build_status = build_status_string built;
}
build_finished_of (some msg) now g = record g {
  build_ended_at = some now;
  build_err = msg;
  build_status = build_status_string build_failed;
}

-- The link that keeps the last built store path from the Nix garbage collector: an old link is
-- removed first, and a link is made where none is left.
unfoldable pub link_gc_root : Disk → Option String → String → Option String
link_gc_root disk old path =
    let rest : Option String = elim old [
      | none ↦ none
      | some p ↦ if disk.removable then none else some p
    ] in
    elim rest [ some p ↦ some p | none ↦ if disk.linkable then some path else none ]

abbrev pub gc_root_after : Error → Store → String → Option String
gc_root_after none s path = link_gc_root s.disk s.gc_root path
gc_root_after (some msg) s path = s.gc_root

unfoldable pub generation_build_finished : Store → String → Error → ℕ → Store × Error
unfolding set_cell generations_gc publish no_generation build_finished_of link_gc_root
generation_build_finished s uuid build_err now = elim (find_cell uuid s.persisted.generations) [
  | none ↦ (s, no_generation uuid)
  | some c ↦
      let g = build_finished_of build_err now c.generation in
      (
        publish
            (generations_gc (record (write_generation s uuid g) {
              last_build_finished = some c.ref;
              gc_root = gc_root_after build_err s g.out_path;
            }))
            (Event.build_finished g),
        none,
      )
]

unfoldable pub generation_has_to_be_built : Generation → Bool
generation_has_to_be_built g =
    g.eval_status == eval_status_string evaluated
    && not (g.build_status == build_status_string built)
