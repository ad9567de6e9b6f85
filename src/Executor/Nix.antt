-- ===== src/Executor/Nix.antt =====
-- internal/executor: what `Eval` reads from the commands of Nix (utils.go, nix.go, nix_flake.go), and
-- `New` (executor.go). The commands, the decoder of JSON and the clone of go-git are parameters.
use comin.Base.{
  Bool, not, ◌&&◌, Option, none, some, List, [], ◌∷◌, String, ◌==◌, str_append, Result, ok, err,
  ◌>>=◌, if◌then◌else◌,
}
use comin.Base.Texts.{has_prefix, trim_prefix, trim_last, split}
use comin.Base.Texts.Paths.{path_join}
use comin.Types.{Git}

-- The derivation, the output and the machine id that `Eval` finds.
pub record Evaluated : Type 0 where
  pub drv_path : String
  pub out_path : String
  pub machine_id : String

abbrev pub second_last : List String → Option String
second_last [] = none
second_last (a ∷ []) = none
second_last (a ∷ b ∷ []) = some a
second_last (a ∷ b ∷ c ∷ rest) = second_last (b ∷ c ∷ rest)

abbrev pub elements : List String → Result Evaluated
elements [] = err "nix: the output of the evaluation Nix command must at least return 2 elements"
elements (drv ∷ []) =
    err "nix: the output of the evaluation Nix command must at least return 2 elements"
elements (drv ∷ out ∷ []) = ok (record { drv_path = drv; out_path = out; machine_id = "" })
elements (drv ∷ out ∷ id ∷ rest) = ok (record { drv_path = drv; out_path = out; machine_id = id })

abbrev pub unquoted : String → String
unquoted line = trim_last (trim_prefix line "\"") "\""

-- The end of `showDerivationWithNix`, on the output of both commands.
unfoldable pub parse_instantiate : String → Result Evaluated
unfolding split trim_last trim_prefix
parse_instantiate output = elim (second_last (split output "\n")) [
  | none ↦ err "nix: nix-instantiate should return at least 2 lines"
  | some line ↦ elements (split (unquoted line) ";")
]

unfoldable pub text_of_parts : List String → String
text_of_parts [] = ""
text_of_parts (p ∷ ps) = str_append p (text_of_parts ps)

-- The expression of `showDerivationWithNix`.
unfoldable pub expression : String → String → String
unfolding text_of_parts
expression directory attr = text_of_parts (
    "let imported = import " ∷ directory
    ∷ "; default = if builtins.typeOf imported == \"lambda\" then imported {} else imported; machineId=if default."
    ∷ attr ∷ ".config.services.comin.machineId == null then \"\" else default." ∷ attr
    ∷ ".config.services.comin.machineId;  in \"${default." ∷ attr ∷ ".toplevel.drvPath};${default."
    ∷ attr ∷ ".toplevel.outPath};${machineId}\"" ∷ [])

-- The standard output of a command with its arguments, and its error.
abbrev pub Command : Type 0
Command = String → List String → Result String

-- `showDerivationWithNix`: both commands write to one buffer.
unfoldable pub show_derivation_with_nix : Command → String → String → Result Evaluated
unfolding parse_instantiate expression
show_derivation_with_nix command directory attr =
    command "nix-instantiate" (directory ∷ "-A" ∷ str_append attr ".toplevel" ∷ []) >>= λ first.
    command "nix-instantiate" ("--strict" ∷ "--eval" ∷ "-E" ∷ expression directory attr ∷ [])
    >>= λ second. parse_instantiate (str_append first second)

-- What a decoder finds in the description of derivations: in the format with a wrapper (`none` where it
-- has no derivations), and in the legacy one. An entry is the key of a derivation and its output, in
-- the order in which the map is ranged over.
pub record DerivationDecoder : Type 0 where
  pub unmarshal_wrapper : String → Option (List (String × String))
  pub unmarshal_legacy : String → Result (List (String × String))
  pub unmarshal_machine_id : String → Result (Option String)

-- A call that returns, or panics.
pub data Outcome {ℓ} (A : Type ℓ) : Type ℓ where
  returned : Result A → Outcome A
  panicked : Outcome A

abbrev pub store_path : String → String
store_path p = if not (has_prefix p "/nix/store/") then str_append "/nix/store/" p else p

abbrev pub output_path : String → String
output_path p =
    if not (has_prefix p "/nix/store/") && not (p == "") then str_append "/nix/store/" p else p

-- `keys[0]`, and what is made of it.
abbrev pub first_derivation : List (String × String) → Outcome (String × String)
first_derivation [] = panicked
first_derivation ((key, path) ∷ rest) = returned (ok (store_path key, output_path path))

unfoldable pub parse_derivation_with_flake : DerivationDecoder → String → Outcome (String × String)
unfolding has_prefix
parse_derivation_with_flake decoder text = elim (decoder.unmarshal_wrapper text) [
  | some output ↦ first_derivation output
  | none ↦ elim (decoder.unmarshal_legacy text) [
    | err e ↦ returned (err (str_append "failed to unmarshal JSON in both formats: " e))
    | ok output ↦ first_derivation output
  ]
]

abbrev pub flake_args : List String → List String
flake_args args =
    "--extra-experimental-features" ∷ "flakes nix-command" ∷ "--accept-flake-config" ∷ args

abbrev pub flake_attribute : String → String → String → String → String
flake_attribute url attr hostname path = str_append url (
    str_append "#"
      (str_append attr (str_append ".\"" (str_append hostname (str_append "\"." path)))))

unfoldable pub show_derivation_with_flake :
    Command → DerivationDecoder → String → String → String → Outcome (String × String)
unfolding parse_derivation_with_flake
show_derivation_with_flake command decoder url hostname attr =
    let installable = flake_attribute url attr hostname "config.system.build.toplevel" in
    elim (command "nix"
      (flake_args ("derivation" ∷ "show" ∷ installable ∷ "-L" ∷ "--show-trace" ∷ []))) [
        | err e ↦ returned (err e)
        | ok text ↦ parse_derivation_with_flake decoder text
      ]

abbrev machine_id_of : Option String → String
machine_id_of none = ""
machine_id_of (some id) = id

unfoldable pub get_expected_machine_id :
    Command → DerivationDecoder → String → String → String → Result String
get_expected_machine_id command decoder url hostname attr =
    command "nix" (
      flake_args (
        "eval"
        ∷ flake_attribute url attr hostname "config.services.comin.machineId"
        ∷ "--json"
        ∷ []))
    >>= λ text. decoder.unmarshal_machine_id text >>= λ id. ok (machine_id_of id)

-- An executor: `GitNixFlake` with its attribute, or `GitNix`.
pub data Executor : Type 0 where
  git_nix_flake : String → String → Bool → Executor
  git_nix : String → Bool → Executor

-- `New`; the error that it prints is nil there.
unfoldable pub new : String → String → String → Bool → Result Executor
new goos repository_type path submodules =
    if repository_type == "flake"
    then (if goos == "darwin"
        then ok (git_nix_flake "darwinConfigurations" path submodules)
        else ok (git_nix_flake "nixosConfigurations" path submodules))
    else if repository_type == "nix"
    then ok (git_nix path submodules)
    else err "failed to create the executor: %!s(<nil>)"

unfoldable pub flake_url : String → Bool → Git → String
unfolding text_of_parts
flake_url path submodules git =
    let url = text_of_parts (
      "git+file://" ∷ path ∷ "?dir=" ∷ git.repository_subdir ∷ "&rev=" ∷ git.selected_commit_id
      ∷ []) in
    if submodules then str_append url "&submodules=1" else url

abbrev with_machine_id : Result String → String × String → Outcome Evaluated
with_machine_id (err e) (drv, out) = returned (err e)
with_machine_id (ok id) (drv, out) =
    returned (ok (record { drv_path = drv; out_path = out; machine_id = id }))

abbrev after_show : Result String → Outcome (String × String) → Outcome Evaluated
after_show id panicked = panicked
after_show id (returned (err e)) = returned (err e)
after_show id (returned (ok paths)) = with_machine_id id paths

-- `Eval` of `GitNixFlake`.
unfoldable pub eval_flake :
    Command → DerivationDecoder → String → String → Bool → Option Git → Outcome Evaluated
unfolding flake_url show_derivation_with_flake get_expected_machine_id
eval_flake command decoder attr path submodules none = returned (err "expected Git source, got nil")
eval_flake command decoder attr path submodules (some git) =
    let url = flake_url path submodules git in
    after_show (get_expected_machine_id command decoder url git.hostname attr)
      (show_derivation_with_flake command decoder url git.hostname attr)

-- `Eval` of `GitNix`; the clone gives the directory that it has made.
unfoldable pub eval_nix :
    Command
    → (String → String → Bool → Result String)
    → String
    → Bool
    → Option Git
    → Result Evaluated
unfolding show_derivation_with_nix path_join
eval_nix command clone path submodules none = err "expected Git source, got nil"
eval_nix command clone path submodules (some git) =
    clone path git.selected_commit_id submodules >>= λ dir.
    show_derivation_with_nix command (path_join dir git.repository_subdir) git.system_attr
