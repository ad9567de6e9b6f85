-- ===== src/Lib.antt =====
-- A model of comin, the agent that deploys NixOS configurations from Git: it fetches the remotes of
-- a configuration, selects a commit, evaluates and builds the system of this commit, and switches
-- the host to it. The development follows the Go code of internal/ and proves what makes its parts
-- correct.
--
-- The parts and their files, with the code that each models:
--
--   Types       the messages of pkg/protobuf/services.proto and the operations of internal/types
--   Store       internal/store: the deployments and generations, and the file they are written to.
--               Store/Retention is `retention`, Store/Inhibitors the choice of the operation,
--               Store/Deployments and Store/Generations the operations on both lists,
--               Store/Loading what a new store takes from its file
--   Confirmer   internal/manager/confirmer.go: a submission waits for a user or for a timer
--   Fetcher     internal/fetcher/git.go: which remotes wait to be fetched, and what is published
--   Repository  internal/repository: `Update`, which selects the commit from the heads of the
--               branches (Repository, Forward, Selection), who has signed it (Signatures,
--               Accepted, Verified), `Fetch` (Fetching), the parser of the file of SSH allowed
--               signers (Signers), and `New` with the keys and the remotes (Opening)
--   Builder     internal/builder: one evaluation and one build at a time; Builder/Suspending has
--               the parts of `Suspend`, between which other calls come; Builder/Exec is the run with a context of exec.go, and the wait for its end
--   Deployer    internal/deployer: the submissions, the runner and its suspension
--   Executor    internal/executor: the deployment on Linux and on Darwin (Executor, Deployment,
--               Success), the evaluations (Nix) and what is read from the output of Nix (Output)
--   Profile     internal/profile: the profiles that are removed and the one that is made
--   Broker      internal/broker: the events, their subscribers, and the logger of a process
--   Config      internal/config: what `Read` makes of the decoded file
--   Manager     internal/manager/manager.go: the handlers that join the parts
--   Startup     cmd/run.go and internal/scheduler: how the parts are made from the configuration and
--               from the state of the last run (Configured, Resumed)
--   Samples, and the Tests of each part: runs, and the theorems at concrete states
--   Base        names of the libraries, lists, permutations, maps with text keys, results;
--               Base/Texts has the functions of Go's strings and path packages
--
-- How the code corresponds. A Go method is a function from a state to a state, named as in the code
-- in lower case (`DeploymentStarted` is `deployment_started`). An error is `some` message, a nil
-- pointer `none`. A goroutine that loops over a `select` is a step function on a state and one
-- message; a run is a list of messages, in any order. What waits on a channel of capacity one is a
-- field of the state. Where a method waits for the outside (the end of an evaluation, of a build or of
-- the deploy function, the signal that resumes a runner) it is cut in two functions, so other
-- calls can come between. Times are nanoseconds, and the clock is an argument, as are the uuids drawn.
-- Mutexes are left out: the functions are what runs under them, and `Suspend` of the builder, which
-- does not hold its mutex throughout, is cut where it releases it. The stop of the runs within `Eval`
-- is one step with its start, and a whole request of the manager is one step.
--
-- The store holds pointers: a generation stands in a cell with an address, and the four pointers to
-- the last generations are addresses. A deployment is found by its uuid, and a write through a pointer
-- replaces the first entry with this uuid. The manager, the builder and the deployer share the
-- store; the manager hands it to the part that it calls and takes it back.
--
-- The manager subscribes to the broker, on which the fetcher publishes; the model of the broker is the
-- channel between them, and the handlers of the manager take the event as an argument. The deployer
-- calls the executor through its deploy function, whose result is an argument of the end of a
-- deployment; the executor calls the profiles. The deletion of the profiles takes the paths that the
-- retention of the store leaves.
--
-- All recursion is over a list or a text, so there is no fuel. Numbers are natural numbers; no
-- arithmetic of the modelled code can overflow in practice (times, lengths of lists, capacities that
-- `New` checks to be at least one).
--
-- Parameters, for what the repository does not hold: the sort of Go's slices package (a permutation,
-- newest first, not stable), what go-git answers for references, logs, objects and remotes, the
-- decoders of YAML, JSON, PEM and of the SSH wire format, the parser of a public key, the checks of the
-- cryptographic libraries, which states protojson marshals, which lines fit the buffer of a scanner, the
-- files and commands of the host, and what a command prints.
--
-- Not modelled: in the executor the clone of a commit, the builds, each of which only runs a command,
-- and `List`; in internal/utils the machine id and the text of a commit message; the post deployment
-- command, which runs a process; and what only prints, serves or forwards (the other
-- commands of cmd, pkg/tui, pkg/client, the generated pkg/protobuf, the servers and the metrics).
pub mod Base
pub mod Types
pub mod Store
pub mod Confirmer
pub mod Fetcher
pub mod Repository
pub mod Builder
pub mod Deployer
pub mod Manager
pub mod Broker
pub mod Config
pub mod Executor
pub mod Profile
pub mod Samples
pub mod Startup
