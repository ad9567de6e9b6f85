-- ===== src/Config.antt =====
-- internal/config/config.go and the records of internal/types/types.go: the configuration file, with
-- the defaults that `Read` fills in. The decoder of YAML and the files are parameters. An `int` of
-- the configuration is only compared with 0, and a negative one is left out.
pub mod Defaults
pub mod Tokens
pub mod Tests
use comin.Base.{
  ℕ, Bool, true, false, not, ◌||◌, List, [], ◌∷◌, String, ◌==◌, str_append, nat_eq, Result, ok, err,
  ◌>>=◌, if◌then◌else◌,
}
use comin.Base.Texts.{trim_space}
use comin.Base.Texts.Paths.{path_join}

pub record Auth : Type 0 where
  pub access_token : String
  pub access_token_path : String
  pub ssh_deploy_key_path : String
  pub ssh_known_hosts_path : String
  pub username : String

pub record Branch : Type 0 where
  pub branch_name : String
  pub protected : Bool
  pub operation : String

pub record Branches : Type 0 where
  pub main : Branch
  pub testing : Branch

pub record RemoteConfig : Type 0 where
  pub remote_name : String
  pub url : String
  pub auth : Auth
  pub branches : Branches
  pub timeout : ℕ
  pub poller_period : ℕ

pub record HttpServer : Type 0 where
  pub listen_address : String
  pub port : ℕ

pub record ConfirmerConfig : Type 0 where
  pub mode : String
  pub auto_duration : ℕ

pub record RetentionConfig : Type 0 where
  pub deployment_boot_entry_capacity : ℕ
  pub deployment_successful_capacity : ℕ
  pub deployment_any_capacity : ℕ

pub record Configuration : Type 0 where
  pub hostname : String
  pub state_dir : String
  pub state_filepath : String
  pub repository_type : String
  pub repository_subdir : String
  pub submodules : Bool
  pub system_attr : String
  pub remotes : List RemoteConfig
  pub api_server : HttpServer
  pub unix_socket_path : String
  pub exporter : HttpServer
  pub gpg_public_key_paths : List String
  pub ssh_allowed_signers_path : String
  pub post_deployment_command : String
  pub build_confirmer : ConfirmerConfig
  pub deploy_confirmer : ConfirmerConfig
  pub retention_capacities : RetentionConfig
  pub eval_timeout : ℕ
  pub build_timeout : ℕ

pub record GitConfig : Type 0 where
  pub repository_path : String
  pub dir : String
  pub git_remotes : List RemoteConfig
  pub git_gpg_public_key_paths : List String
  pub git_ssh_allowed_signers_path : String
  pub git_submodules : Bool

-- The file system and the decoder.
pub record Files : Type 0 where
  pub decode : String → Result Configuration
  pub read_file : String → Result String

-- `if x == "" { x = … }` and `if x == 0 { x = … }`.
abbrev pub text_or : String → String → String
text_or s default = if s == "" then default else s

abbrev pub number_or : ℕ → ℕ → ℕ
number_or n default = if nat_eq n 0 then default else n

abbrev pub server_or : HttpServer → String → ℕ → HttpServer
server_or s address port = record {
  listen_address = text_or s.listen_address address;
  port = number_or s.port port;
}

abbrev pub branch_or : Branch → String → Branch
branch_or b operation = record b { operation = text_or b.operation operation }

-- The defaults of a remote, whose token is read before.
unfoldable pub fill_remote : RemoteConfig → String → RemoteConfig
fill_remote r token = record r {
  auth = record r.auth { access_token = token; username = text_or r.auth.username "comin" };
  timeout = number_or r.timeout 300;
  branches = record {
    main = branch_or r.branches.main "switch";
    testing = branch_or r.branches.testing "test";
  };
}

unfoldable pub access_token_of : Files → RemoteConfig → Result String
unfolding trim_space
access_token_of files r =
    if not (r.auth.access_token_path == "")
    then (files.read_file r.auth.access_token_path >>= λ content. ok (trim_space content))
    else ok r.auth.access_token

-- The loop over the remotes.
unfoldable pub fill_remotes : Files → List RemoteConfig → Result (List RemoteConfig)
unfolding fill_remote access_token_of
fill_remotes files [] = ok []
fill_remotes files (r ∷ rest) = access_token_of files r >>= λ token.
    fill_remotes files rest >>= λ others. ok (fill_remote r token ∷ others)

-- What stands behind the loop, on every branch but the error.
unfoldable pub fill : Configuration → List RemoteConfig → Configuration
unfolding path_join
fill c remotes = record c {
  remotes = remotes;
  api_server = server_or c.api_server "127.0.0.1" 4242;
  exporter = server_or c.exporter "0.0.0.0" 4243;
  state_filepath = text_or c.state_filepath (path_join c.state_dir "state.json");
  repository_subdir = text_or c.repository_subdir ".";
  unix_socket_path = text_or c.unix_socket_path (path_join c.state_dir "grpc.sock");
  eval_timeout = number_or c.eval_timeout 1800;
  build_timeout = number_or c.build_timeout 1800;
}

abbrev pub is_supported_type : String → Bool
is_supported_type t = t == "flake" || t == "nix"

unfoldable pub read : Files → String → Result Configuration
unfolding fill_remotes fill
read files path = files.decode path >>= λ config. fill_remotes files config.remotes >>= λ remotes.
    if not (is_supported_type config.repository_type)
    then err (
        str_append "config: repository type is '"
          (str_append config.repository_type "' while it be one of '[flake nix]'"))
    else ok (fill config remotes)

unfoldable pub mk_git_config : Configuration → GitConfig
unfolding path_join
mk_git_config config = record {
  repository_path = path_join config.state_dir "repository";
  dir = config.repository_subdir;
  git_remotes = config.remotes;
  git_gpg_public_key_paths = config.gpg_public_key_paths;
  git_ssh_allowed_signers_path = config.ssh_allowed_signers_path;
  git_submodules = config.submodules;
}
