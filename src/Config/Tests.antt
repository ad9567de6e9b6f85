-- ===== src/Config/Tests.antt =====
-- Runs and witnesses of the configuration (internal/config/config.go).
use comin.Base.{◌≡◌, refl, false, [], ◌∷◌, ◌==◌, ok, err, if◌then◌else◌}
use comin.Base.Texts.{
  is_space, trim_left, trim_right, trim_space, has_prefix, split_from, split, join,
}
use comin.Base.Texts.Paths.{clean, path_join}
use comin.Config.{
  RemoteConfig, Configuration, Files, fill_remote, access_token_of, fill_remotes, fill, read,
  mk_git_config,
}
use comin.Config.Defaults.{IsComplete, read-IsComplete}

unfoldable reader : Unit {0}
unfolding is_space trim_left trim_right trim_space has_prefix split_from split join clean path_join
    fill_remote access_token_of fill_remotes fill read mk_git_config
reader = tt

abbrev origin : RemoteConfig
origin = record {
  remote_name = "origin";
  url = "https://example.org/config";
  auth = record {
    access_token = "";
    access_token_path = "";
    ssh_deploy_key_path = "";
    ssh_known_hosts_path = "";
    username = "";
  };
  branches = record {
    main = record { branch_name = "main"; protected = false; operation = "" };
    testing = record { branch_name = "testing"; protected = false; operation = "" };
  };
  timeout = 0;
  poller_period = 60;
}

abbrev minimal : Configuration
minimal = record {
  hostname = "host";
  state_dir = "/var/lib/comin/";
  state_filepath = "";
  repository_type = "flake";
  repository_subdir = "";
  submodules = false;
  system_attr = "nixosConfigurations";
  remotes = origin ∷ [];
  api_server = record { listen_address = ""; port = 0 };
  unix_socket_path = "";
  exporter = record { listen_address = ""; port = 0 };
  gpg_public_key_paths = [];
  ssh_allowed_signers_path = "";
  post_deployment_command = "";
  build_confirmer = record { mode = "without"; auto_duration = 0 };
  deploy_confirmer = record { mode = "without"; auto_duration = 0 };
  retention_capacities = record {
    deployment_boot_entry_capacity = 3;
    deployment_successful_capacity = 5;
    deployment_any_capacity = 10;
  };
  eval_timeout = 0;
  build_timeout = 0;
}

abbrev private_remote : RemoteConfig
private_remote = record origin { auth = record origin.auth { access_token_path = "/run/token" } }

abbrev private : Configuration
private = record minimal { remotes = private_remote ∷ [] }

-- What is read from the minimal configuration.
abbrev filled_remote : RemoteConfig
filled_remote = record origin {
  auth = record origin.auth { username = "comin" };
  branches = record {
    main = record origin.branches.main { operation = "switch" };
    testing = record origin.branches.testing { operation = "test" };
  };
  timeout = 300;
}

abbrev pub filled : Configuration
filled = record minimal {
  state_filepath = "/var/lib/comin/state.json";
  repository_subdir = ".";
  remotes = filled_remote ∷ [];
  api_server = record { listen_address = "127.0.0.1"; port = 4242 };
  unix_socket_path = "/var/lib/comin/grpc.sock";
  exporter = record { listen_address = "0.0.0.0"; port = 4243 };
  eval_timeout = 1800;
  build_timeout = 1800;
}

abbrev pub files : Files
files = record {
  decode = λ path.
      if path == "private.yaml"
      then ok private
      else if path == "minimal.yaml"
      then ok minimal
      else if path == "filled.yaml"
      then ok filled
      else err "no such file";
  read_file = λ path. err "permission denied";
}

pub minimal_is_read : read files "minimal.yaml" ≡ ok filled
unfolding reader
minimal_is_read = refl

repository_is_below : (mk_git_config filled).repository_path ≡ "/var/lib/comin/repository"
unfolding reader
repository_is_below = refl

filled-IsComplete : IsComplete filled
filled-IsComplete = read-IsComplete files "minimal.yaml" filled minimal_is_read

read-IsComplete_example : IsComplete filled
read-IsComplete_example = read-IsComplete files "minimal.yaml" filled minimal_is_read
