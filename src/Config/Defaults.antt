-- ===== src/Config/Defaults.antt =====
-- What `Read` (internal/config/config.go) makes of a configuration file.
use text.Mathlib.TextLemmas.{cons≢nil, cons-append}
use comin.Base.{
  ℕ, ◌≡◌, ◌≢◌, refl, sym, subst, ◌∙◌, Bool, true, false, inl, inr, List, [], ◌∷◌, String, ◌==◌,
  eq_iff, str_append, nat_eq_iff, Result, ok, err, Bool-cases, All, arith, ◌>>=◌, if◌then◌else◌,
}
use comin.Base.Texts.Paths.{path_join, clean, clean_from}
use comin.Base.Texts.{has_prefix, split, join}
use mathlib.Core.List.{reverse}
use comin.Config.{
  RemoteConfig, HttpServer, Configuration, Files, text_or, number_or, fill_remote, access_token_of,
  fill_remotes, fill, is_supported_type, read,
}

pub record IsFilled (r : RemoteConfig) : Type 0 where
  pub has_username : r.auth.username ≢ ""
  pub has_timeout : r.timeout ≢ 0
  pub has_main_operation : r.branches.main.operation ≢ ""
  pub has_testing_operation : r.branches.testing.operation ≢ ""

abbrev pub IsServer : HttpServer → Type 0
IsServer s = (s.listen_address ≢ "") × (s.port ≢ 0)

-- Every setting that has a default is given, and the type of the repository is one of the two.
pub record IsComplete (c : Configuration) : Type 0 where
  pub all_filled : All IsFilled c.remotes
  pub has_api_server : IsServer c.api_server
  pub has_exporter : IsServer c.exporter
  pub has_state_filepath : c.state_filepath ≢ ""
  pub has_subdir : c.repository_subdir ≢ ""
  pub has_socket : c.unix_socket_path ≢ ""
  pub has_eval_timeout : c.eval_timeout ≢ 0
  pub has_build_timeout : c.build_timeout ≢ 0
  pub type_supported : is_supported_type c.repository_type ≡ true

text_or-given : (s default : String) → default ≢ "" → text_or s default ≢ ""
text_or-given s default h = ground (arith, eq_iff s "")

text_or-kept : (s default : String) → s ≢ "" → text_or s default ≡ s
text_or-kept s default h = ground (arith, eq_iff s "")

number_or-given : (n default : ℕ) → default ≢ 0 → number_or n default ≢ 0
number_or-given n default h = ground (arith, nat_eq_iff n 0)

number_or-kept : (n default : ℕ) → n ≢ 0 → number_or n default ≡ n
number_or-kept n default h = ground (arith, nat_eq_iff n 0)

cleaned :
    (rooted : Bool) (body : String)
    → (if rooted then str_append "/" body else if body == "" then "." else body) ≢ ""
cleaned true body e = cons≢nil (sym (cons-append "/" "" body) ∙ e)
cleaned false body e = text_or-given body "." cons≢nil e

clean-given : (p : String) → clean p ≢ ""
unfolding clean
clean-given p =
    cleaned (has_prefix p "/") (join (reverse (clean_from (has_prefix p "/") [] (split p "/"))) "/")

path_join-given : (a b : String) → b ≢ "" → path_join a b ≢ ""
unfolding path_join
path_join-given a b h = elim (Bool-cases (a == "")) [
  | inl no_front ↦ ground (arith, eq_iff b "", clean-given b)
  | inr front ↦ ground (arith, eq_iff b "", clean-given (str_append a (str_append "/" b)))
]

fill_remote-IsFilled : (r : RemoteConfig) (token : String) → IsFilled (fill_remote r token)
unfolding fill_remote
fill_remote-IsFilled r token = record {
  has_username = text_or-given r.auth.username "comin" cons≢nil;
  has_timeout = number_or-given r.timeout 300 (omega arith);
  has_main_operation = text_or-given r.branches.main.operation "switch" cons≢nil;
  has_testing_operation = text_or-given r.branches.testing.operation "test" cons≢nil;
}

pub before {ℓ κ} :
    {A : Type ℓ} {B : Type κ} (r : Result A) (next : A → Result B) (b : B)
    → r >>= next ≡ ok b
    → (a : A) × (r ≡ ok a) × (next a ≡ ok b)
before (ok a) next b h = (a, refl, h)
before (err e) next b h = absurd (ground arith)

fill_remotes-IsFilled :
    (files : Files) (l filled : List RemoteConfig)
    → fill_remotes files l ≡ ok filled
    → All IsFilled filled
unfolding fill_remotes
fill_remotes-IsFilled files [] filled h =
    let nothing : [] ≡ filled = ground arith in subst (All IsFilled) nothing tt
fill_remotes-IsFilled files (r ∷ rest) filled h =
    let (token, e₁, h₁) = before (access_token_of files r) _ filled h in
    let (others, e₂, h₂) = before (fill_remotes files rest) _ filled h₁ in
    let whole : fill_remote r token ∷ others ≡ filled = ground arith in
    subst (All IsFilled) whole
      (fill_remote-IsFilled r token, fill_remotes-IsFilled files rest others e₂)

fill-IsComplete :
    (c : Configuration) (remotes : List RemoteConfig)
    → All IsFilled remotes
    → is_supported_type c.repository_type ≡ true
    → IsComplete (fill c remotes)
unfolding fill
fill-IsComplete c remotes filled supported = record {
  all_filled = filled;
  has_api_server = (
    text_or-given c.api_server.listen_address "127.0.0.1" cons≢nil,
    number_or-given c.api_server.port 4242 (omega arith),
  );
  has_exporter = (
    text_or-given c.exporter.listen_address "0.0.0.0" cons≢nil,
    number_or-given c.exporter.port 4243 (omega arith),
  );
  has_state_filepath =
      text_or-given c.state_filepath (path_join c.state_dir "state.json")
        (path_join-given c.state_dir "state.json" cons≢nil);
  has_subdir = text_or-given c.repository_subdir "." cons≢nil;
  has_socket =
      text_or-given c.unix_socket_path (path_join c.state_dir "grpc.sock")
        (path_join-given c.state_dir "grpc.sock" cons≢nil);
  has_eval_timeout = number_or-given c.eval_timeout 1800 (omega arith);
  has_build_timeout = number_or-given c.build_timeout 1800 (omega arith);
  type_supported = supported;
}

-- A configuration that is read has every setting that has a default, and a repository of a supported
-- type; so no timeout is 0, and every remote has a user name and the operations of both branches.
pub read-IsComplete :
    (files : Files) (path : String) (c : Configuration) → read files path ≡ ok c → IsComplete c
unfolding read
read-IsComplete files path c h =
    let (d, e₁, h₁) = before (files.decode path) _ c h in
    let (remotes, e₂, h₂) = before (fill_remotes files d.remotes) _ c h₁ in
    elim (Bool-cases (is_supported_type d.repository_type)) [
      | inr u ↦ absurd (ground arith)
      | inl s ↦
          let whole : fill d remotes ≡ c = ground arith in
          subst IsComplete whole
            (fill-IsComplete d remotes (fill_remotes-IsFilled files d.remotes remotes e₂) s)
    ]

fill_remote-kept : (r : RemoteConfig) → IsFilled r → fill_remote r r.auth.access_token ≡ r
unfolding fill_remote
fill_remote-kept r f = simp (
  text_or-kept r.auth.username "comin" f.has_username,
  number_or-kept r.timeout 300 f.has_timeout,
  text_or-kept r.branches.main.operation "switch" f.has_main_operation,
  text_or-kept r.branches.testing.operation "test" f.has_testing_operation,
)

-- No token is read from a file.
abbrev pub HasNoTokenFile : RemoteConfig → Type 0
HasNoTokenFile r = r.auth.access_token_path ≡ ""

fill_remotes-kept :
    (files : Files) (l : List RemoteConfig)
    → All IsFilled l
    → All HasNoTokenFile l
    → fill_remotes files l ≡ ok l
unfolding fill_remotes access_token_of
fill_remotes-kept files [] _ _ = refl
fill_remotes-kept files (r ∷ rest) (f, filled) (n, no_files) =
    let token : access_token_of files r ≡ ok r.auth.access_token = rw n refl in
    simp (token, fill_remotes-kept files rest filled no_files, fill_remote-kept r f)

fill-kept : (c : Configuration) → IsComplete c → fill c c.remotes ≡ c
unfolding fill
fill-kept c f = simp (
  text_or-kept c.api_server.listen_address "127.0.0.1" f.has_api_server.0,
  number_or-kept c.api_server.port 4242 f.has_api_server.1,
  text_or-kept c.exporter.listen_address "0.0.0.0" f.has_exporter.0,
  number_or-kept c.exporter.port 4243 f.has_exporter.1,
  text_or-kept c.state_filepath (path_join c.state_dir "state.json") f.has_state_filepath,
  text_or-kept c.repository_subdir "." f.has_subdir,
  text_or-kept c.unix_socket_path (path_join c.state_dir "grpc.sock") f.has_socket,
  number_or-kept c.eval_timeout 1800 f.has_eval_timeout,
  number_or-kept c.build_timeout 1800 f.has_build_timeout,
)

-- What is given in full is read as it stands: no default replaces a setting.
pub read_of_complete :
    (files : Files) (path : String) (c : Configuration)
    → files.decode path ≡ ok c
    → IsComplete c
    → All HasNoTokenFile c.remotes
    → read files path ≡ ok c
unfolding read
read_of_complete files path c d f n =
    simp (d, fill_remotes-kept files c.remotes f.all_filled n, f.type_supported, fill-kept c f)
