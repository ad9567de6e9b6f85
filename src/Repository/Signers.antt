-- ===== src/Repository/Signers.antt =====
-- internal/repository/git.go, `parseSSHAllowedSigners` and what it calls: the lines of the file of
-- the allowed signers, with each error as a value. The parser of a public key is a parameter.
pub mod Tokens
pub mod Options
pub mod Printed
pub mod Lines
pub mod Fields
pub mod RoundTrip
pub mod Located
pub mod Sound
mod Tests
use Prim.Native.Char.{Char}
use Prim.Native.String.{[] as empty, ◌∷◌ as push}
use comin.Base.{
  ◌≡◌, refl, arith, ℕ, ◌+◌, Bool, true, false, not, ◌&&◌, ◌||◌, Option, none, some, List, [], ◌∷◌,
  String, ◌==◌, str_append, Result, ok, err, if◌then◌else◌,
}
use comin.Base.Texts.{
  same, is_space, is_blank, trim_left, trim_space, has_prefix, trim_prefix, ends_in, trim_last,
  contains, contains_any, split,
}
use comin.Repository.Signatures.{SshAllowedSigner}

pub data SignerError : Type 0 where
  unreadable missing_key unterminated_quote duplicate_namespaces : SignerError
  trailing_data is_certificate no_signers : SignerError
  unsupported_principal unsupported_namespace unsupported_option invalid_key : String → SignerError
  on_line : ℕ → SignerError → SignerError

pub data Reading {ℓ} (A : Type ℓ) : Type ℓ where
  got : A → Reading A
  failed : SignerError → Reading A

infixl 5 ◌>>=◌
abbrev pub ◌>>=◌ {ℓ κ} : {A : Type ℓ} {B : Type κ} → Reading A → (A → Reading B) → Reading B
got value >>= next = next value
failed e >>= next = failed e

-- A chain that ends well has had a value at its first step.
pub got_before {ℓ κ} :
    {A : Type ℓ} {B : Type κ} (r : Reading A) (next : A → Reading B) (b : B)
    → r >>= next ≡ got b
    → (a : A) × (r ≡ got a) × (next a ≡ got b)
got_before (got a) next b h = (a, refl, h)
got_before (failed e) next b h = absurd (ground arith)

-- What `ParseAuthorizedKey` of the package ssh tells of a line, the comment left out.
pub record AuthorizedKey : Type 0 where
  pub key : String
  pub certificate : Bool
  pub options : List String
  pub rest : String

abbrev pub KeyParser : Type 0
KeyParser = String → Result AuthorizedKey

unfoldable pub is_supported_ssh_pattern : String → Bool
unfolding trim_space contains_any
is_supported_ssh_pattern pattern =
    not (pattern == "")
    && pattern == trim_space pattern
    && (pattern == "*" || not (contains_any pattern "*?!\"'"))

unfoldable pub parse_ssh_option_value : String → Reading String
unfolding has_prefix ends_in contains trim_prefix trim_last
parse_ssh_option_value value =
    if not (has_prefix value "\"") || not (ends_in value "\"") || contains value "\\"
    then failed (unsupported_namespace value)
    else got (trim_last (trim_prefix value "\"") "\"")

-- The loop of `splitSSHOptionTokens`: the quote's state, the token that is read, the rest.
unfoldable pub tokens_from : Bool → String → String → Reading (List String)
tokens_from in_quote token String.[] =
    if in_quote
    then failed unterminated_quote
    else if token == ""
    then failed (unsupported_option token)
    else got (token ∷ [])
tokens_from in_quote token (String.◌∷◌ c s) =
    let quoted = tokens_from (not in_quote) (str_append token (push c empty)) s in
    let longer = tokens_from in_quote (str_append token (push c empty)) s in
    let closed = tokens_from in_quote "" s in
    if same c "\""
    then quoted
    else if same c "," && not in_quote
    then (if token == ""
        then failed (unsupported_option token)
        else (closed >>= λ tokens. got (token ∷ tokens)))
    else longer

unfoldable pub split_ssh_option_tokens : String → Reading (List String)
unfolding tokens_from
split_ssh_option_tokens options = tokens_from false "" options

-- The first pattern of a list that `isSupportedSSHPattern` refuses.
unfoldable pub first_unsupported : List String → Option String
unfolding is_supported_ssh_pattern
first_unsupported [] = none
first_unsupported (p ∷ ps) =
    if not (is_supported_ssh_pattern p) then some p else first_unsupported ps

unfoldable pub checked_namespaces : List String → Reading (List String)
unfolding first_unsupported
checked_namespaces namespaces = elim (first_unsupported namespaces) [
  | some namespace ↦ failed (unsupported_namespace namespace)
  | none ↦ got namespaces
]

-- The loop of `sshNamespacesFromOptions`.
unfoldable pub options_loop : Bool → List String → List String → Reading (List String)
unfolding parse_ssh_option_value checked_namespaces split has_prefix trim_prefix
options_loop seen namespaces [] = got namespaces
options_loop seen namespaces (option ∷ rest) =
    let next : List String → Reading (List String) = λ found. options_loop true found rest in
    if has_prefix option "namespaces="
    then (if seen
        then failed duplicate_namespaces
        else (parse_ssh_option_value (trim_prefix option "namespaces=") >>= λ value.
            checked_namespaces (split value ",") >>= next))
    else failed (unsupported_option option)

unfoldable pub ssh_namespaces_from_options : String → Reading (List String)
unfolding split_ssh_option_tokens options_loop
ssh_namespaces_from_options options =
    if options == ""
    then got []
    else (split_ssh_option_tokens options >>= λ tokens. options_loop false [] tokens)

abbrev pub head : List String → String
head [] = ""
head (p ∷ ps) = p

unfoldable pub ssh_principal_from_pattern_list : String → Reading String
unfolding first_unsupported split
ssh_principal_from_pattern_list patterns = elim (first_unsupported (split patterns ",")) [
  | some p ↦ failed (unsupported_principal p)
  | none ↦ got (head (split patterns ","))
]

unfoldable pub is_ssh_public_key_type : String → Bool
unfolding has_prefix
is_ssh_public_key_type token =
    has_prefix token "ssh-" || has_prefix token "ecdsa-" || has_prefix token "sk-"

abbrev pub more : Char → Reading (String × String) → Reading (String × String)
more c r = r >>= λ (token, rest). got (push c token, rest)

-- The loop of `splitSSHToken`: the token and what follows it.
unfoldable pub token_from : Bool → String → Reading (String × String)
unfolding is_space trim_left
token_from in_quote String.[] = if in_quote then failed unterminated_quote else got ("", "")
token_from in_quote (String.◌∷◌ c s) =
    let quoted = token_from (not in_quote) s in
    let longer = token_from in_quote s in
    if same c "\""
    then more c quoted
    else if is_space c && not in_quote
    then got ("", trim_left (push c s))
    else more c longer

unfoldable pub split_ssh_token : String → Reading (String × String)
unfolding token_from
split_ssh_token s = token_from false s

unfoldable pub split_ssh_allowed_signers_rest : String → Reading (String × String)
unfolding split_ssh_token is_ssh_public_key_type
split_ssh_allowed_signers_rest rest = split_ssh_token rest >>= λ (first, remaining).
    if first == ""
    then failed missing_key
    else if is_ssh_public_key_type first
    then got ("", rest)
    else if remaining == ""
    then failed missing_key
    else got (first, remaining)

abbrev pub further : Char → Option (String × String) → Option (String × String)
further c none = none
further c (some (field, rest)) = some (push c field, rest)

unfoldable pub split_first_field : String → Option (String × String)
unfolding is_space trim_left
split_first_field String.[] = none
split_first_field (String.◌∷◌ c s) =
    let rest = split_first_field s in
    if is_space c then some ("", trim_left (push c s)) else further c rest

-- What `parseSSHAllowedSigners` asks of the key, by its options.
unfoldable pub key_of : List String → AuthorizedKey → Reading String
unfolding trim_space
key_of (option ∷ rest) k = failed (unsupported_option option)
key_of [] k =
    if not (trim_space k.rest == "")
    then failed trailing_data
    else if k.certificate
    then failed is_certificate
    else got k.key

abbrev pub some_signers : List SshAllowedSigner → Reading (List SshAllowedSigner)
some_signers [] = failed no_signers
some_signers (s ∷ ss) = got (s ∷ ss)

abbrev pub at_line {ℓ} : {A : Type ℓ} → ℕ → Reading A → Reading A
at_line n (got a) = got a
at_line n (failed e) = failed (on_line (n + 1) e)

module _ (parse_authorized_key : KeyParser) where
  unfoldable pub read_key : String → Reading String
  unfolding key_of
  read_key input = elim (parse_authorized_key input) [
    | err e ↦ failed (invalid_key e)
    | ok k ↦ key_of k.options k
  ]

  unfoldable pub read_fields : String → String → Reading SshAllowedSigner
  unfolding ssh_principal_from_pattern_list split_ssh_allowed_signers_rest
      ssh_namespaces_from_options read_key
  read_fields principal_field rest =
      ssh_principal_from_pattern_list principal_field >>= λ principal.
      split_ssh_allowed_signers_rest rest >>= λ (options, key_input).
      ssh_namespaces_from_options options >>= λ namespaces. read_key key_input >>= λ key.
      got (record { principal = principal; key = key; namespaces = namespaces })

  -- The body of the loop, on a line that is neither blank nor a comment.
  unfoldable pub read_signer : String → Reading SshAllowedSigner
  unfolding split_first_field read_fields
  read_signer line = elim (split_first_field line) [
    | none ↦ failed unreadable
    | some (principal_field, rest) ↦ read_fields principal_field rest
  ]

  unfoldable pub signers_loop : ℕ → List String → Reading (List SshAllowedSigner)
  unfolding read_signer trim_space has_prefix
  signers_loop line_number [] = got []
  signers_loop line_number (text ∷ rest) =
      let line = trim_space text in
      let others = signers_loop (line_number + 1) rest in
      if line == "" || has_prefix line "#"
      then others
      else (at_line line_number (read_signer line) >>= λ signer.
          others >>= λ signers. got (signer ∷ signers))

  unfoldable pub parse_ssh_allowed_signers : String → Reading (List SshAllowedSigner)
  unfolding signers_loop split
  parse_ssh_allowed_signers allowed_signers =
      signers_loop 0 (split allowed_signers "\n") >>= some_signers
