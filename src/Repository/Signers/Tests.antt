-- ===== src/Repository/Signers/Tests.antt =====
-- Runs and witnesses of the reader of the allowed signers (internal/repository/git.go).
use comin.Base.{
  arith, eq_iff, ◌≡◌, ◌≢◌, refl, true, false, List, [], ◌∷◌, String, All, ok, err, if◌then◌else◌,
}
use comin.Base.Texts.{
  is_space, trim_left, trim_right, trim_space, has_prefix, drop_prefix, trim_prefix, ends_in,
  trim_last, contains, contains_any, split_from, split, join,
}
use comin.Base.Texts.Spaces.{has_space, begins_dark}
use comin.Repository.Signatures.{SshAllowedSigner}
use comin.Repository.Signers.{
  KeyParser, got, failed, on_line, unsupported_namespace, duplicate_namespaces,
  is_supported_ssh_pattern, parse_ssh_option_value, tokens_from, split_ssh_option_tokens,
  first_unsupported, checked_namespaces, options_loop, ssh_namespaces_from_options,
  ssh_principal_from_pattern_list, is_ssh_public_key_type, token_from, split_ssh_token,
  split_ssh_allowed_signers_rest, split_first_field, key_of, read_key, read_fields, read_signer,
  signers_loop, parse_ssh_allowed_signers,
}
use comin.Repository.Signers.Options.{namespaces_option, options-ssh_namespaces_from_options}
use comin.Repository.Signers.Lines.{SignerLine, key_text, behind, signer_line}
use comin.Repository.Signers.Fields.{written}
use comin.Repository.Signers.Sound.{IsAllowed, parse_ssh_allowed_signers-IsAllowed}

unfoldable reader : Unit {0}
unfolding is_space trim_left trim_right trim_space has_prefix drop_prefix trim_prefix ends_in
    trim_last contains contains_any split_from split join has_space begins_dark
    is_supported_ssh_pattern parse_ssh_option_value tokens_from split_ssh_option_tokens
    first_unsupported checked_namespaces options_loop ssh_namespaces_from_options
    ssh_principal_from_pattern_list is_ssh_public_key_type token_from split_ssh_token
    split_ssh_allowed_signers_rest split_first_field key_of read_key read_fields read_signer
    signers_loop parse_ssh_allowed_signers namespaces_option key_text behind signer_line
reader = tt

abbrev parser : KeyParser
parser text =
    if has_prefix text "ssh-ed25519 "
    then ok (record { key = text; certificate = false; options = []; rest = "" })
    else err "no key found"

abbrev alice : SignerLine
alice = record {
  principal = "alice@example.org";
  namespaces = "git" ∷ "file" ∷ [];
  key_type = "ssh-ed25519";
  key_blob = "AAAA alice";
}

abbrev bob : SignerLine
bob = record { principal = "bob"; namespaces = []; key_type = "ssh-ed25519"; key_blob = "BBBB" }

abbrev both : List SignerLine
both = alice ∷ bob ∷ []

abbrev signers : List SshAllowedSigner
signers = written alice "ssh-ed25519 AAAA alice" ∷ written bob "ssh-ed25519 BBBB" ∷ []

abbrev names : List String
names = "git" ∷ "file" ∷ []

abbrev file : String
file =
    "# signers\n\nalice@example.org namespaces=\"git,file\" ssh-ed25519 AAAA alice\nbob ssh-ed25519 BBBB\n"

file_is_read : parse_ssh_allowed_signers parser file ≡ got signers
unfolding reader
file_is_read = refl

namespace_is_refused :
    parse_ssh_allowed_signers parser "bob namespaces=\"gi?\" ssh-ed25519 BBBB"
    ≡ failed (on_line 1 (unsupported_namespace "gi?"))
unfolding reader
namespace_is_refused = refl

second_option_is_refused :
    ssh_namespaces_from_options "namespaces=\"git\",namespaces=\"file\""
    ≡ failed duplicate_namespaces
unfolding reader
second_option_is_refused = refl

names_are_read : ssh_namespaces_from_options "namespaces=\"git,file\"" ≡ got names
unfolding reader
names_are_read = refl

options-ssh_namespaces_from_options_example :
    ("namespaces=\"git,file\"" ≡ namespaces_option names)
    × All (λ n. is_supported_ssh_pattern n ≡ true) names
    × (names ≢ [])
options-ssh_namespaces_from_options_example =
    options-ssh_namespaces_from_options "namespaces=\"git,file\"" names
      (ground (arith, eq_iff "namespaces=\"git,file\"" "")) names_are_read

parse_ssh_allowed_signers-IsAllowed_example :
    (signers ≢ []) × All (IsAllowed parser (split file "\n")) signers
parse_ssh_allowed_signers-IsAllowed_example =
    parse_ssh_allowed_signers-IsAllowed parser file signers file_is_read
