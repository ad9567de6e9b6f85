-- ===== src/Repository/Signers/Fields.antt =====
-- `parseSSHAllowedSigners` (internal/repository/git.go) on one line whose fields it supports.
use Prim.Native.String.{◌∷◌ as push}
use text.Mathlib.TextLemmas.{cons-append, append_assoc, cons≢nil}
use comin.Base.{
  ◌≡◌, ◌≢◌, refl, sym, ap, ◌∙◌, true, false, List, [], ◌∷◌, String, ◌==◌, str_append, none, some,
  All, arith, ok,
}
use comin.Base.Texts.{is_space, has_prefix, contains, split, join, trim_right, trim_space}
use comin.Base.Texts.Cuts.{split-join}
use comin.Base.Texts.Spaces.{has_space, begins_dark, begins_dark-append, begins_dark-append}
use comin.Repository.Signatures.{SshAllowedSigner}
use comin.Repository.Signers.{
  KeyParser, got, split_first_field, is_supported_ssh_pattern, is_ssh_public_key_type,
  split_ssh_allowed_signers_rest, ssh_principal_from_pattern_list, ssh_namespaces_from_options,
  read_key, key_of, read_signer, read_fields, first_unsupported,
}
use comin.Repository.Signers.Lines.{
  SignerLine, behind, key_text, signer_line, split_first_field-append, split_ssh_token-plain,
  split_ssh_token-quoted,
}
use comin.Repository.Signers.Options.{namespaces_option}
use comin.Repository.Signers.Printed.{
  not_empty, inner_is_plain, ssh_namespaces_from_options-namespaces_option,
}

-- Fields that the file can hold: supported patterns, no character that ends a field, and a key that
-- the parser reads as `key`.
pub record IsWritable (parse : KeyParser) (s : SignerLine) (key : String) : Type 0 where
  pub supported : is_supported_ssh_pattern s.principal ≡ true
  pub one_field : has_space s.principal ≡ false
  pub one_principal : contains s.principal "," ≡ false
  pub no_comment : has_prefix s.principal "#" ≡ false
  pub names_supported : All (λ n. is_supported_ssh_pattern n ≡ true) s.namespaces
  pub names_apart : All (λ n. contains n "," ≡ false) s.namespaces
  pub names_plain : All (λ n. contains n "\\" ≡ false) s.namespaces
  pub type_is_known : is_ssh_public_key_type s.key_type ≡ true
  pub type_is_one : has_space s.key_type ≡ false
  pub type_is_plain : contains s.key_type "\"" ≡ false
  pub blob_begins : begins_dark s.key_blob ≡ true
  pub blob_ends : trim_right s.key_blob ≡ s.key_blob
  pub parsed :
      parse (key_text s) ≡ ok (record { key = key; certificate = false; options = []; rest = "" })
  pub one_line : contains (signer_line s) "\n" ≡ false

-- The signer that the line stands for.
abbrev pub written : SignerLine → String → SshAllowedSigner
written s key = record { principal = s.principal; key = key; namespaces = s.namespaces }

read_in_steps :
    (parse : KeyParser) (line field rest principal options input key : String)
    (namespaces : List String)
    → split_first_field line ≡ some (field, rest)
    → ssh_principal_from_pattern_list field ≡ got principal
    → split_ssh_allowed_signers_rest rest ≡ got (options, input)
    → ssh_namespaces_from_options options ≡ got namespaces
    → read_key parse input ≡ got key
    → read_signer parse line
      ≡ got (record { principal = principal; key = key; namespaces = namespaces })
unfolding read_signer read_fields
read_in_steps parse line field rest principal options input key namespaces e₁ e₂ e₃ e₄ e₅ =
    simp (e₁, e₂, e₃, e₄, e₅, read_signer, read_fields)

principal_alone :
    (p : String)
    → is_supported_ssh_pattern p ≡ true
    → contains p "," ≡ false
    → ssh_principal_from_pattern_list p ≡ got p
unfolding ssh_principal_from_pattern_list first_unsupported
principal_alone p good comma =
    let one : split p "," ≡ p ∷ [] = unfold join in split-join p [] "," (comma, tt) in
    let none_bad : first_unsupported (p ∷ []) ≡ none = rw good refl in
    simp (one, none_bad, ssh_principal_from_pattern_list)

pub type_of_key : (token : String) → is_ssh_public_key_type token ≡ true → token ≢ ""
type_of_key token known e =
    let unknown : is_ssh_public_key_type "" ≡ false =
      unfold is_ssh_public_key_type has_prefix in refl in
    absurd (ground (arith, ap is_ssh_public_key_type (sym e) ∙ known))

begins_dark-ne-nil : (s : String) → begins_dark s ≡ true → s ≢ ""
begins_dark-ne-nil s dark e =
    let not_dark : begins_dark "" ≡ false = unfold begins_dark in refl in
    absurd (ground (arith, ap begins_dark (sym e) ∙ dark))

key_in_front :
    (key_type blob : String)
    → is_ssh_public_key_type key_type ≡ true
    → has_space key_type ≡ false
    → contains key_type "\"" ≡ false
    → begins_dark blob ≡ true
    → split_ssh_allowed_signers_rest (str_append key_type (push " " blob))
      ≡ got ("", str_append key_type (push " " blob))
unfolding split_ssh_allowed_signers_rest
key_in_front key_type blob known one plain dark =
    let token = split_ssh_token-plain key_type blob plain one dark in
    let some_type : (key_type == "") ≡ false = not_empty key_type (type_of_key key_type known) in
    simp (token, some_type, known, split_ssh_allowed_signers_rest)

option_first :
    (n : String) (ns : List String) (key : String)
    → contains (join (n ∷ ns) ",") "\"" ≡ false
    → begins_dark key ≡ true
    → split_ssh_allowed_signers_rest (str_append (namespaces_option (n ∷ ns)) (push " " key))
      ≡ got (namespaces_option (n ∷ ns), key)
unfolding split_ssh_allowed_signers_rest namespaces_option
option_first n ns key h dark =
    let token = split_ssh_token-quoted (join (n ∷ ns) ",") key h dark in
    let some_key : (key == "") ≡ false = not_empty key (begins_dark-ne-nil key dark) in
    let value = str_append "\"" (str_append (join (n ∷ ns) ",") "\"") in
    let some_option : (str_append "namespaces=" value == "") ≡ false =
      not_empty (str_append "namespaces=" value)
        (λ e. cons≢nil (sym (cons-append "n" "amespaces=" value) ∙ e)) in
    let no_type : is_ssh_public_key_type (str_append "namespaces=" value) ≡ false =
      ap is_ssh_public_key_type (cons-append "n" "amespaces=" value)
      ∙ unfold is_ssh_public_key_type has_prefix in refl in
    simp (token, some_key, some_option, no_type, split_ssh_allowed_signers_rest)

key_is_read :
    (parse : KeyParser) (input key : String)
    → parse input ≡ ok (record { key = key; certificate = false; options = []; rest = "" })
    → read_key parse input ≡ got key
unfolding read_key key_of
key_is_read parse input key h = simp (h, read_key, key_of, trim_space)

-- What stands behind the principal begins in no space.
pub behind-begins_dark :
    (l : List String) (key : String) → begins_dark key ≡ true → begins_dark (behind l key) ≡ true
unfolding behind namespaces_option
behind-begins_dark [] key dark = dark
behind-begins_dark (n ∷ ns) key dark =
    let value = str_append "\"" (str_append (join (n ∷ ns) ",") "\"") in
    ap begins_dark (
      append_assoc "namespaces=" value (push " " key)
      ∙ cons-append "n" "amespaces=" (str_append value (push " " key)))
    ∙ unfold begins_dark is_space in refl

-- It is read as the namespaces and the key.
behind_is_read :
    (l : List String) (key_type blob : String)
    → is_ssh_public_key_type key_type ≡ true
    → has_space key_type ≡ false
    → contains key_type "\"" ≡ false
    → begins_dark blob ≡ true
    → All (λ n. is_supported_ssh_pattern n ≡ true) l
    → All (λ n. contains n "," ≡ false) l
    → All (λ n. contains n "\\" ≡ false) l
    → (options : String) × (split_ssh_allowed_signers_rest
          (behind l (str_append key_type (push " " blob)))
        ≡ got (options, str_append key_type (push " " blob)))
      × (ssh_namespaces_from_options options ≡ got l)
unfolding behind
behind_is_read [] key_type blob known one plain dark _ _ _ = (
  "",
  key_in_front key_type blob known one plain dark,
  unfold ssh_namespaces_from_options in refl,
)
behind_is_read (n ∷ ns) key_type blob known one plain dark good apart slash =
    let key = str_append key_type (push " " blob) in
    (
      namespaces_option (n ∷ ns),
      option_first n ns key (inner_is_plain (n ∷ ns) good)
          (begins_dark-append key_type (push " " blob) (type_of_key key_type known) one),
      ssh_namespaces_from_options-namespaces_option n ns good apart slash,
    )

pub read_signer-signer_line :
    (parse : KeyParser) (s : SignerLine) (key : String)
    → IsWritable parse s key
    → read_signer parse (signer_line s) ≡ got (written s key)
unfolding signer_line key_text
read_signer-signer_line parse s key w =
    let rest = behind s.namespaces (key_text s) in
    let (options, cut, named) =
      behind_is_read s.namespaces s.key_type s.key_blob w.type_is_known w.type_is_one
        w.type_is_plain w.blob_begins w.names_supported w.names_apart w.names_plain in
    let fields = split_first_field-append s.principal rest w.one_field (
      behind-begins_dark s.namespaces (key_text s) (
        begins_dark-append s.key_type (push " " s.key_blob) (type_of_key s.key_type w.type_is_known)
          w.type_is_one)) in
    read_in_steps parse (signer_line s) s.principal rest s.principal options (key_text s) key
      s.namespaces fields (principal_alone s.principal w.supported w.one_principal) cut named
      (key_is_read parse (key_text s) key w.parsed)
