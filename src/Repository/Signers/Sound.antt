-- ===== src/Repository/Signers/Sound.antt =====
-- `parseSSHAllowedSigners` (internal/repository/git.go): what holds of each signer that is read.
use mathlib.Core.Logic.{◌≢◌}
use mathlib.Core.List.{Memᴰ}
use comin.Base.{
  ◌≡◌, refl, sym, ap, subst, ◌∙◌, ℕ, ◌+◌, true, false, ◌||◌, inl, inr, List, [], ◌∷◌, String, ◌==◌,
  eq_iff, All-mono, Option-cases, Bool-cases, Result-cases, All, arith, ok,
}
use comin.Base.Texts.{has_prefix, split, trim_space}
use comin.Base.Texts.Cuts.{split-ne-nil}
use comin.Repository.Signatures.{SshAllowedSigner}
use comin.Repository.Signers.{
  KeyParser, some_signers, head, key_of, AuthorizedKey, Reading, got, failed, got_before, ◌>>=◌,
  at_line, split_first_field, is_supported_ssh_pattern, split_ssh_allowed_signers_rest,
  ssh_principal_from_pattern_list, ssh_namespaces_from_options, read_key, read_signer, read_fields,
  first_unsupported, signers_loop, parse_ssh_allowed_signers,
}
use comin.Repository.Signers.Located.{IsEnd, split_first_field-IsEnd, split_rest-IsEnd}
use comin.Repository.Signers.Options.{first_unsupported-All, options-ssh_namespaces_from_options}

-- The key of a signer: what the parser of the package ssh reads, with no option, no further data,
-- and no certificate.
pub record HasKey (parse : KeyParser) (input key : String) : Type 0 where
  pub authorized : AuthorizedKey
  pub parsed : parse input ≡ ok authorized
  pub same_key : authorized.key ≡ key
  pub no_option : authorized.options ≡ []
  pub no_rest : (trim_space authorized.rest == "") ≡ true
  pub no_certificate : authorized.certificate ≡ false

-- A signer that is read from a line: its key is read from an end of the line.
pub record IsSigner (parse : KeyParser) (line : String) (s : SshAllowedSigner) : Type 0 where
  pub rest : String
  pub input : String
  pub rest_of_line : IsEnd rest line
  pub input_of_rest : IsEnd input rest
  pub principal_supported : is_supported_ssh_pattern s.principal ≡ true
  pub names_supported : All (λ n. is_supported_ssh_pattern n ≡ true) s.namespaces
  pub has_key : HasKey parse input s.key

pub record IsAllowed (parse : KeyParser) (lines : List String) (s : SshAllowedSigner) : Type 0 where
  pub line : String
  pub of_file : Memᴰ line lines
  pub is_signer : IsSigner parse (trim_space line) s

key_of-facts :
    (options : List String) (k : AuthorizedKey) (key : String)
    → key_of options k ≡ got key
    → (options ≡ []) × ((trim_space k.rest == "") ≡ true) × (k.certificate ≡ false) × (k.key ≡ key)
unfolding key_of
key_of-facts (o ∷ os) k key h = absurd (ground arith)
key_of-facts [] k key h = elim (Bool-cases (trim_space k.rest == "")) [
  | inr t ↦ absurd (ground arith)
  | inl t ↦ elim (Bool-cases k.certificate) [
    | inl c ↦ absurd (ground arith)
    | inr c ↦ (refl, t, c, ground arith)
  ]
]

read_key-HasKey :
    (parse : KeyParser) (input key : String)
    → read_key parse input ≡ got key
    → HasKey parse input key
unfolding read_key
read_key-HasKey parse input key h = elim (Result-cases (parse input)) [
  | inr (e, f) ↦ absurd (ground arith)
  | inl (k, f) ↦
      let (no_option, no_rest, no_certificate, same_key) =
        key_of-facts k.options k key (ground arith) in
      record {
        authorized = k;
        parsed = f;
        same_key = same_key;
        no_option = no_option;
        no_rest = no_rest;
        no_certificate = no_certificate;
      }
]

head_is_supported :
    (p : String) (patterns : List String)
    → patterns ≢ []
    → All (λ q. is_supported_ssh_pattern q ≡ true) patterns
    → head patterns ≡ p
    → is_supported_ssh_pattern p ≡ true
head_is_supported p [] some_left good h = absurd (some_left refl)
head_is_supported p (q ∷ qs) some_left (good, _) h = ap is_supported_ssh_pattern (sym h) ∙ good

principal_is_supported :
    (patterns principal : String)
    → ssh_principal_from_pattern_list patterns ≡ got principal
    → is_supported_ssh_pattern principal ≡ true
unfolding ssh_principal_from_pattern_list
principal_is_supported patterns principal h =
    elim (Option-cases (first_unsupported (split patterns ","))) [
      | inr (p, f) ↦ absurd (ground arith)
      | inl f ↦
          head_is_supported principal (split patterns ",") (split-ne-nil patterns ",")
            (first_unsupported-All (split patterns ",") f) (ground arith)
    ]

names_are_supported :
    (options : String) (namespaces : List String)
    → ssh_namespaces_from_options options ≡ got namespaces
    → All (λ n. is_supported_ssh_pattern n ≡ true) namespaces
names_are_supported options namespaces h = elim (Bool-cases (options == "")) [
  | inl blank ↦
      let nothing : [] ≡ namespaces = unfold ssh_namespaces_from_options in ground arith in
      subst (All (λ n. is_supported_ssh_pattern n ≡ true)) nothing tt
  | inr some_options ↦
      (options-ssh_namespaces_from_options options namespaces (ground (arith, eq_iff options ""))
        h).1
]

read_fields-IsSigner :
    (parse : KeyParser) (line field rest : String) (s : SshAllowedSigner)
    → IsEnd rest line
    → read_fields parse field rest ≡ got s
    → IsSigner parse line s
unfolding read_fields
read_fields-IsSigner parse line field rest s cut h =
    let (principal, e₁, h₁) = got_before (ssh_principal_from_pattern_list field) _ s h in
    let ((options, input), e₂, h₂) = got_before (split_ssh_allowed_signers_rest rest) _ s h₁ in
    let (namespaces, e₃, h₃) = got_before (ssh_namespaces_from_options options) _ s h₂ in
    let (key, e₄, h₄) = got_before (read_key parse input) _ s h₃ in
    let signer : SshAllowedSigner = record {
      principal = principal;
      key = key;
      namespaces = namespaces;
    } in
    let whole : signer ≡ s = ground arith in
    subst (IsSigner parse line) whole (record {
      rest = rest;
      input = input;
      rest_of_line = cut;
      input_of_rest = split_rest-IsEnd rest options input e₂;
      principal_supported = principal_is_supported field principal e₁;
      names_supported = names_are_supported options namespaces e₃;
      has_key = read_key-HasKey parse input key e₄;
    })

read_signer-IsSigner :
    (parse : KeyParser) (line : String) (s : SshAllowedSigner)
    → read_signer parse line ≡ got s
    → IsSigner parse line s
unfolding read_signer
read_signer-IsSigner parse line s h = elim (Option-cases (split_first_field line)) [
  | inl none_read ↦ absurd (ground arith)
  | inr ((field, rest), cut) ↦
      read_fields-IsSigner parse line field rest s (split_first_field-IsEnd line field rest cut)
        (ground arith)
]

at_line-got :
    (n : ℕ) (r : Reading SshAllowedSigner) (s : SshAllowedSigner) → at_line n r ≡ got s → r ≡ got s
at_line-got n (got a) s h = h
at_line-got n (failed e) s h = absurd (ground arith)

below :
    (parse : KeyParser) (text : String) (lines : List String) (signers : List SshAllowedSigner)
    → All (IsAllowed parse lines) signers
    → All (IsAllowed parse (text ∷ lines)) signers
below parse text lines signers h =
    All-mono
      (λ s a. record { line = a.line; of_file = Memᴰ.tail a.of_file; is_signer = a.is_signer })
      signers h

signers_loop-IsAllowed :
    (parse : KeyParser) (n : ℕ) (lines : List String) (signers : List SshAllowedSigner)
    → signers_loop parse n lines ≡ got signers
    → All (IsAllowed parse lines) signers
unfolding signers_loop
signers_loop-IsAllowed parse n [] signers h =
    let nothing : [] ≡ signers = ground arith in subst (All (IsAllowed parse [])) nothing tt
signers_loop-IsAllowed parse n (text ∷ rest) signers h =
    let line = trim_space text in
    elim (Bool-cases (line == "" || has_prefix line "#")) [
      | inl skipped ↦
          below parse text rest signers
            (signers_loop-IsAllowed parse (n + 1) rest signers (ground arith))
      | inr one ↦
          let chain : (at_line n (read_signer parse line) >>= λ s.
          signers_loop parse (n + 1) rest >>= λ others. got (s ∷ others))
              ≡ got signers =
            ground arith in
          let (s, e₁, h₁) = got_before (at_line n (read_signer parse line)) _ signers chain in
          let (others, e₂, h₂) = got_before (signers_loop parse (n + 1) rest) _ signers h₁ in
          let all : s ∷ others ≡ signers = ground arith in
          subst (All (IsAllowed parse (text ∷ rest))) all (
            record {
              line = text;
              of_file = Memᴰ.head refl;
              is_signer =
                  read_signer-IsSigner parse line s (at_line-got n (read_signer parse line) s e₁);
            },
            below parse text rest others (signers_loop-IsAllowed parse (n + 1) rest others e₂),
          )
    ]

accepted_list :
    (found signers : List SshAllowedSigner)
    → some_signers found ≡ got signers
    → (signers ≢ []) × (found ≡ signers)
accepted_list [] signers h = absurd (ground arith)
accepted_list (s ∷ ss) signers h = (ground arith, ground arith)

-- Every signer that is read from a file has a supported principal, supported namespaces, and a key
-- that the parser of the package ssh reads from an end of one of the lines of the file, trimmed, with no
-- option, no further data and no certificate; and a file is accepted only if it has a signer.
pub parse_ssh_allowed_signers-IsAllowed :
    (parse : KeyParser) (allowed_signers : String) (signers : List SshAllowedSigner)
    → parse_ssh_allowed_signers parse allowed_signers ≡ got signers
    → (signers ≢ []) × All (IsAllowed parse (split allowed_signers "\n")) signers
unfolding parse_ssh_allowed_signers
parse_ssh_allowed_signers-IsAllowed parse text signers h =
    let (found, e, h₁) = got_before (signers_loop parse 0 (split text "\n")) _ signers h in
    let (some_left, same_list) = accepted_list found signers h₁ in
    (
      some_left,
      subst (All (IsAllowed parse (split text "\n"))) same_list
          (signers_loop-IsAllowed parse 0 (split text "\n") found e),
    )
