-- ===== src/Repository/Signers/Printed.antt =====
-- `sshNamespacesFromOptions` and `splitSSHToken` (internal/repository/git.go) on an option and a
-- token that are written as ssh-keygen asks.
use Prim.Native.String.{[] as empty, ◌∷◌ as push}
use text.Mathlib.TextLemmas.{
  nil-append, cons-append, append_assoc, append-nil, concat-ne-nil, append-ne-nil_of_right_ne-nil,
}
use comin.Base.{
  ◌≡◌, ◌≢◌, refl, sym, ap, ◌∙◌, Bool, true, false, not, ◌&&◌, inl, inr, List, [], ◌∷◌, String, ◌==◌,
  str_append, eq_iff, none, Bool-cases, All, All-mono, arith,
}
use comin.Base.Texts.{has_prefix, trim_prefix, ends_in, trim_last, contains, split, join}
use comin.Base.Texts.Cuts.{split-join, append_one}
use comin.Base.Texts.Ends.{trim_prefix-append, has_prefix-append, ends_in-append, trim_last-append}
use comin.Base.Texts.Spaces.{contains_any-contains, contains-append, contains-join}
use comin.Repository.Signers.{
  Reading, got, ◌>>=◌, first_unsupported, is_supported_ssh_pattern, checked_namespaces,
  parse_ssh_option_value, options_loop, ssh_namespaces_from_options, split_ssh_option_tokens,
  tokens_from,
}
use comin.Repository.Signers.Tokens.{tokens_from-quote, tokens_from-other}
use comin.Repository.Signers.Options.{namespaces_option, quote-append}

-- Inside a token: a text without an end of the token is read into it.
tokens_from-plain :
    (in_quote : Bool) (p s token : String)
    → contains p "\"" ≡ false
    → (contains p "," && not in_quote) ≡ false
    → tokens_from in_quote token (str_append p s) ≡ tokens_from in_quote (str_append token p) s
unfolding contains
tokens_from-plain in_quote String.[] s token h k = rw (append-nil, nil-append) refl
tokens_from-plain in_quote (String.◌∷◌ c p) s token h k =
    ap (tokens_from in_quote token) (cons-append c p s)
    ∙ tokens_from-other in_quote token c (str_append p s) (ground arith) (ground arith)
    ∙ tokens_from-plain in_quote p s (str_append token (push c empty)) (ground arith) (ground arith)
    ∙ ap (λ t. tokens_from in_quote t s) (append_one token p c)

pub not_empty : (s : String) → s ≢ "" → (s == "") ≡ false
not_empty s h = ground (arith, eq_iff s "")

closed_is_read : (token : String) → tokens_from true token "\"" ≡ got (str_append token "\"" ∷ [])
closed_is_read token =
    let some_token : (str_append token "\"" == "") ≡ false =
      not_empty (str_append token "\"") (concat-ne-nil "\"" token) in
    tokens_from-quote true token "\"" "" refl ∙ unfold tokens_from in rw some_token refl

-- One option whose value stands between quotes is one token.
pub split_ssh_option_tokens-quoted :
    (inner : String)
    → contains inner "\"" ≡ false
    → split_ssh_option_tokens (str_append "namespaces=" (str_append "\"" (str_append inner "\"")))
      ≡ got (str_append "namespaces=" (str_append "\"" (str_append inner "\"")) ∷ [])
unfolding split_ssh_option_tokens contains
split_ssh_option_tokens-quoted inner h =
    let value = str_append inner "\"" in
    tokens_from-plain false "namespaces=" (str_append "\"" value) "" refl refl
    ∙ ap (tokens_from false "namespaces=") (quote-append value)
    ∙ tokens_from-quote false "namespaces=" "\"" value refl
    ∙ tokens_from-plain true inner "\"" "namespaces=\"" h (ground arith)
    ∙ closed_is_read (str_append "namespaces=\"" inner)
    ∙ ap (λ t. got (t ∷ []))
        (append_assoc "namespaces=\"" inner "\"" ∙ append_assoc "namespaces=" "\"" value)

accepted :
    (value : String)
    → has_prefix value "\"" ≡ true
    → ends_in value "\"" ≡ true
    → contains value "\\" ≡ false
    → parse_ssh_option_value value ≡ got (trim_last (trim_prefix value "\"") "\"")
unfolding parse_ssh_option_value
accepted value front back plain = rw (front, back, plain) refl

-- A value between quotes is read without them.
parse_ssh_option_value-quoted :
    (inner : String)
    → contains inner "\\" ≡ false
    → parse_ssh_option_value (str_append "\"" (str_append inner "\"")) ≡ got inner
unfolding contains
parse_ssh_option_value-quoted inner h =
    let value = str_append "\"" (str_append inner "\"") in
    let front : has_prefix value "\"" ≡ true = has_prefix-append "\"" (str_append inner "\"") in
    let back : ends_in value "\"" ≡ true =
      ap (λ t. ends_in t "\"") (sym (append_assoc "\"" inner "\""))
      ∙ ends_in-append (str_append "\"" inner) "\"" in
    let plain : contains value "\\" ≡ false =
      contains-append "\"" (str_append inner "\"") "\\"
      ∙ contains-append inner "\"" "\\"
      ∙ rw h refl in
    let inside : trim_prefix value "\"" ≡ str_append inner "\"" =
      trim_prefix-append "\"" (str_append inner "\"") in
    accepted value front back plain
    ∙ ap (λ t. got (trim_last t "\"")) inside
    ∙ ap got (trim_last-append inner "\"")

-- A supported pattern holds no quote.
supported-contains : (p : String) → is_supported_ssh_pattern p ≡ true → contains p "\"" ≡ false
unfolding is_supported_ssh_pattern
supported-contains p h = elim (Bool-cases (p == "*")) [
  | inl star ↦
      let same_text : p ≡ "*" = ground (arith, eq_iff p "*") in
      ap (λ t. contains t "\"") same_text ∙ unfold contains in refl
  | inr other ↦ contains_any-contains p "*?!\"'" "\"" (unfold contains in refl) (ground arith)
]

checked_namespaces-All :
    (namespaces : List String)
    → All (λ n. is_supported_ssh_pattern n ≡ true) namespaces
    → first_unsupported namespaces ≡ none
unfolding first_unsupported
checked_namespaces-All [] _ = refl
checked_namespaces-All (n ∷ ns) (good, others) = rw good (checked_namespaces-All ns others)

pub inner_is_plain :
    (namespaces : List String)
    → All (λ n. is_supported_ssh_pattern n ≡ true) namespaces
    → contains (join namespaces ",") "\"" ≡ false
inner_is_plain namespaces good =
    contains-join namespaces "," "\"" refl (All-mono supported-contains namespaces good)

with_options :
    (options : String)
    → (options == "") ≡ false
    → ssh_namespaces_from_options options
      ≡ (split_ssh_option_tokens options >>= λ tokens. options_loop false [] tokens)
unfolding ssh_namespaces_from_options
with_options options h = rw h refl

-- What the loop does behind the only option.
abbrev options_loop_end : List String → Reading (List String)
options_loop_end found = options_loop true found []

first_option :
    (option : String)
    → has_prefix option "namespaces=" ≡ true
    → options_loop false [] (option ∷ []) ≡ (
        parse_ssh_option_value (trim_prefix option "namespaces=") >>= λ v.
        checked_namespaces (split v ",") >>= options_loop_end)
unfolding options_loop
first_option option front = rw front refl

all_checked :
    (parts : List String)
    → first_unsupported parts ≡ none
    → (checked_namespaces parts >>= options_loop_end) ≡ got parts
unfolding checked_namespaces options_loop
all_checked parts good = simp (good, checked_namespaces, options_loop)

read_alone :
    (option value inner : String)
    → has_prefix option "namespaces=" ≡ true
    → trim_prefix option "namespaces=" ≡ value
    → parse_ssh_option_value value ≡ got inner
    → first_unsupported (split inner ",") ≡ none
    → options_loop false [] (option ∷ []) ≡ got (split inner ",")
read_alone option value inner front rest parsed good =
    let finish : Reading String → Reading (List String) =
      λ r. r >>= λ v. checked_namespaces (split v ",") >>= options_loop_end in
    first_option option front
    ∙ ap (λ v. finish (parse_ssh_option_value v)) rest
    ∙ ap finish parsed
    ∙ all_checked (split inner ",") good

-- Options in which each namespace is supported and holds no comma and no backslash are read back.
pub ssh_namespaces_from_options-namespaces_option :
    (n : String) (ns : List String)
    → All (λ p. is_supported_ssh_pattern p ≡ true) (n ∷ ns)
    → All (λ p. contains p "," ≡ false) (n ∷ ns)
    → All (λ p. contains p "\\" ≡ false) (n ∷ ns)
    → ssh_namespaces_from_options (namespaces_option (n ∷ ns)) ≡ got (n ∷ ns)
unfolding namespaces_option
ssh_namespaces_from_options-namespaces_option n ns good comma slash =
    let inner = join (n ∷ ns) "," in
    let value = str_append "\"" (str_append inner "\"") in
    let some_option : (str_append "namespaces=" value == "") ≡ false =
      not_empty (str_append "namespaces=" value) (
        append-ne-nil_of_right_ne-nil "namespaces="
          (append-ne-nil_of_right_ne-nil "\"" (concat-ne-nil "\"" inner))) in
    let tokens = split_ssh_option_tokens-quoted inner (inner_is_plain (n ∷ ns) good) in
    let plain = contains-join (n ∷ ns) "," "\\" refl slash in
    let parts : split inner "," ≡ n ∷ ns = split-join n ns "," comma in
    let supported = ap first_unsupported parts ∙ checked_namespaces-All (n ∷ ns) good in
    with_options (str_append "namespaces=" value) some_option
    ∙ ap (λ r. r >>= λ tokens. options_loop false [] tokens) tokens
    ∙ read_alone (str_append "namespaces=" value) value inner
        (has_prefix-append "namespaces=" value) (trim_prefix-append "namespaces=" value)
        (parse_ssh_option_value-quoted inner plain) supported
    ∙ ap got parts
