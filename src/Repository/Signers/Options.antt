-- ===== src/Repository/Signers/Options.antt =====
-- `sshNamespacesFromOptions` (internal/repository/git.go): which options are accepted, and what
-- they are read as.
use Prim.Native.String.{[] as empty, ◌∷◌ as push}
use text.Mathlib.TextLemmas.{nil-append, cons-append}
use comin.Base.{
  ◌≡◌, ◌≢◌, refl, sym, ap, subst, ◌∙◌, true, false, inl, inr, List, [], ◌∷◌, String, str_append,
  eq_iff, none, some, Option-cases, Bool-cases, All, arith,
}
use comin.Base.Texts.{has_prefix, trim_prefix, ends_in, trim_last, split, join}
use comin.Base.Texts.Cuts.{join-split}
use comin.Base.Texts.Ends.{trim_prefix-has_prefix, trim_last-ends_in, ends_in-cons}
use comin.Repository.Signers.{
  got, got_before, ◌>>=◌, first_unsupported, is_supported_ssh_pattern, checked_namespaces,
  parse_ssh_option_value, options_loop, ssh_namespaces_from_options, split_ssh_option_tokens,
}
use comin.Repository.Signers.Tokens.{split_ssh_option_tokens-Spells}

-- The one option that lists the namespaces.
unfoldable pub namespaces_option : List String → String
namespaces_option namespaces =
    str_append "namespaces=" (str_append "\"" (str_append (join namespaces ",") "\""))

pub first_unsupported-All :
    (patterns : List String)
    → first_unsupported patterns ≡ none
    → All (λ p. is_supported_ssh_pattern p ≡ true) patterns
unfolding first_unsupported
first_unsupported-All [] h = tt
first_unsupported-All (p ∷ ps) h = elim (Bool-cases (is_supported_ssh_pattern p)) [
  | inl s ↦ (s, first_unsupported-All ps (ground arith))
  | inr u ↦ absurd (ground arith)
]

checked :
    (parts namespaces : List String)
    → checked_namespaces parts ≡ got namespaces
    → (parts ≡ namespaces) × (first_unsupported namespaces ≡ none)
unfolding checked_namespaces
checked parts namespaces h = elim (Option-cases (first_unsupported parts)) [
  | inl n ↦
      let same_list : parts ≡ namespaces = ground arith in
      (same_list, ap first_unsupported (sym same_list) ∙ n)
  | inr (p, u) ↦ absurd (ground arith)
]

pub quote-append : (s : String) → str_append "\"" s ≡ push "\"" s
quote-append s = cons-append "\"" empty s ∙ ap (push "\"") (nil-append s)

trim_last_blank : (s : String) → s ≡ "" → trim_last s "\"" ≡ ""
trim_last_blank s e = ap (λ t. trim_last t "\"") e ∙ unfold trim_last in refl

-- What `parseSSHOptionValue` accepts: a text between two quotes, or a single quote.
quoted :
    (value inner : String)
    → parse_ssh_option_value value ≡ got inner
    → (inner ≢ "")
    → value ≡ str_append "\"" (str_append inner "\"")
unfolding parse_ssh_option_value
quoted value inner h some_inner =
    let front : has_prefix value "\"" ≡ true = ground arith in
    let back : ends_in value "\"" ≡ true = ground arith in
    let found : trim_last (trim_prefix value "\"") "\"" ≡ inner = ground arith in
    let opened : value ≡ push "\"" (trim_prefix value "\"") =
      trim_prefix-has_prefix value "\"" front ∙ quote-append (trim_prefix value "\"") in
    let left : trim_prefix value "\"" ≢ "" = λ e. some_inner (sym found ∙ trim_last_blank _ e) in
    let closing : ends_in (trim_prefix value "\"") "\"" ≡ true =
      sym (ends_in-cons "\"" "\"" (trim_prefix value "\"") left)
      ∙ ap (λ t. ends_in t "\"") (sym opened)
      ∙ back in
    opened
    ∙ ap (push "\"") (trim_last-ends_in (trim_prefix value "\"") "\"" closing)
    ∙ ap (λ t. push "\"" (str_append t "\"")) found
    ∙ sym (quote-append (str_append inner "\""))

-- Nothing may stand behind the option that lists the namespaces.
alone :
    (tokens namespaces found : List String)
    → options_loop true namespaces tokens ≡ got found
    → (tokens ≡ []) × (namespaces ≡ found)
unfolding options_loop
alone [] namespaces found h = (refl, ground arith)
alone (o ∷ os) namespaces found h = elim (Bool-cases (has_prefix o "namespaces=")) [
  | inl p ↦ absurd (ground arith)
  | inr p ↦ absurd (ground arith)
]

-- What an accepted list of options is read as.
abbrev IsRead : List String → List String → Type 0
IsRead tokens namespaces =
    (tokens ≡ namespaces_option namespaces ∷ [])
    × All (λ n. is_supported_ssh_pattern n ≡ true) namespaces
    × (namespaces ≢ [])

blank_refused : (inner : String) → first_unsupported (split inner ",") ≡ none → inner ≢ ""
blank_refused inner h e =
    let refused : first_unsupported (split "" ",") ≡ some "" =
      unfold first_unsupported split is_supported_ssh_pattern in refl in
    absurd (ground (arith, sym refused ∙ ap (λ t. first_unsupported (split t ",")) (sym e) ∙ h))

value_is_read :
    (value : String) (rest namespaces : List String)
    → (parse_ssh_option_value value >>= λ v.
        checked_namespaces (split v ",") >>= λ found. options_loop true found rest)
      ≡ got namespaces
    → (rest ≡ [])
      × (value ≡ str_append "\"" (str_append (join namespaces ",") "\""))
      × All (λ n. is_supported_ssh_pattern n ≡ true) namespaces
      × (namespaces ≢ [])
value_is_read value rest namespaces h =
    let (inner, parsed, h₁) = got_before (parse_ssh_option_value value) _ namespaces h in
    let (found, listed, h₂) = got_before (checked_namespaces (split inner ",")) _ namespaces h₁ in
    let (none_left, same_found) = alone rest found namespaces h₂ in
    let (parts, good) = checked (split inner ",") found listed in
    let spelled : inner ≡ join namespaces "," =
      sym (join-split inner ",") ∙ ap (λ l. join l ",") (parts ∙ same_found) in
    let good_names = subst (λ l. first_unsupported l ≡ none) same_found good in
    let some_inner : inner ≢ "" = λ e. blank_refused inner (ap first_unsupported parts ∙ good) e in
    (
      none_left,
      quoted value inner parsed some_inner ∙ ap (λ t. str_append "\"" (str_append t "\"")) spelled,
      first_unsupported-All namespaces good_names,
      λ e. some_inner (spelled ∙ ap (λ l. join l ",") e ∙ unfold join in refl),
    )

tokens-IsRead :
    (tokens namespaces : List String)
    → tokens ≢ []
    → options_loop false [] tokens ≡ got namespaces
    → IsRead tokens namespaces
unfolding options_loop namespaces_option
tokens-IsRead [] namespaces some_left h = absurd (some_left refl)
tokens-IsRead (o ∷ os) namespaces some_left h = elim (Bool-cases (has_prefix o "namespaces=")) [
  | inr p ↦ absurd (ground arith)
  | inl p ↦
      let (none_left, spelled, good, some_names) =
        value_is_read (trim_prefix o "namespaces=") os namespaces (ground arith) in
      (
        ap (λ l. o ∷ l) none_left
            ∙ ap (λ t. t ∷ [])
                (trim_prefix-has_prefix o "namespaces=" p ∙ ap (str_append "namespaces=") spelled),
        good,
        some_names,
      )
]

-- Options that are not empty and are accepted are one option, `namespaces="…"`, with at least one
-- namespace, and each namespace that is read is a supported pattern. So a signer with options is
-- never read as one that is allowed in every namespace by an empty list.
pub options-ssh_namespaces_from_options :
    (options : String) (namespaces : List String)
    → options ≢ ""
    → ssh_namespaces_from_options options ≡ got namespaces
    → (options ≡ namespaces_option namespaces)
      × All (λ n. is_supported_ssh_pattern n ≡ true) namespaces
      × (namespaces ≢ [])
unfolding ssh_namespaces_from_options
options-ssh_namespaces_from_options options namespaces some_options h =
    let h₁ : (split_ssh_option_tokens options >>= λ tokens. options_loop false [] tokens)
        ≡ got namespaces =
      ground (arith, eq_iff options "") in
    let (tokens, split_up, h₂) = got_before (split_ssh_option_tokens options) _ namespaces h₁ in
    let (some_left, spelled) = split_ssh_option_tokens-Spells options tokens split_up in
    let (one, good, some_names) = tokens-IsRead tokens namespaces some_left h₂ in
    (sym spelled ∙ ap (λ l. join l ",") one ∙ unfold join in refl, good, some_names)
