-- ===== src/Repository/Signers/Tokens.antt =====
-- `splitSSHOptionTokens` (internal/repository/git.go): the tokens against the text that it reads.
use Prim.Native.Char.{Char}
use Prim.Native.String.{[] as empty, ◌∷◌ as push}
use mathlib.Core.Logic.{◌≢◌}
use text.Mathlib.TextLemmas.{append-nil, nil-append}
use comin.Base.{
  ◌≡◌, refl, sym, ap, subst, ◌∙◌, Bool, true, false, not, ◌&&◌, inl, inr, if◌then◌else◌, List, [],
  ◌∷◌, String, ◌==◌, str_append, Bool-cases, arith,
}
use comin.Base.Texts.{same, join}
use comin.Base.Texts.Cuts.{same→≡, append_one, join-cons}
use comin.Repository.Signers.{
  SignerError, unterminated_quote, unsupported_option, Reading, got, failed, ◌>>=◌, tokens_from,
  split_ssh_option_tokens,
}

-- What one round of the loop does, by the character that it reads.
pub tokens_from-quote :
    (in_quote : Bool) (token : String) (c : Char) (s : String)
    → same c "\"" ≡ true
    → tokens_from in_quote token (push c s)
      ≡ tokens_from (not in_quote) (str_append token (push c empty)) s
unfolding tokens_from
tokens_from-quote in_quote token c s h = simp (h, tokens_from)

tokens_from-comma :
    (in_quote : Bool) (token : String) (c : Char) (s : String)
    → same c "\"" ≡ false
    → (same c "," && not in_quote) ≡ true
    → tokens_from in_quote token (push c s) ≡ (
        if token == ""
        then failed (unsupported_option token)
        else (tokens_from in_quote "" s >>= λ tokens. got (token ∷ tokens)))
unfolding tokens_from
tokens_from-comma in_quote token c s h k = simp (h, k, tokens_from)

pub tokens_from-other :
    (in_quote : Bool) (token : String) (c : Char) (s : String)
    → same c "\"" ≡ false
    → (same c "," && not in_quote) ≡ false
    → tokens_from in_quote token (push c s)
      ≡ tokens_from in_quote (str_append token (push c empty)) s
unfolding tokens_from
tokens_from-other in_quote token c s h k = simp (h, k, tokens_from)

abbrev Spells : Reading (List String) → String → Type 0
Spells r text = (tokens : List String) → r ≡ got tokens → (tokens ≢ []) × (join tokens "," ≡ text)

failed-Spells : (e : SignerError) (text : String) → Spells (failed e) text
failed-Spells e text tokens eq = absurd (ground arith)

last-Spells : (token : String) → Spells (got (token ∷ [])) (str_append token "")
last-Spells token tokens eq =
    let same_tokens : token ∷ [] ≡ tokens = ground arith in
    subst (λ l. (l ≢ []) × (join l "," ≡ str_append token "")) same_tokens
      (ground arith, unfold join in sym (append-nil token))

closed-Spells :
    (token text : String) (r : Reading (List String))
    → Spells r text
    → Spells (r >>= λ tokens. got (token ∷ tokens)) (str_append token (push "," text))
closed-Spells token text (failed e) h tokens eq =
    failed-Spells e (str_append token (push "," text)) tokens eq
closed-Spells token text (got ts) h tokens eq =
    let (some_left, spelled) = h ts refl in
    let same_tokens : token ∷ ts ≡ tokens = ground arith in
    subst (λ l. (l ≢ []) × (join l "," ≡ str_append token (push "," text))) same_tokens
      (
        ground arith,
        join-cons token ts "," some_left ∙ ap (λ t. str_append token (push "," t)) spelled,
      )

-- One more character that joins the token, whatever it is.
longer-Spells :
    (token s : String) (c : Char) (r : Reading (List String))
    → Spells r (str_append (str_append token (push c empty)) s)
    → Spells r (str_append token (push c s))
longer-Spells token s c r h = subst (Spells r) (append_one token s c) h

guarded-Spells :
    (blank : Bool) (e : SignerError) (text : String) (r : Reading (List String))
    → Spells r text
    → Spells (if blank then failed e else r) text
guarded-Spells true e text r h = failed-Spells e text
guarded-Spells false e text r h = h

token-Spells :
    (s : String) (in_quote : Bool) (token : String)
    → Spells (tokens_from in_quote token s) (str_append token s)
token-Spells String.[] true token =
    unfold tokens_from in failed-Spells unterminated_quote (str_append token "")
token-Spells String.[] false token =
    unfold tokens_from in
    guarded-Spells (token == "") (unsupported_option token) (str_append token "") (got (token ∷ []))
      (last-Spells token)
token-Spells (String.◌∷◌ c s) in_quote token = elim (Bool-cases (same c "\"")) [
  | inl h ↦
      rw (tokens_from-quote in_quote token c s h) (
        longer-Spells token s c _ (token-Spells s (not in_quote) (str_append token (push c empty))))
  | inr h ↦ elim (Bool-cases (same c "," && not in_quote)) [
    | inl k ↦
        rw (tokens_from-comma in_quote token c s h k, same→≡ c "," (ground arith))
          (guarded-Spells (token == "") (unsupported_option token) _ _ (
            closed-Spells token s _ (
              subst (Spells (tokens_from in_quote "" s)) (nil-append s)
                (token-Spells s in_quote ""))))
    | inr k ↦
        rw (tokens_from-other in_quote token c s h k)
          (longer-Spells token s c _ (token-Spells s in_quote (str_append token (push c empty))))
  ]
]

-- The options that are read are their tokens with a comma between them.
pub split_ssh_option_tokens-Spells :
    (options : String) (tokens : List String)
    → split_ssh_option_tokens options ≡ got tokens
    → (tokens ≢ []) × (join tokens "," ≡ options)
unfolding split_ssh_option_tokens
split_ssh_option_tokens-Spells options tokens eq =
    let (some_left, spelled) = token-Spells options false "" tokens eq in
    (some_left, spelled ∙ nil-append options)
