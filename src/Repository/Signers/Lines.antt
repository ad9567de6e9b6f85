-- ===== src/Repository/Signers/Lines.antt =====
-- A line of the file of the allowed signers (internal/repository/git.go), written and read: its
-- fields, one lemma each.
use Prim.Native.Char.{Char}
use Prim.Native.String.{◌∷◌ as push}
use text.Mathlib.TextLemmas.{nil-append, cons-append, append_assoc, append-nil}
use comin.Base.{
  ◌≡◌, refl, sym, ap, ◌∙◌, Bool, true, false, not, ◌&&◌, List, [], ◌∷◌, String, str_append, some,
  arith,
}
use comin.Base.Texts.{same, is_space, contains, trim_left}
use comin.Base.Texts.Spaces.{has_space, begins_dark, trim_left-begins_dark}
use comin.Repository.Signers.{got, token_from, more, split_ssh_token, split_first_field, further}
use comin.Repository.Signers.Options.{quote-append, namespaces_option}

-- A space behind a text that does not begin with one.
trim_left-space : (s : String) → begins_dark s ≡ true → trim_left (push " " s) ≡ s
unfolding trim_left is_space
trim_left-space s dark = trim_left-begins_dark s dark

pub split_first_field-append :
    (field rest : String)
    → has_space field ≡ false
    → begins_dark rest ≡ true
    → split_first_field (str_append field (push " " rest)) ≡ some (field, rest)
unfolding split_first_field has_space
split_first_field-append String.[] rest h dark =
    ap split_first_field (nil-append (push " " rest))
    ∙ ap (λ r. some ("", r)) (trim_left-begins_dark rest dark)
split_first_field-append (String.◌∷◌ c field) rest h dark =
    let later = split_first_field-append field rest (ground arith) dark in
    let dark_c : is_space c ≡ false = ground arith in
    ap split_first_field (cons-append c field (push " " rest))
    ∙ simp (dark_c, split_first_field) (ap (further c) later)

token_from-other :
    (in_quote : Bool) (c : Char) (s : String)
    → same c "\"" ≡ false
    → (is_space c && not in_quote) ≡ false
    → token_from in_quote (push c s) ≡ more c (token_from in_quote s)
unfolding token_from
token_from-other in_quote c s h k = simp (h, k, token_from)

-- A text in which nothing ends the token or turns the state of the quote is read into the token.
token_from-plain :
    (in_quote : Bool) (p s token rest : String)
    → contains p "\"" ≡ false
    → (has_space p && not in_quote) ≡ false
    → token_from in_quote s ≡ got (token, rest)
    → token_from in_quote (str_append p s) ≡ got (str_append p token, rest)
unfolding contains has_space
token_from-plain in_quote String.[] s token rest h k e =
    ap (token_from in_quote) (nil-append s) ∙ e ∙ ap (λ t. got (t, rest)) (sym (nil-append token))
token_from-plain in_quote (String.◌∷◌ c p) s token rest h k e =
    let later = token_from-plain in_quote p s token rest (ground arith) (ground arith) e in
    ap (token_from in_quote) (cons-append c p s)
    ∙ token_from-other in_quote c (str_append p s) (ground arith) (ground arith)
    ∙ ap (more c) later
    ∙ ap (λ t. got (t, rest)) (sym (cons-append c p token))

token_from-quote :
    (in_quote : Bool) (s token rest : String)
    → token_from (not in_quote) s ≡ got (token, rest)
    → token_from in_quote (push "\"" s) ≡ got (push "\"" token, rest)
unfolding token_from
token_from-quote in_quote s token rest e = ap (more "\"") e

token_from-space :
    (rest : String) → begins_dark rest ≡ true → token_from false (push " " rest) ≡ got ("", rest)
unfolding token_from is_space
token_from-space rest dark = ap (λ r. got ("", r)) (trim_left-space rest dark)

-- A token without spaces and quotes, and a space behind it.
pub split_ssh_token-plain :
    (token rest : String)
    → contains token "\"" ≡ false
    → has_space token ≡ false
    → begins_dark rest ≡ true
    → split_ssh_token (str_append token (push " " rest)) ≡ got (token, rest)
unfolding split_ssh_token
split_ssh_token-plain token rest h k dark =
    token_from-plain false token (push " " rest) "" rest h (ground arith)
      (token_from-space rest dark)
    ∙ ap (λ t. got (t, rest)) (append-nil token)

option_in_front :
    (inner tail : String)
    → str_append (str_append "namespaces=" (str_append "\"" (str_append inner "\""))) tail
      ≡ str_append "namespaces=" (push "\"" (str_append inner (push "\"" tail)))
option_in_front inner tail =
    append_assoc "namespaces=" (str_append "\"" (str_append inner "\"")) tail
    ∙ ap (str_append "namespaces=") (
        append_assoc "\"" (str_append inner "\"") tail
        ∙ quote-append (str_append (str_append inner "\"") tail)
        ∙ ap (push "\"") (append_assoc inner "\"" tail ∙ ap (str_append inner) (quote-append tail)))

-- The option that lists the namespaces, whose value may hold spaces.
pub split_ssh_token-quoted :
    (inner rest : String)
    → contains inner "\"" ≡ false
    → begins_dark rest ≡ true
    → let option = str_append "namespaces=" (str_append "\"" (str_append inner "\"")) in
      split_ssh_token (str_append option (push " " rest)) ≡ got (option, rest)
unfolding split_ssh_token contains has_space
split_ssh_token-quoted inner rest h dark =
    let tail = push " " rest in
    let closing = token_from-quote true tail "" rest (token_from-space rest dark) in
    let value = token_from-plain true inner (push "\"" tail) "\"" rest h (ground arith) closing in
    let opening =
      token_from-quote false (str_append inner (push "\"" tail)) (str_append inner "\"") rest
        value in
    let opened = push "\"" (str_append inner (push "\"" tail)) in
    let token = push "\"" (str_append inner "\"") in
    let whole = token_from-plain false "namespaces=" opened token rest refl refl opening in
    ap (token_from false) (option_in_front inner tail)
    ∙ whole
    ∙ ap (λ t. got (str_append "namespaces=" t, rest)) (sym (quote-append (str_append inner "\"")))

-- A line that `parseSSHAllowedSigners` reads, of its fields: the principal, the namespaces, and the
-- text of the key.
pub record SignerLine : Type 0 where
  pub principal : String
  pub namespaces : List String
  pub key_type : String
  pub key_blob : String

unfoldable pub key_text : SignerLine → String
key_text s = str_append s.key_type (push " " s.key_blob)

unfoldable pub behind : List String → String → String
unfolding namespaces_option
behind [] key = key
behind (n ∷ ns) key = str_append (namespaces_option (n ∷ ns)) (push " " key)

unfoldable pub signer_line : SignerLine → String
unfolding key_text behind
signer_line s = str_append s.principal (push " " (behind s.namespaces (key_text s)))
