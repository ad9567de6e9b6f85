-- ===== src/Repository/Signers/Located.antt =====
-- Where the parser of the allowed signers (internal/repository/git.go) finds what it reads on a line: what it
-- leaves of a text is an end of the text.
use Prim.Native.Char.{Char}
use Prim.Native.String.{◌∷◌ as push}
use comin.Base.{
  ◌≡◌, ap, subst, Bool, true, false, not, ◌&&◌, inl, inr, Option, none, some, String, ◌==◌,
  Bool-cases, arith,
}
use comin.Base.Texts.{same, is_space, trim_left}
use comin.Repository.Signers.{
  Reading, got, failed, got_before, more, further, split_first_field, token_from, split_ssh_token,
  is_ssh_public_key_type, split_ssh_allowed_signers_rest,
}

pub data IsEnd : String → String → Type 0 where
  whole : {s : String} → IsEnd s s
  behind : (c : Char) {e s : String} → IsEnd e s → IsEnd e (push c s)

pub IsEnd-trans : {e f s : String} → IsEnd e f → IsEnd f s → IsEnd e s
IsEnd-trans h whole = h
IsEnd-trans h (behind c g) = behind c (IsEnd-trans h g)

trim_left-IsEnd : (s : String) → IsEnd (trim_left s) s
unfolding trim_left
trim_left-IsEnd String.[] = whole
trim_left-IsEnd (String.◌∷◌ c s) = elim (Bool-cases (is_space c)) [
  | inl space ↦ rw space (behind c (trim_left-IsEnd s))
  | inr dark ↦ rw dark whole
]

further-cases :
    (c : Char) (r : Option (String × String)) (field rest : String)
    → further c r ≡ some (field, rest)
    → (field' : String) × (r ≡ some (field', rest))
further-cases c none field rest h = absurd (ground arith)
further-cases c (some (field', rest')) field rest h = (field', ap some (ground arith))

pub split_first_field-IsEnd :
    (line field rest : String) → split_first_field line ≡ some (field, rest) → IsEnd rest line
unfolding split_first_field
split_first_field-IsEnd String.[] field rest h = absurd (ground arith)
split_first_field-IsEnd (String.◌∷◌ c s) field rest h = elim (Bool-cases (is_space c)) [
  | inl space ↦
      let same_rest : trim_left (push c s) ≡ rest = ground arith in
      subst (λ r. IsEnd r (push c s)) same_rest (trim_left-IsEnd (push c s))
  | inr dark ↦
      let (field', e) = further-cases c (split_first_field s) field rest (ground arith) in
      behind c (split_first_field-IsEnd s field' rest e)
]

more-cases :
    (c : Char) (r : Reading (String × String)) (token rest : String)
    → more c r ≡ got (token, rest)
    → (token' : String) × (r ≡ got (token', rest))
more-cases c (failed e) token rest h = absurd (ground arith)
more-cases c (got (token', rest')) token rest h = (token', ap got (ground arith))

token_from-IsEnd :
    (in_quote : Bool) (s token rest : String)
    → token_from in_quote s ≡ got (token, rest)
    → IsEnd rest s
unfolding token_from
token_from-IsEnd true String.[] token rest h = absurd (ground arith)
token_from-IsEnd false String.[] token rest h =
    let nothing : "" ≡ rest = ground arith in subst (λ r. IsEnd r "") nothing whole
token_from-IsEnd in_quote (String.◌∷◌ c s) token rest h = elim (Bool-cases (same c "\"")) [
  | inl quote ↦
      let (token', e) = more-cases c (token_from (not in_quote) s) token rest (ground arith) in
      behind c (token_from-IsEnd (not in_quote) s token' rest e)
  | inr plain ↦ elim (Bool-cases (is_space c && not in_quote)) [
    | inl ends ↦
        let same_rest : trim_left (push c s) ≡ rest = ground arith in
        subst (λ r. IsEnd r (push c s)) same_rest (trim_left-IsEnd (push c s))
    | inr goes_on ↦
        let (token', e) = more-cases c (token_from in_quote s) token rest (ground arith) in
        behind c (token_from-IsEnd in_quote s token' rest e)
  ]
]

-- The text that the key is read from is an end of what follows the principal.
pub split_rest-IsEnd :
    (rest options input : String)
    → split_ssh_allowed_signers_rest rest ≡ got (options, input)
    → IsEnd input rest
unfolding split_ssh_allowed_signers_rest split_ssh_token
split_rest-IsEnd rest options input h =
    let ((first, remaining), e, h₁) = got_before (split_ssh_token rest) _ (options, input) h in
    let cut = token_from-IsEnd false rest first remaining e in
    elim (Bool-cases (first == "")) [
      | inl nothing ↦ absurd (ground arith)
      | inr some_text ↦ elim (Bool-cases (is_ssh_public_key_type first)) [
        | inl key ↦ let all : rest ≡ input = ground arith in subst (λ r. IsEnd r rest) all whole
        | inr option ↦ elim (Bool-cases (remaining == "")) [
          | inl missing ↦ absurd (ground arith)
          | inr there ↦
              let left : remaining ≡ input = ground arith in subst (λ r. IsEnd r rest) left cut
        ]
      ]
    ]
