-- ===== src/Executor/Output.antt =====
-- What internal/executor/utils.go reads from the output of Nix.
use comin.Base.{
  ◌≡◌, ◌≢◌, ◌⊎◌, refl, ap, subst, ◌∙◌, true, false, inl, inr, some, List, [], ◌∷◌, ◌++◌, String,
  ◌==◌, eq_iff, str_append, ok, Result-cases, Option-cases, Bool-cases, All, All-append, arith,
}
use comin.Base.Texts.{has_prefix, trim_last, split, join, contains}
use comin.Base.Texts.Cuts.{split-join}
use comin.Base.Texts.Ends.{has_prefix-append, trim_prefix-append, trim_last-append}
use comin.Executor.Nix.{
  Evaluated, second_last, unquoted, parse_instantiate, DerivationDecoder, returned, store_path,
  output_path, first_derivation, parse_derivation_with_flake,
}

-- What the expression of `showDerivationWithNix` evaluates to, as Nix prints it.
unfoldable pub printed : Evaluated → String
printed e =
    str_append "\"" (str_append (join (e.drv_path ∷ e.out_path ∷ e.machine_id ∷ []) ";") "\"")

second_last-append :
    (before : List String) (line last : String)
    → second_last (before ++ line ∷ last ∷ []) ≡ some line
second_last-append [] line last = refl
second_last-append (a ∷ []) line last = refl
second_last-append (a ∷ b ∷ []) line last = refl
second_last-append (a ∷ b ∷ c ∷ rest) line last = second_last-append (b ∷ c ∷ rest) line last

lines_left :
    (before : List String) (line : String) (rest : List String) → before ++ line ∷ rest ≢ []
lines_left [] line rest e = ground arith
lines_left (l ∷ before) line rest e = ground arith

unquoted-printed :
    (e : Evaluated) → unquoted (printed e) ≡ join (e.drv_path ∷ e.out_path ∷ e.machine_id ∷ []) ";"
unfolding printed
unquoted-printed e =
    let body = join (e.drv_path ∷ e.out_path ∷ e.machine_id ∷ []) ";" in
    ap (λ t. trim_last t "\"") (trim_prefix-append "\"" (str_append body "\""))
    ∙ trim_last-append body "\""

lines_are_cut :
    (lines : List String)
    → lines ≢ []
    → All (λ l. contains l "\n" ≡ false) lines
    → split (join lines "\n") "\n" ≡ lines
lines_are_cut [] h _ = absurd (h refl)
lines_are_cut (l ∷ ls) _ whole = split-join l ls "\n" whole

-- The paths of a derivation without a semicolon are read back from what Nix prints, whatever lines the
-- commands have printed before.
pub parse_instantiate-printed :
    (before : List String) (e : Evaluated)
    → All (λ l. contains l "\n" ≡ false) before
    → contains (printed e) "\n" ≡ false
    → All (λ p. contains p ";" ≡ false) (e.drv_path ∷ e.out_path ∷ e.machine_id ∷ [])
    → parse_instantiate (join (before ++ printed e ∷ "" ∷ []) "\n") ≡ ok e
unfolding parse_instantiate contains
parse_instantiate-printed before e whole one_line apart =
    let lines =
      lines_are_cut (before ++ printed e ∷ "" ∷ []) (lines_left before (printed e) ("" ∷ [])) (
        All-append (λ l. contains l "\n" ≡ false) before (printed e ∷ "" ∷ []) whole
          (one_line, (refl, tt))) in
    let line = ap second_last lines ∙ second_last-append before (printed e) "" in
    let fields =
      ap (λ t. split t ";") (unquoted-printed e)
      ∙ split-join e.drv_path (e.out_path ∷ e.machine_id ∷ []) ";" apart in
    simp (line, fields, parse_instantiate)

prefixed : (p : String) → has_prefix (store_path p) "/nix/store/" ≡ true
prefixed p = elim (Bool-cases (has_prefix p "/nix/store/")) [
  | inl h ↦ rw h h
  | inr h ↦ rw h (has_prefix-append "/nix/store/" p)
]

output_prefixed :
    (p : String) → (output_path p ≡ "") ⊎ (has_prefix (output_path p) "/nix/store/" ≡ true)
output_prefixed p = elim (Bool-cases (has_prefix p "/nix/store/")) [
  | inl h ↦ inr (rw h h)
  | inr h ↦ elim (Bool-cases (p == "")) [
    | inl blank ↦ inl (ground (arith, eq_iff p ""))
    | inr some_path ↦ inr (rw (h, some_path) (has_prefix-append "/nix/store/" p))
  ]
]

first_is_in_store :
    (output : List (String × String)) (drv out : String)
    → first_derivation output ≡ returned (ok (drv, out))
    → (has_prefix drv "/nix/store/" ≡ true) × ((out ≡ "") ⊎ (has_prefix out "/nix/store/" ≡ true))
first_is_in_store [] drv out h = absurd (ground arith)
first_is_in_store ((key, path) ∷ rest) drv out h =
    let same_drv : store_path key ≡ drv = ground arith in
    let same_out : output_path path ≡ out = ground arith in
    (
      subst (λ d. has_prefix d "/nix/store/" ≡ true) same_drv (prefixed key),
      subst (λ o. (o ≡ "") ⊎ (has_prefix o "/nix/store/" ≡ true)) same_out (output_prefixed path),
    )

-- What is read from the description of a derivation, in the formats of all versions of Nix, lies in the
-- store; an output that is not known yet is the empty text.
pub parse_derivation_with_flake-in_store :
    (decoder : DerivationDecoder) (text drv out : String)
    → parse_derivation_with_flake decoder text ≡ returned (ok (drv, out))
    → (has_prefix drv "/nix/store/" ≡ true) × ((out ≡ "") ⊎ (has_prefix out "/nix/store/" ≡ true))
unfolding parse_derivation_with_flake
parse_derivation_with_flake-in_store decoder text drv out h =
    elim (Option-cases (decoder.unmarshal_wrapper text)) [
      | inr (output, e) ↦ first_is_in_store output drv out (ground arith)
      | inl e ↦ elim (Result-cases (decoder.unmarshal_legacy text)) [
        | inr (m, f) ↦ absurd (ground arith)
        | inl (output, f) ↦ first_is_in_store output drv out (ground arith)
      ]
    ]
