-- ===== src/Base/Texts/Ends.antt =====
-- The prefix and the last character that a test finds, and what the trims leave.
use Prim.Native.Char.{Char}
use Prim.Native.String.{String, [], ◌∷◌, ◌++◌}
use mathlib.Core.Path.{◌≡◌, refl, sym, ap, ◌∙◌}
use mathlib.Core.Logic.{◌≢◌}
use mathlib.Core.Bool.{true}
use native.Mathlib.Omega.{arith}
use text.Mathlib.TextLemmas.{nil-append, cons-append}
use comin.Base.Texts.{same, has_prefix, drop_prefix, trim_prefix, ends_in, trim_last}
use comin.Base.Texts.Cuts.{same→≡, same_refl}

drop_prefix-has_prefix : (s p : String) → has_prefix s p ≡ true → s ≡ p ++ drop_prefix s p
unfolding has_prefix drop_prefix
drop_prefix-has_prefix s [] h = sym (nil-append s)
drop_prefix-has_prefix [] (p ∷ ps) h = absurd (ground arith)
drop_prefix-has_prefix (c ∷ s) (p ∷ ps) h =
    let first : c ≡ p = same→≡ c p (ground arith) in
    let rest : s ≡ ps ++ drop_prefix s ps = drop_prefix-has_prefix s ps (ground arith) in
    ap (λ d. d ∷ s) first ∙ ap (λ t. p ∷ t) rest ∙ sym (cons-append p ps (drop_prefix s ps))

-- A text with the prefix is the prefix and what `TrimPrefix` leaves.
pub trim_prefix-has_prefix : (s p : String) → has_prefix s p ≡ true → s ≡ p ++ trim_prefix s p
unfolding trim_prefix
trim_prefix-has_prefix s p h = rw h (drop_prefix-has_prefix s p h)

pub has_prefix-append : (p s : String) → has_prefix (p ++ s) p ≡ true
unfolding has_prefix
has_prefix-append [] s = refl
has_prefix-append (c ∷ p) s = rw cons-append (ground (arith, same_refl c, has_prefix-append p s))

drop_prefix-append : (p s : String) → drop_prefix (p ++ s) p ≡ s
unfolding drop_prefix
drop_prefix-append [] s = nil-append s
drop_prefix-append (c ∷ p) s = rw cons-append (drop_prefix-append p s)

pub trim_prefix-append : (p s : String) → trim_prefix (p ++ s) p ≡ s
unfolding trim_prefix
trim_prefix-append p s = rw (has_prefix-append p s) (drop_prefix-append p s)

-- A text that ends in the character is what `TrimSuffix` leaves and that character.
pub trim_last-ends_in : (s : String) (d : Char) → ends_in s d ≡ true → s ≡ trim_last s d ++ d ∷ []
unfolding ends_in trim_last
trim_last-ends_in [] d h = absurd (ground arith)
trim_last-ends_in (c ∷ []) d h =
    let last : same c d ≡ true = ground arith in
    rw (last, same→≡ c d last) (sym (nil-append (d ∷ [])))
trim_last-ends_in (c ∷ e ∷ s) d h =
    ap (λ t. c ∷ t) (trim_last-ends_in (e ∷ s) d h)
    ∙ sym (cons-append c (trim_last (e ∷ s) d) (d ∷ []))

-- Behind a first character, the last one is still the last.
pub ends_in-cons : (c d : Char) (s : String) → s ≢ [] → ends_in (c ∷ s) d ≡ ends_in s d
unfolding ends_in
ends_in-cons c d [] h = absurd (h refl)
ends_in-cons c d (e ∷ s) h = refl

pub ends_in-append : (s : String) (d : Char) → ends_in (s ++ d ∷ []) d ≡ true
unfolding ends_in
ends_in-append [] d = rw nil-append (same_refl d)
ends_in-append (c ∷ []) d = rw (cons-append, nil-append) (same_refl d)
ends_in-append (c ∷ e ∷ s) d =
    let rest : ends_in (e ∷ (s ++ d ∷ [])) d ≡ true =
      ap (λ t. ends_in t d) (sym (cons-append e s (d ∷ []))) ∙ ends_in-append (e ∷ s) d in
    rw (cons-append, cons-append) rest

pub trim_last-append : (s : String) (d : Char) → trim_last (s ++ d ∷ []) d ≡ s
unfolding trim_last
trim_last-append [] d = rw (nil-append, same_refl d) refl
trim_last-append (c ∷ []) d = rw (cons-append, nil-append, same_refl d) refl
trim_last-append (c ∷ e ∷ s) d =
    let rest : trim_last (e ∷ (s ++ d ∷ [])) d ≡ e ∷ s =
      ap (λ t. trim_last t d) (sym (cons-append e s (d ∷ []))) ∙ trim_last-append (e ∷ s) d in
    rw (cons-append, cons-append) (ap (λ t. c ∷ t) rest)
