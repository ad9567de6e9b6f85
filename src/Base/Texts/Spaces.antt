-- ===== src/Base/Texts/Spaces.antt =====
-- Texts without a character or without spaces, their concatenations, and what the trims keep.
use Prim.Native.Char.{Char}
use Prim.Native.String.{String, [], ◌∷◌, ◌++◌}
use mathlib.Core.Path.{◌≡◌, refl, ap, ◌∙◌}
use mathlib.Core.Logic.{◌≢◌, inl, inr}
use mathlib.Core.Bool.{Bool, true, false, not, ◌||◌}
use mathlib.Core.List.{List}
use native.Mathlib.Omega.{arith}
use text.Mathlib.TextLemmas.{nil-append, cons-append}
use comin.Base.Tests.{Bool-cases}
use comin.Base.Lists.{All}
use comin.Base.Texts.Cuts.{same→≡}
use comin.Base.Texts.{
  same, is_space, is_blank, contains, contains_any, join, trim_left, trim_right, trim_space,
}

pub contains-append :
    (s t : String) (d : Char) → contains (s ++ t) d ≡ (contains s d || contains t d)
unfolding contains
contains-append [] t d = rw nil-append refl
contains-append (c ∷ s) t d = rw (cons-append) (ground (arith, contains-append s t d))

pub contains-join :
    (parts : List String) (sep d : Char)
    → same sep d ≡ false
    → All (λ p. contains p d ≡ false) parts
    → contains (join parts sep) d ≡ false
unfolding join contains
contains-join List.[] sep d h _ = refl
contains-join (List.◌∷◌ p List.[]) sep d h (first, _) = first
contains-join (List.◌∷◌ p (List.◌∷◌ q rest)) sep d h (first, others) =
    let later = contains-join (List.◌∷◌ q rest) sep d h others in
    contains-append p (sep ∷ join (List.◌∷◌ q rest) sep) d ∙ ground (arith, first, later)

-- A character of the list that is found nowhere.
pub contains_any-contains :
    (s chars : String) (d : Char)
    → contains chars d ≡ true
    → contains_any s chars ≡ false
    → contains s d ≡ false
unfolding contains contains_any
contains_any-contains [] chars d h k = refl
contains_any-contains (c ∷ s) chars d h k = elim (Bool-cases (same c d)) [
  | inl e ↦ absurd (ground (arith, ap (contains chars) (same→≡ c d e)))
  | inr e ↦ ground (arith, e, contains_any-contains s chars d h)
]

-- No character of the text is a space.
unfoldable pub has_space : String → Bool
has_space [] = false
has_space (c ∷ s) = is_space c || has_space s

-- A text that does not begin with a space.
unfoldable pub begins_dark : String → Bool
begins_dark [] = false
begins_dark (c ∷ s) = not (is_space c)

pub trim_left-begins_dark : (s : String) → begins_dark s ≡ true → trim_left s ≡ s
unfolding begins_dark trim_left
trim_left-begins_dark [] h = refl
trim_left-begins_dark (c ∷ s) h = elim (Bool-cases (is_space c)) [
  | inl b ↦ absurd (ground arith)
  | inr b ↦ simp (b, trim_left)
]

pub begins_dark-append : (s t : String) → s ≢ [] → has_space s ≡ false → begins_dark (s ++ t) ≡ true
unfolding begins_dark has_space
begins_dark-append [] t h _ = absurd (h refl)
begins_dark-append (c ∷ s) t _ h =
    let dark : is_space c ≡ false = ground arith in rw cons-append (ground (arith, dark))

trim_right-cons :
    (c : Char) (s : String)
    → is_blank (trim_right s) ≡ false
    → trim_right (c ∷ s) ≡ c ∷ trim_right s
unfolding trim_right
trim_right-cons c s h = ground arith

-- A text that is not empty and does not end in a space.
abbrev pub EndsDark : String → Type 0
EndsDark s = (is_blank s ≡ false) × (trim_right s ≡ s)

pub cons-EndsDark : (c : Char) (s : String) → EndsDark s → EndsDark (c ∷ s)
cons-EndsDark c s (some_left, kept) =
    (refl, trim_right-cons c s (ap is_blank kept ∙ some_left) ∙ ap (λ u. c ∷ u) kept)

-- What stands in front of such a text is kept.
pub append-EndsDark : (s t : String) → EndsDark t → EndsDark (s ++ t)
append-EndsDark [] t h = rw nil-append h
append-EndsDark (c ∷ s) t h = rw cons-append (cons-EndsDark c (s ++ t) (append-EndsDark s t h))

pub trim_space-EndsDark : (s : String) → begins_dark s ≡ true → EndsDark s → trim_space s ≡ s
unfolding trim_space
trim_space-EndsDark s begin (_, kept) = ap trim_right (trim_left-begins_dark s begin) ∙ kept
