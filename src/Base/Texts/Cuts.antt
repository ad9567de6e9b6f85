-- ===== src/Base/Texts/Cuts.antt =====
-- What `split` cuts, `join` puts together, and the other way round.
use Prim.Native.Char.{Char, code}
use Prim.Native.String.{String, [], ◌∷◌, ◌++◌}
use mathlib.Core.Path.{◌≡◌, refl, sym, ap, ◌∙◌}
use mathlib.Core.Logic.{◌≢◌, inl, inr}
use mathlib.Core.Bool.{true, false}
use mathlib.Core.List.{List}
use native.Mathlib.Omega.{arith}
use text.Mathlib.TextEquality.{Char-path}
use text.Mathlib.TextLemmas.{append-nil, append_assoc, nil-append, cons-append}
use comin.Base.Tests.{nat_eq_iff, Bool-cases}
use comin.Base.Lists.{All}
use comin.Base.Texts.{same, split_from, split, join, contains}

pub same→≡ : (c d : Char) → same c d ≡ true → c ≡ d
same→≡ c d h = Char-path c d (ground (arith, nat_eq_iff (code c) (code d)))

pub same_refl : (c : Char) → same c c ≡ true
same_refl c = ground (arith, nat_eq_iff (code c) (code c))

split_from-ne-nil : (sep : Char) (part s : String) → split_from sep part s ≢ List.[]
unfolding split_from
split_from-ne-nil sep part [] = ground arith
split_from-ne-nil sep part (c ∷ s) = ground (arith, split_from-ne-nil sep (part ++ c ∷ []) s)

pub split-ne-nil : (s : String) (sep : Char) → split s sep ≢ List.[]
unfolding split
split-ne-nil s sep = split_from-ne-nil sep [] s

-- Joining in front of a list that is not empty.
pub join-cons :
    (part : String) (rest : List String) (sep : Char)
    → rest ≢ List.[]
    → join (List.◌∷◌ part rest) sep ≡ part ++ sep ∷ join rest sep
unfolding join
join-cons part List.[] sep h = absurd (h refl)
join-cons part (List.◌∷◌ x l) sep h = refl

split_from-sep :
    (sep c : Char) (part s : String)
    → same c sep ≡ true
    → split_from sep part (c ∷ s) ≡ List.◌∷◌ part (split_from sep [] s)
unfolding split_from
split_from-sep sep c part s h = simp (h, split_from)

split_from-other :
    (sep c : Char) (part s : String)
    → same c sep ≡ false
    → split_from sep part (c ∷ s) ≡ split_from sep (part ++ c ∷ []) s
unfolding split_from
split_from-other sep c part s h = simp (h, split_from)

pub append_one : (part s : String) (c : Char) → (part ++ c ∷ []) ++ s ≡ part ++ c ∷ s
append_one part s c = rw (append_assoc, cons-append, nil-append) refl

-- What is read and what is left spell the whole text.
join-split_from : (sep : Char) (part s : String) → join (split_from sep part s) sep ≡ part ++ s
join-split_from sep part [] = unfold split_from join in sym (append-nil part)
join-split_from sep part (c ∷ s) = elim (Bool-cases (same c sep)) [
  | inl h ↦
      let cut = split_from-sep sep c part s h in
      let rest = join-split_from sep [] s ∙ nil-append s in
      ap (λ l. join l sep) cut
      ∙ join-cons part (split_from sep [] s) sep (split_from-ne-nil sep [] s)
      ∙ ap (λ t. part ++ sep ∷ t) rest
      ∙ ap (λ d. part ++ d ∷ s) (sym (same→≡ c sep h))
  | inr h ↦
      ap (λ l. join l sep) (split_from-other sep c part s h)
      ∙ join-split_from sep (part ++ c ∷ []) s
      ∙ append_one part s c
]

pub join-split : (s : String) (sep : Char) → join (split s sep) sep ≡ s
unfolding split
join-split s sep = join-split_from sep [] s ∙ nil-append s

-- A part without the separator is read as a whole.
split_from-part :
    (sep : Char) (read part rest : String)
    → contains part sep ≡ false
    → split_from sep read (part ++ rest) ≡ split_from sep (read ++ part) rest
unfolding contains
split_from-part sep read [] rest h = rw (append-nil, nil-append) refl
split_from-part sep read (c ∷ part) rest h =
    let other : same c sep ≡ false = ground arith in
    let later : contains part sep ≡ false = ground arith in
    ap (split_from sep read) (cons-append c part rest)
    ∙ split_from-other sep c read (part ++ rest) other
    ∙ split_from-part sep (read ++ c ∷ []) part rest later
    ∙ ap (λ t. split_from sep t rest) (append_one read part c)

split_from-join :
    (sep : Char) (read part : String) (rest : List String)
    → All (λ p. contains p sep ≡ false) (List.◌∷◌ part rest)
    → split_from sep read (join (List.◌∷◌ part rest) sep) ≡ List.◌∷◌ (read ++ part) rest
unfolding join
split_from-join sep read part List.[] (h, _) =
    ap (split_from sep read) (sym (append-nil part))
    ∙ split_from-part sep read part [] h
    ∙ unfold split_from in refl
split_from-join sep read part (List.◌∷◌ next rest) (h, others) =
    split_from-part sep read part (sep ∷ join (List.◌∷◌ next rest) sep) h
    ∙ split_from-sep sep sep (read ++ part) (join (List.◌∷◌ next rest) sep) (same_refl sep)
    ∙ ap (List.◌∷◌ (read ++ part))
        (split_from-join sep [] next rest others ∙ ap (λ p. List.◌∷◌ p rest) (nil-append next))

-- Splitting a join gives the parts back.
pub split-join :
    (part : String) (rest : List String) (sep : Char)
    → All (λ p. contains p sep ≡ false) (List.◌∷◌ part rest)
    → split (join (List.◌∷◌ part rest) sep) sep ≡ List.◌∷◌ part rest
unfolding split
split-join part rest sep h =
    split_from-join sep [] part rest h ∙ ap (λ p. List.◌∷◌ p rest) (nil-append part)
