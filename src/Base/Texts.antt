-- ===== src/Base/Texts.antt =====
-- The functions of Go's `strings` and `unicode` packages that the program calls, on the characters
-- of a text.
pub mod Cuts
pub mod Ends
pub mod Spaces
pub mod Paths
use Prim.Native.Nat.{ℕ, zero, suc, ◌/◌, ◌%◌}
use Prim.Native.Char.{Char, code}
use Prim.Native.String.{String, [], ◌∷◌, ◌++◌, char_at}
use mathlib.Core.Bool.{Bool, true, false, ◌&&◌, ◌||◌, not}
use mathlib.Core.List.{List}
use text.Mathlib.Text.{◌==◌}
use comin.Base.Tests.{leb, nat_eq, if◌then◌else◌}

-- The equality of two runes.
abbrev pub same : Char → Char → Bool
same c d = nat_eq (code c) (code d)

abbrev between : ℕ → ℕ → ℕ → Bool
between low high c = leb low c && leb c high

-- `unicode.IsSpace`.
unfoldable pub is_space : Char → Bool
is_space c =
    between 9 13 (code c)
    || nat_eq (code c) 32
    || nat_eq (code c) 133
    || nat_eq (code c) 160
    || nat_eq (code c) 5760
    || between 8192 8202 (code c)
    || between 8232 8233 (code c)
    || nat_eq (code c) 8239
    || nat_eq (code c) 8287
    || nat_eq (code c) 12288

abbrev pub is_blank : String → Bool
is_blank [] = true
is_blank (c ∷ s) = false

-- `strings.TrimLeftFunc` with `unicode.IsSpace`.
unfoldable pub trim_left : String → String
trim_left [] = []
trim_left (c ∷ s) = let rest = trim_left s in if is_space c then rest else c ∷ s

unfoldable pub trim_right : String → String
trim_right [] = []
trim_right (c ∷ s) = let rest = trim_right s in if is_space c && is_blank rest then [] else c ∷ rest

-- `strings.TrimSpace`.
unfoldable pub trim_space : String → String
unfolding trim_left trim_right
trim_space s = trim_right (trim_left s)

-- `strings.HasPrefix`.
unfoldable pub has_prefix : String → String → Bool
has_prefix s [] = true
has_prefix [] (p ∷ ps) = false
has_prefix (c ∷ s) (p ∷ ps) = same c p && has_prefix s ps

-- What is behind a prefix that the text has.
unfoldable pub drop_prefix : String → String → String
drop_prefix s [] = s
drop_prefix [] (p ∷ ps) = []
drop_prefix (c ∷ s) (p ∷ ps) = drop_prefix s ps

-- `strings.TrimPrefix`.
unfoldable pub trim_prefix : String → String → String
unfolding has_prefix drop_prefix
trim_prefix s p = if has_prefix s p then drop_prefix s p else s

-- `strings.HasSuffix` and `strings.TrimSuffix`, for a suffix of one character.
unfoldable pub ends_in : String → Char → Bool
ends_in [] d = false
ends_in (c ∷ s) d = let rest = ends_in s d in if is_blank s then same c d else rest

unfoldable pub trim_last : String → Char → String
trim_last [] d = []
trim_last (c ∷ s) d = let rest = trim_last s d in if is_blank s && same c d then [] else c ∷ rest

-- `strings.Contains` of one character, and `strings.ContainsAny`.
unfoldable pub contains : String → Char → Bool
contains [] d = false
contains (c ∷ s) d = same c d || contains s d

unfoldable pub contains_any : String → String → Bool
unfolding contains
contains_any [] chars = false
contains_any (c ∷ s) chars = contains chars c || contains_any s chars

-- `strings.Split` at one character: `part` is what is read of the current part.
unfoldable pub split_from : Char → String → String → List String
split_from sep part [] = List.◌∷◌ part List.[]
split_from sep part (c ∷ s) =
    let closed = split_from sep [] s in
    let longer = split_from sep (part ++ c ∷ []) s in
    if same c sep then List.◌∷◌ part closed else longer

unfoldable pub split : String → Char → List String
unfolding split_from
split s sep = split_from sep [] s

-- `strings.Join`.
unfoldable pub join : List String → Char → String
join List.[] sep = []
join (List.◌∷◌ part rest) sep = elim rest [
  | List.[] ↦ part
  | List.◌∷◌ _ _ ↦ part ++ sep ∷ join rest sep
]

-- `fmt` of a `uint32`: ten digits at most.
decimal_from : ℕ → ℕ → String → String
decimal_from zero n digits = digits
decimal_from (suc fuel) n digits =
    let longer = char_at "0123456789" (n % 10) ∷ digits in
    elim (leb n 9) [ true ↦ longer | false ↦ decimal_from fuel (n / 10) longer ]

unfoldable pub decimal : ℕ → String
unfolding decimal_from
decimal n = decimal_from 10 n []

-- `%q` of a text that holds no character to escape.
unfoldable pub quoted : String → String
quoted s = "\"" ++ s ++ "\""
