-- ===== src/Base/Lists.antt =====
-- Lists measured by native numbers, and the searches that Go's `slices` package offers.
use Prim.Native.Nat.{ℕ, suc, ◌+◌}
use mathlib.Core.Path.{◌≡◌}
use mathlib.Core.Bool.{Bool, false, ◌||◌}
use mathlib.Core.List.{List, [], ◌∷◌, ◌++◌}
use native.Mathlib.Omega.{arith}

module _ {ℓ} {A : Type ℓ} where
  abbrev pub length : List A → ℕ
  length [] = 0
  length (x ∷ xs) = suc (length xs)

  pub length-append : (xs ys : List A) → length (xs ++ ys) ≡ length xs + length ys
  length-append [] ys = omega arith
  length-append (x ∷ xs) ys = omega (arith, length-append xs ys)

  -- `slices.ContainsFunc`.
  abbrev pub contains_func : List A → (A → Bool) → Bool
  contains_func [] p = false
  contains_func (x ∷ xs) p = p x || contains_func xs p

  -- Each element has the property: nested pairs, which the tactics read and build.
  abbrev pub All {κ} : (A → Type κ) → List A → Type κ
  All Q [] = Unit
  All Q (a ∷ rest) = Q a × All Q rest

  pub All-append {κ} :
      (Q : A → Type κ) (front back : List A) → All Q front → All Q back → All Q (front ++ back)
  All-append Q [] back _ last = last
  All-append Q (a ∷ front) back (first, others) last = (first, All-append Q front back others last)

  pub All-intro {κ} : {P : A → Type κ} → ((x : A) → P x) → (xs : List A) → All P xs
  All-intro f [] = tt
  All-intro f (x ∷ xs) = (f x, All-intro f xs)

  pub All-mono {κ ι} :
      {P : A → Type κ} {R : A → Type ι}
      → ((x : A) → P x → R x)
      → (xs : List A) → All P xs
      → All R xs
  All-mono f [] h = tt
  All-mono f (x ∷ xs) h = (f x h.0, All-mono f xs h.1)
