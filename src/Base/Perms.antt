-- ===== src/Base/Perms.antt =====
-- Permutations and membership as families that a proof can match, and lists of distinct names.
use Prim.Native.Nat.{suc}
use Prim.Native.String.{String}
use mathlib.Core.Path.{◌≡◌, refl, sym, ap, subst, ◌∙◌}
use mathlib.Core.Bool.{Bool, false, ◌||◌}
use mathlib.Core.List.{List, [], ◌∷◌, ◌++◌, map, Permᴰ, Memᴰ}
use native.Mathlib.Omega.{arith}
use text.Mathlib.Text.{◌==◌}
use text.Mathlib.TextEquality.{eq_iff}
use comin.Base.Lists.{length, All, contains_func}

module _ {ℓ} {A : Type ℓ} where
  pub length-perm : {l m : List A} → Permᴰ l m → length l ≡ length m
  length-perm Permᴰ.nil = refl
  length-perm (Permᴰ.cons e p) = ap suc (length-perm p)
  length-perm (Permᴰ.swap e f) = refl
  length-perm (Permᴰ.trans p q) = length-perm p ∙ length-perm q

  pub All-perm {κ} : (P : A → Type κ) {l m : List A} → Permᴰ l m → All P m → All P l
  All-perm P Permᴰ.nil h = h
  All-perm P (Permᴰ.cons e p) h = (subst P (sym e) h.0, All-perm P p h.1)
  All-perm P (Permᴰ.swap e f) h = (subst P (sym e) h.1.0, (subst P (sym f) h.0, h.1.1))
  All-perm P (Permᴰ.trans p q) h = All-perm P p (All-perm P q h)

  pub mem-perm : {a : A} {l m : List A} → Permᴰ l m → Memᴰ a m → Memᴰ a l
  mem-perm Permᴰ.nil h = h
  mem-perm (Permᴰ.cons e p) (Memᴰ.head x) = Memᴰ.head (x ∙ sym e)
  mem-perm (Permᴰ.cons e p) (Memᴰ.tail x) = Memᴰ.tail (mem-perm p x)
  mem-perm (Permᴰ.swap e f) (Memᴰ.head x) = Memᴰ.tail (Memᴰ.head (x ∙ sym f))
  mem-perm (Permᴰ.swap e f) (Memᴰ.tail (Memᴰ.head x)) = Memᴰ.head (x ∙ sym e)
  mem-perm (Permᴰ.swap e f) (Memᴰ.tail (Memᴰ.tail x)) = Memᴰ.tail (Memᴰ.tail x)
  mem-perm (Permᴰ.trans p q) h = mem-perm p (mem-perm q h)

  pub mem-append_left : {a : A} (l m : List A) → Memᴰ a l → Memᴰ a (l ++ m)
  mem-append_left [] m h = elim h [ ]
  mem-append_left (x ∷ l) m (Memᴰ.head e) = Memᴰ.head e
  mem-append_left (x ∷ l) m (Memᴰ.tail h) = Memᴰ.tail (mem-append_left l m h)

  pub mem-append_last : (l : List A) (a : A) → Memᴰ a (l ++ a ∷ [])
  mem-append_last [] a = Memᴰ.head refl
  mem-append_last (x ∷ l) a = Memᴰ.tail (mem-append_last l a)

  pub All-mem {κ} : (P : A → Type κ) {a : A} (l : List A) → All P l → Memᴰ a l → P a
  All-mem P [] h m = elim m [ ]
  All-mem P (x ∷ l) h (Memᴰ.head e) = subst P (sym e) h.0
  All-mem P (x ∷ l) h (Memᴰ.tail m) = All-mem P l h.1 m

-- `slices.Contains` on texts.
abbrev pub contains : List String → String → Bool
contains l s = contains_func l (λ x. x == s)

abbrev pub Distinct : List String → Type 0
Distinct [] = Unit
Distinct (x ∷ xs) = (contains xs x ≡ false) × Distinct xs

pub contains-append :
    (l m : List String) (s : String) → contains (l ++ m) s ≡ (contains l s || contains m s)
contains-append [] m s = refl
contains-append (x ∷ l) m s = ground (arith, contains-append l m s)

pub contains-perm : (s : String) {l m : List String} → Permᴰ l m → contains l s ≡ contains m s
contains-perm s Permᴰ.nil = refl
contains-perm s (Permᴰ.cons e p) = rw (e, contains-perm s p)
contains-perm s (Permᴰ.swap e f) = rw (e, f) (ground arith)
contains-perm s (Permᴰ.trans p q) = contains-perm s p ∙ contains-perm s q

pub Distinct-perm : {l m : List String} → Permᴰ l m → Distinct m → Distinct l
Distinct-perm Permᴰ.nil h = h
Distinct-perm (Permᴰ.cons {a} {b} e p) h = (rw e (contains-perm b p ∙ h.0), Distinct-perm p h.1)
Distinct-perm (Permᴰ.swap {a} {b} {a'} {b'} e f) h =
    rw (e, f) (ground (arith, eq_iff a' b', eq_iff b' a'))
Distinct-perm (Permᴰ.trans p q) h = Distinct-perm p (Distinct-perm q h)

pub Distinct-append :
    (l : List String) (s : String) → contains l s ≡ false → Distinct l → Distinct (l ++ s ∷ [])
Distinct-append [] s e h = (refl, tt)
Distinct-append (x ∷ l) s e h = (
  ground (arith, contains-append l (s ∷ []) x, eq_iff s x, eq_iff x s),
  Distinct-append l s (ground arith) h.1,
)

pub map-perm {ℓ κ} :
    {A : Type ℓ} {B : Type κ} (f : A → B) {l m : List A} → Permᴰ l m → Permᴰ (map f l) (map f m)
map-perm f Permᴰ.nil = Permᴰ.nil
map-perm f (Permᴰ.cons e p) = Permᴰ.cons (ap f e) (map-perm f p)
map-perm f (Permᴰ.swap e g) = Permᴰ.swap (ap f e) (ap f g)
map-perm f (Permᴰ.trans p q) = Permᴰ.trans (map-perm f p) (map-perm f q)
