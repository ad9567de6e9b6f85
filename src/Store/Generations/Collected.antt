-- ===== src/Store/Generations/Collected.antt =====
-- `generationsGC`: what it keeps, and how much.
use comin.Base.{
  ℕ, suc, ◌+◌, ◌≤◌, ◌<◌, ◌≡◌, refl, sym, subst, ◌≢◌, inl, inr, true, Option, none, some, List, [],
  ◌∷◌, String, ◌==◌, eq_iff, arith, length, nat_eq, All, Bool-cases, if◌then◌else◌,
}
use comin.Types.{Generation}
use comin.Store.{Store, Cell}
use comin.Store.Generations.{find_cell, set_cell, is_ref, is_alive, alive_cells}

-- A cell that is alive is still found.
pub find_cell-alive :
    (s : Store) (uuid : String) (l : List Cell) (c : Cell)
    → find_cell uuid l ≡ some c
    → is_alive s c ≡ true
    → find_cell uuid (alive_cells s l) ≡ some c
unfolding alive_cells
find_cell-alive s uuid [] c h a = absurd (cc)
find_cell-alive s uuid (x ∷ l) c h a = elim (Bool-cases (x.generation.uuid == uuid)) [
  | inl hit ↦
      let e : x ≡ c = ground arith in
      let a' : is_alive s x ≡ true = subst (λ y. is_alive s y ≡ true) (sym e) a in
      ground (arith, a')
  | inr miss ↦ ground (arith, find_cell-alive s uuid l c)
]

pub find_cell-set_cell :
    (uuid : String) (g : Generation) (l : List Cell) (c : Cell)
    → g.uuid ≡ uuid
    → find_cell uuid l ≡ some c
    → find_cell uuid (set_cell uuid g l) ≡ some (record c { generation = g })
unfolding set_cell
find_cell-set_cell uuid g [] c same h = absurd (cc)
find_cell-set_cell uuid g (x ∷ l) c same h =
    ground (arith, eq_iff g.uuid uuid, find_cell-set_cell uuid g l c same)

-- The cells of one address.
occurs : Option ℕ → List Cell → ℕ
occurs r [] = 0
occurs r (c ∷ l) = let rest = occurs r l in if is_ref r c then suc rest else rest

length-alive_cells :
    (s : Store) (l : List Cell)
    → length (alive_cells s l)
      ≤ occurs s.last_eval_started l
        + occurs s.last_eval_finished l
        + occurs s.last_build_started l
        + occurs s.last_build_finished l
unfolding alive_cells is_alive occurs
length-alive_cells s [] = omega arith
length-alive_cells s (c ∷ l) = ground (arith, length-alive_cells s l)

-- Addresses are below the next one, and no two cells share one.
abbrev pub AreBelow : ℕ → List Cell → Type 0
AreBelow n = All (λ c. c.ref < n)

abbrev pub HaveRefs : List Cell → Type 0
HaveRefs [] = Unit
HaveRefs (c ∷ l) = All (λ e. e.ref ≢ c.ref) l × HaveRefs l

occurs_absent : (r : ℕ) (l : List Cell) → All (λ e. e.ref ≢ r) l → occurs (some r) l ≡ 0
unfolding occurs
occurs_absent r [] h = refl
occurs_absent r (c ∷ l) h = ground (arith, occurs_absent r l h.1, h.0)

occurs-le : (r : Option ℕ) (l : List Cell) → HaveRefs l → occurs r l ≤ 1
unfolding occurs
occurs-le r [] h = omega arith
occurs-le none (c ∷ l) h = ground (arith, occurs-le none l h.1)
occurs-le (some r) (c ∷ l) h = elim (Bool-cases (nat_eq c.ref r)) [
  | inl hit ↦
      let e : c.ref ≡ r = ground arith in
      rw hit (omega (arith, occurs_absent r l (subst (λ (n : ℕ). All (λ e'. e'.ref ≢ n) l) e h.0)))
  | inr miss ↦ rw miss (occurs-le (some r) l h.1)
]

pub length-alive_cells-le : (s : Store) (l : List Cell) → HaveRefs l → length (alive_cells s l) ≤ 4
length-alive_cells-le s l h = omega (
  arith,
  length-alive_cells s l,
  occurs-le s.last_eval_started l h,
  occurs-le s.last_eval_finished l h,
  occurs-le s.last_build_started l h,
  occurs-le s.last_build_finished l h,
)

pub alive_cells-All :
    (P : Cell → Type 0) (s : Store) (l : List Cell) → All P l → All P (alive_cells s l)
unfolding alive_cells
alive_cells-All P s [] h = tt
alive_cells-All P s (c ∷ l) h = elim (Bool-cases (is_alive s c)) [
  | inl live ↦ rw live (h.0, alive_cells-All P s l h.1)
  | inr dead ↦ rw dead (alive_cells-All P s l h.1)
]

pub alive_cells-alive :
    (s : Store) (l : List Cell) → All (λ c. is_alive s c ≡ true) (alive_cells s l)
unfolding alive_cells
alive_cells-alive s [] = tt
alive_cells-alive s (c ∷ l) = elim (Bool-cases (is_alive s c)) [
  | inl live ↦ rw live (live, alive_cells-alive s l)
  | inr dead ↦ rw dead (alive_cells-alive s l)
]

pub alive_cells-HaveRefs : (s : Store) (l : List Cell) → HaveRefs l → HaveRefs (alive_cells s l)
unfolding alive_cells
alive_cells-HaveRefs s [] h = tt
alive_cells-HaveRefs s (c ∷ l) h = elim (Bool-cases (is_alive s c)) [
  | inl live ↦ rw live (alive_cells-All (λ e. e.ref ≢ c.ref) s l h.0, alive_cells-HaveRefs s l h.1)
  | inr dead ↦ rw dead (alive_cells-HaveRefs s l h.1)
]

pub set_cell-All :
    (P : ℕ → Type 0) (uuid : String) (g : Generation) (l : List Cell)
    → All (λ c. P c.ref) l
    → All (λ c. P c.ref) (set_cell uuid g l)
unfolding set_cell
set_cell-All P uuid g [] h = tt
set_cell-All P uuid g (c ∷ l) h = elim (Bool-cases (c.generation.uuid == uuid)) [
  | inl hit ↦ rw hit h
  | inr miss ↦ rw miss (h.0, set_cell-All P uuid g l h.1)
]

pub set_cell-HaveRefs :
    (uuid : String) (g : Generation) (l : List Cell) → HaveRefs l → HaveRefs (set_cell uuid g l)
unfolding set_cell
set_cell-HaveRefs uuid g [] h = tt
set_cell-HaveRefs uuid g (c ∷ l) h = elim (Bool-cases (c.generation.uuid == uuid)) [
  | inl hit ↦ rw hit h
  | inr miss ↦ rw miss (set_cell-All (λ r. r ≢ c.ref) uuid g l h.0, set_cell-HaveRefs uuid g l h.1)
]
