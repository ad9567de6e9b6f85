-- ===== src/Store/Inhibitors.antt =====
-- The switch inhibitors of two systems (internal/store/deployment.go), and the operation that is
-- carried out where they differ. A map is the list of its entries in the order of the iteration.
use comin.Base.{
  ◌≡◌, refl, sym, ap, ◌∙◌, ◌≢◌, inl, inr, Bool, true, false, not, Option, none, some, List, [], ◌∷◌,
  String, ◌==◌, eq_iff, eq_refl, arith, if◌then◌else◌, lookup, insert, delete, has_key, keys,
  Distinct, lookup-insert, lookup-delete, lookup_absent, Bool-cases,
}
use comin.Types.{Inhibitors, operation_test, operation_switch, operation_boot, operation_null}

pub record InhibitorChange : Type 0 where
  pub old : String
  pub new : String

abbrev pub Diff : Type 0
Diff = List (String × InhibitorChange)

-- The loop over `current`.
unfoldable pub collect_current : Inhibitors → Inhibitors → Diff → Diff
collect_current new [] diff = diff
collect_current new ((k, v) ∷ current) diff =
    collect_current new current
      (if has_key k new then insert k (record { old = v; new = "" }) diff else diff)

unfoldable pub apply_entry : String → String → Option InhibitorChange → Diff → Diff
apply_entry k v none diff = diff
apply_entry k v (some existing) diff =
    if not (existing.old == v) then insert k (record existing { new = v }) diff else delete k diff

-- The loop over `new`.
unfoldable pub apply_new : Inhibitors → Diff → Diff
unfolding apply_entry
apply_new [] diff = diff
apply_new ((k, v) ∷ new) diff = apply_new new (apply_entry k v (lookup k diff) diff)

unfoldable pub compare_switch_inhibitors : Inhibitors → Inhibitors → Diff
unfolding collect_current apply_new
compare_switch_inhibitors current new = apply_new new (collect_current new current [])

abbrev is_some {ℓ} : {A : Type ℓ} → Option A → Bool
is_some none = false
is_some (some x) = true

abbrev pub is_empty {ℓ} : {A : Type ℓ} → List A → Bool
is_empty [] = true
is_empty (x ∷ xs) = false

unfoldable pub compute_operation : String → Inhibitors → Inhibitors → String × String
unfolding compare_switch_inhibitors
compute_operation operation current new =
    let diff = compare_switch_inhibitors current new in
    if operation == operation_test
    then (if is_empty diff then (operation, "") else (
      operation_null, "The test operation is not possible because of different switch inhibitors",
    ))
    else if operation == operation_switch
    then (if is_empty diff then (operation, "") else (
      operation_boot,
      "Using the boot operation instead of switch operation because of diffrent switch inhibitors",
    ))
    else (operation, "")

has_key-lookup : (k : String) (m : Inhibitors) → has_key k m ≡ is_some (lookup k m)
has_key-lookup k [] = refl
has_key-lookup k ((j, v) ∷ m) = ground (arith, has_key-lookup k m)

-- What the first loop records of a key.
abbrev first_pass :
    Inhibitors → String → Option String → Option InhibitorChange → Option InhibitorChange
first_pass new k none rest = rest
first_pass new k (some v) rest = if has_key k new then some (record { old = v; new = "" }) else rest

lookup-collect_current :
    (new current : Inhibitors) (k : String) (diff : Diff)
    → Distinct (keys current)
    → lookup k (collect_current new current diff)
      ≡ first_pass new k (lookup k current) (lookup k diff)
unfolding collect_current
lookup-collect_current new [] k diff h = refl
lookup-collect_current new ((j, v) ∷ current) k diff h = ground (
  arith,
  eq_iff j k,
  lookup_absent j current h.0,
  lookup-insert j k (record { old = v; new = "" }) diff,
  lookup-collect_current new current k
      (if has_key j new then insert j (record { old = v; new = "" }) diff else diff) h.1,
)

-- What the second loop makes of it.
abbrev second_pass : Option String → Option InhibitorChange → Option InhibitorChange
second_pass none change = change
second_pass (some v) none = none
second_pass (some v) (some change) =
    if change.old == v then none else some (record change { new = v })

lookup-apply_entry :
    (k v j : String) (diff : Diff) (e : Option InhibitorChange)
    → lookup k diff ≡ e
    → lookup j (apply_entry k v e diff) ≡ (if k == j then second_pass (some v) e else lookup j diff)
unfolding apply_entry
lookup-apply_entry k v j diff none h = ground (arith, eq_iff k j)
lookup-apply_entry k v j diff (some c) h =
    ground (arith, lookup-insert k j (record c { new = v }) diff, lookup-delete k j diff)

lookup-apply_new :
    (new : Inhibitors) (k : String) (diff : Diff)
    → Distinct (keys new)
    → lookup k (apply_new new diff) ≡ second_pass (lookup k new) (lookup k diff)
unfolding apply_new
lookup-apply_new [] k diff h = refl
lookup-apply_new ((j, v) ∷ new) k diff h = ground (
  arith,
  eq_iff j k,
  lookup_absent j new h.0,
  lookup-apply_entry j v k diff (lookup j diff) refl,
  lookup-apply_new new k (apply_entry j v (lookup j diff) diff) h.1,
)

-- The specification: a key that both maps have, with two values.
abbrev pub change_of : Option String → Option String → Option InhibitorChange
change_of (some v) (some w) = if v == w then none else some (record { old = v; new = w })
change_of _ _ = none

-- For each key the result holds the old and the new value where both maps have the key with
-- different values, and nothing otherwise; so a key that only one map has is no change.
pub lookup-compare_switch_inhibitors :
    (current new : Inhibitors) (k : String)
    → Distinct (keys current)
    → Distinct (keys new)
    → lookup k (compare_switch_inhibitors current new) ≡ change_of (lookup k current) (lookup k new)
unfolding compare_switch_inhibitors
lookup-compare_switch_inhibitors current new k hc hn = ground (
  arith,
  has_key-lookup k new,
  lookup-collect_current new current k [] hc,
  lookup-apply_new new k (collect_current new current []) hn,
)

-- A key that both maps have with different values.
pub record IsConflict (current new : Inhibitors) : Type 0 where
  pub key : String
  pub was : String
  pub becomes : String
  pub in_current : lookup key current ≡ some was
  pub in_new : lookup key new ≡ some becomes
  pub differ : was ≢ becomes

change_of_conflict :
    (v w : String) → v ≢ w → change_of (some v) (some w) ≡ some (record { old = v; new = w })
change_of_conflict v w h = ground (arith, eq_iff v w)

lookup_head : (k : String) (c : InhibitorChange) (diff : Diff) → lookup k ((k, c) ∷ diff) ≡ some c
lookup_head k c diff = rw (eq_refl k)

nonempty_of_lookup :
    (k : String) (diff : Diff) (c : InhibitorChange)
    → lookup k diff ≡ some c
    → is_empty diff ≡ false
nonempty_of_lookup k [] c h = cc
nonempty_of_lookup k (e ∷ diff) c h = refl

IsConflict-of_change :
    (current new : Inhibitors) (k : String) (v w : Option String) (c : InhibitorChange)
    → lookup k current ≡ v
    → lookup k new ≡ w
    → change_of v w ≡ some c
    → IsConflict current new
IsConflict-of_change current new k (some v) (some w) c hv hw h = record {
  key = k;
  was = v;
  becomes = w;
  in_current = hv;
  in_new = hw;
  differ = λ e. ground (arith, eq_iff v w);
}
IsConflict-of_change current new k none w c hv hw h = absurd (cc)
IsConflict-of_change current new k (some v) none c hv hw h = absurd (cc)

module _ (current new : Inhibitors) (hc : Distinct (keys current)) (hn : Distinct (keys new)) where
  nonempty_of_IsConflict :
      IsConflict current new → is_empty (compare_switch_inhibitors current new) ≡ false
  nonempty_of_IsConflict x =
      nonempty_of_lookup x.key _ (record { old = x.was; new = x.becomes })
        (lookup-compare_switch_inhibitors current new x.key hc hn
          ∙ rw (x.in_current, x.in_new) (change_of_conflict x.was x.becomes x.differ))

  IsConflict-of_entry :
      (diff : Diff)
      → compare_switch_inhibitors current new ≡ diff
      → is_empty diff ≡ false
      → IsConflict current new
  IsConflict-of_entry [] e h = absurd (cc)
  IsConflict-of_entry ((k, c) ∷ diff) e h = IsConflict-of_change current new k _ _ c refl refl (
      sym (lookup-compare_switch_inhibitors current new k hc hn)
      ∙ ap (lookup k) e
      ∙ lookup_head k c diff)

  empty_of_no_IsConflict :
      ¬ IsConflict current new → is_empty (compare_switch_inhibitors current new) ≡ true
  empty_of_no_IsConflict none_of =
      elim (Bool-cases (is_empty (compare_switch_inhibitors current new))) [
        | inl e ↦ e
        | inr e ↦
            absurd (none_of (IsConflict-of_entry (compare_switch_inhibitors current new) refl e))
      ]

  -- Where the two systems have different values for an inhibitor that both have, a submitted switch
  -- becomes a boot and a submitted test becomes the null operation. The maps have distinct keys.
  pub compute_operation-IsConflict :
      IsConflict current new
      → ((compute_operation operation_switch current new).0 ≡ operation_boot)
        × ((compute_operation operation_test current new).0 ≡ operation_null)
  unfolding compute_operation
  compute_operation-IsConflict x = (rw (nonempty_of_IsConflict x), rw (nonempty_of_IsConflict x))

  -- Where the two systems agree on all inhibitors that both have, every operation is carried out as
  -- submitted. The maps have distinct keys.
  pub compute_operation-agreement :
      (operation : String)
      → ¬ IsConflict current new
      → (compute_operation operation current new).0 ≡ operation
  unfolding compute_operation
  compute_operation-agreement operation x = ground (arith, empty_of_no_IsConflict x)
