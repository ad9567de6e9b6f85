-- ===== src/Fetcher/Pending.antt =====
-- No remote that is submitted is forgotten, and no two fetches run at once.
use comin.Base.{
  ◌≡◌, refl, sym, ap, subst, ◌∙◌, inl, inr, Bool, true, false, ◌&&◌, ◌||◌, not, Option, none, some,
  List, [], ◌∷◌, ◌++◌, String, ◌==◌, eq_iff, contains, contains-append, Distinct, Distinct-append,
  Bool-cases, Option-cases, arith,
}
use comin.Types.{GitRepositoryStatus}
use comin.Fetcher.{
  Fetcher, new_fetcher, union, Message, submitted, returned, receive, receive_status, is_empty,
  launch, step, run,
}

-- `union` holds what one of the lists holds.
pub contains-union :
    (l m : List String) (s : String) → contains (union l m) s ≡ (contains l s || contains m s)
unfolding union
contains-union l [] s = ground arith
contains-union l (e ∷ m) s = elim (Bool-cases (contains l e)) [
  | inl old ↦ rw old (contains-union l m s ∙ absorb old)
  | inr new ↦ rw new (
      contains-union (l ++ e ∷ []) m s
      ∙ ap (λ b. b || contains m s) (contains-append l (e ∷ []) s)
      ∙ ground arith)
]
  where
    absorb :
        contains l e ≡ true
        → (contains l s || contains m s) ≡ (contains l s || (e == s || contains m s))
    absorb old = elim (Bool-cases (e == s)) [
      | inr other ↦ rw other refl
      | inl same ↦
          let e≡s : e ≡ s = ground (arith, eq_iff e s) in
          let there : contains l s ≡ true = subst (λ u. contains l u ≡ true) e≡s old in
          rw there refl
    ]

pub Distinct-union : (l m : List String) → Distinct l → Distinct (union l m)
unfolding union
Distinct-union l [] h = h
Distinct-union l (e ∷ m) h = elim (Bool-cases (contains l e)) [
  | inl old ↦ rw old (Distinct-union l m h)
  | inr new ↦ rw new (Distinct-union (l ++ e ∷ []) m (Distinct-append l e new h))
]

abbrev pub is_running : Option (List String) → Bool
is_running none = false
is_running (some l) = true

-- The flag tells of the worker, no remote waits while none runs, and none waits twice.
pub record IsValid (f : Fetcher) : Type 0 where
  pub flag : f.is_fetching ≡ is_running f.worker
  pub busy : (not f.is_fetching && not (is_empty f.remotes)) ≡ false
  pub distinct : Distinct f.remotes

launch-IsValid :
    (f : Fetcher) → f.is_fetching ≡ is_running f.worker → Distinct f.remotes → IsValid (launch f)
unfolding launch
launch-IsValid f flag d = elim (Bool-cases (not f.is_fetching && not (is_empty f.remotes))) [
  | inl e ↦ rw (e, launch) (record { flag = refl; busy = refl; distinct = tt })
  | inr e ↦ rw (e, launch) (record { flag = flag; busy = e; distinct = d })
]

step-IsValid : (f : Fetcher) (m : Message) → IsValid f → IsValid (step f m)
unfolding step receive receive_status
step-IsValid f (submitted l) v =
    launch-IsValid (record f { remotes = union f.remotes l }) v.flag
      (Distinct-union f.remotes l v.distinct)
step-IsValid f (returned rs) v = elim (Option-cases f.worker) [
  | inl e ↦
      let same : receive (returned rs) f ≡ f = simp (e, receive) in
      subst (λ f'. IsValid (launch f')) (sym same) (launch-IsValid f v.flag v.distinct)
  | inr (l, e) ↦
      let same : receive (returned rs) f ≡ receive_status rs f = simp (e, receive) in
      subst (λ f'. IsValid (launch f')) (sym same)
        (launch-IsValid (receive_status rs f) refl v.distinct)
]

-- After any messages to a new fetcher, `isFetching` is set exactly if a fetch runs, no remote waits
-- unless one runs, and no remote waits twice.
pub run-IsValid : (rs : GitRepositoryStatus) (ms : List Message) → IsValid (run (new_fetcher rs) ms)
unfolding run new_fetcher
run-IsValid rs ms = go (new_fetcher rs) ms (record { flag = refl; busy = refl; distinct = tt })
  where
    go : (f : Fetcher) (l : List Message) → IsValid f → IsValid (run f l)
    go f [] v = v
    go f (m ∷ l) v = go (step f m) l (step-IsValid f m v)

abbrev pub is_fetched : Option (List String) → String → Bool
is_fetched none s = false
is_fetched (some l) s = contains l s

abbrev pub names : Message → String → Bool
names (submitted l) s = contains l s
names (returned rs) s = false

launch-waits :
    (f : Fetcher) (s : String)
    → contains f.remotes s ≡ true
    → (contains (launch f).remotes s || is_fetched (launch f).worker s) ≡ true
unfolding launch
launch-waits f s h = elim (Bool-cases (not f.is_fetching && not (is_empty f.remotes))) [
  | inl e ↦ rw (e, launch) h
  | inr e ↦ rw (e, launch, h) refl
]

-- A remote that waits or is submitted is not forgotten: after the message it still waits, or a fetch
-- of it runs.
pub step_forgets_nothing :
    (f : Fetcher) (m : Message) (s : String)
    → (contains f.remotes s || names m s) ≡ true
    → (contains (step f m).remotes s || is_fetched (step f m).worker s) ≡ true
unfolding step receive receive_status
step_forgets_nothing f (submitted l) s h =
    launch-waits (record f { remotes = union f.remotes l }) s (contains-union f.remotes l s ∙ h)
step_forgets_nothing f (returned rs) s h =
    let waits : contains f.remotes s ≡ true = ground arith in
    elim (Option-cases f.worker) [
      | inl e ↦
          let same : receive (returned rs) f ≡ f = simp (e, receive) in
          subst (λ f'. (contains (launch f').remotes s || is_fetched (launch f').worker s) ≡ true)
            (sym same) (launch-waits f s waits)
      | inr (l, e) ↦
          let same : receive (returned rs) f ≡ receive_status rs f = simp (e, receive) in
          subst (λ f'. (contains (launch f').remotes s || is_fetched (launch f').worker s) ≡ true)
            (sym same) (launch-waits (receive_status rs f) s waits)
    ]
