-- ===== src/Repository/Selection.antt =====
-- What `Update` selects: the invariant of its two loops.
use comin.Base.{
  ◌≡◌, refl, sym, subst, ◌∙◌, ◌⊎◌, inl, inr, false, ◌&&◌, ◌||◌, not, List, [], ◌∷◌, String, ◌==◌,
  eq_iff, Result-cases, Bool-cases, arith,
}
use comin.Types.{Remote, GitRepositoryStatus}
use comin.Repository.{
  GitRepository, get_head_from_remote_and_branch, Choice, main_loop, testing_loop, first_main,
  new_main, Verifier, verify_selected, store_selected, walk, conclude, update,
}
use comin.Repository.Forward.{IsForward, head-IsForward}

-- With `m` the main commit and `k` the selected commit before the loops: nothing is selected, or a
-- commit on top of the main commit is.
record IsChosen (r : GitRepository) (m k : String) (c : Choice) : Type 0 where
  forward : IsForward r m c.status.main_commit_id
  chosen : (c.selected ≡ "") ⊎ IsForward r c.status.main_commit_id c.selected
  kept : c.status.selected_commit_id ≡ k

-- Before the main loop ends, the main commit is still the old one.
record IsStarting (r : GitRepository) (m k : String) (c : Choice) : Type 0 where
  main : c.status.main_commit_id ≡ m
  chosen : (c.selected ≡ "") ⊎ (c.selected ≡ m)
  kept : c.status.selected_commit_id ≡ k

starting-IsChosen :
    (r : GitRepository) (m k : String) (c : Choice) → IsStarting r m k c → IsChosen r m k c
starting-IsChosen r m k c h = record {
  forward = inr (inl (sym h.main));
  chosen = elim h.chosen [ inl e ↦ inl e | inr e ↦ inr (inr (inl (h.main ∙ sym e))) ];
  kept = h.kept;
}

first-IsStarting :
    (r : GitRepository) (m k : String) (c : Choice) (head msg : String) (x : Remote)
    → IsStarting r m k c
    → head ≡ m
    → IsStarting r m k (first_main c head msg x)
first-IsStarting r m k c head msg x h e = elim (Bool-cases (c.selected == "")) [
  | inl t ↦ rw t (record { main = h.main; chosen = inr e; kept = h.kept })
  | inr t ↦ rw t h
]

new-IsChosen :
    (r : GitRepository) (m k : String) (c : Choice) (head msg : String) (x : Remote)
    → IsStarting r m k c
    → IsForward r m head
    → IsChosen r m k (new_main (first_main c head msg x) head msg x)
new-IsChosen r m k c head msg x h f = record {
  forward = f;
  chosen = inr (inr (inl refl));
  kept = elim (Bool-cases (c.selected == "")) [ inl t ↦ rw t h.kept | inr t ↦ rw t h.kept ];
}

main_loop-IsChosen :
    (r : GitRepository) (m k : String) (xs : List Remote) (c : Choice)
    → IsStarting r m k c
    → IsChosen r m k (main_loop r xs c).1
unfolding main_loop
main_loop-IsChosen r m k [] c h = starting-IsChosen r m k c h
main_loop-IsChosen r m k (x ∷ xs) c h = elim (Bool-cases (x.fetch_error_msg == "")) [
  | inr e ↦ rw (e, main_loop) (main_loop-IsChosen r m k xs c h)
  | inl e ↦
      elim (Result-cases
        (get_head_from_remote_and_branch r x.name x.main.name c.status.main_commit_id)) [
          | inr (msg, f) ↦ rw (e, f, main_loop) (main_loop-IsChosen r m k xs c h)
          | inl ((head, msg), f) ↦ elim (Bool-cases (head == c.status.main_commit_id)) [
            | inl g ↦
                let same : head ≡ m = ground (arith, eq_iff head c.status.main_commit_id, h.main) in
                rw (e, f, g, main_loop)
                  (main_loop-IsChosen r m k xs _ (first-IsStarting r m k c head msg x h same))
            | inr g ↦
                let ahead =
                  head-IsForward r x.name x.main.name c.status.main_commit_id head msg f in
                rw (e, f, g, main_loop)
                  (new-IsChosen r m k c head msg x h (subst (λ b. IsForward r b head) h.main ahead))
          ]
        ]
]

testing_loop-IsChosen :
    (r : GitRepository) (m k : String) (xs : List Remote) (c : Choice)
    → IsChosen r m k c
    → IsChosen r m k (testing_loop r xs c).1
unfolding testing_loop
testing_loop-IsChosen r m k [] c h = h
testing_loop-IsChosen r m k (x ∷ xs) c h =
    elim (Bool-cases (x.fetch_error_msg == "" && not (x.testing.name == ""))) [
      | inr e ↦ rw (e, testing_loop) (testing_loop-IsChosen r m k xs c h)
      | inl e ↦
          elim (Result-cases
            (get_head_from_remote_and_branch r x.name x.testing.name c.status.main_commit_id)) [
              | inr (msg, f) ↦ rw (e, f, testing_loop) (testing_loop-IsChosen r m k xs c h)
              | inl ((head, msg), f) ↦
                  elim (Bool-cases (head == c.selected || head == c.status.main_commit_id)) [
                    | inl g ↦ rw (e, f, g, testing_loop) (testing_loop-IsChosen r m k xs c h)
                    | inr g ↦
                        let ahead =
                          head-IsForward r x.name x.testing.name c.status.main_commit_id head msg
                            f in
                        rw (e, f, g, testing_loop)
                          (record { forward = h.forward; chosen = inr ahead; kept = h.kept })
                  ]
            ]
    ]

pub signed-main :
    (v : Verifier) (selected : String) (s : GitRepositoryStatus)
    → ((verify_selected v selected s).main_commit_id ≡ s.main_commit_id)
      × ((verify_selected v selected s).selected_commit_id ≡ s.selected_commit_id)
unfolding verify_selected
signed-main v selected s = elim (Bool-cases v.has_keys) [
  | inr e ↦ ground arith
  | inl e ↦ elim (Result-cases (v.signed_by selected)) [
    | inl (signer, f) ↦ ground arith
    | inr (msg, f) ↦ ground arith
  ]
]

walk-IsChosen :
    (r : GitRepository) (s : GitRepositoryStatus)
    → IsChosen r s.main_commit_id s.selected_commit_id (walk r s).1
unfolding walk
walk-IsChosen r s =
    let (remotes, c) = main_loop r s.remotes (record { selected = ""; status = s }) in
    testing_loop-IsChosen r _ _ remotes c (
      main_loop-IsChosen r _ _ s.remotes _ (record { main = refl; chosen = inl refl; kept = refl }))

conclude-IsForward :
    (r : GitRepository) (v : Verifier) (m k : String) (w : List Remote × Choice)
    → IsChosen r m k w.1
    → IsForward r m (conclude v w).main_commit_id
      × (((conclude v w).selected_commit_id ≡ k)
          ⊎ IsForward r (conclude v w).main_commit_id (conclude v w).selected_commit_id)
conclude-IsForward r v m k (remotes, c) h =
    let s' : GitRepositoryStatus = record (store_selected c) { remotes = remotes } in
    let same = signed-main v c.selected s' in
    rw (same.0, same.1)
      (elim (Bool-cases (c.selected == "")) [
        | inl e ↦ rw e (h.forward, inl h.kept)
        | inr e ↦ rw e (h.forward, elim h.chosen [ inl f ↦ absurd (differs f e) | inr f ↦ inr f ])
      ])
  where
    differs : c.selected ≡ "" → (c.selected == "") ≡ false → ⊥
    differs f e = ground (arith, eq_iff c.selected "")

-- After an update, whatever the remotes and their references are, the main commit is the one before
-- or has it in its history, or there was none before. The selected commit is the one selected before,
-- or stands in this way to the new main commit.
pub update-IsForward :
    (r : GitRepository) (v : Verifier) (s : GitRepositoryStatus)
    → let s' = update r v s in
      IsForward r s.main_commit_id s'.main_commit_id
      × ((s'.selected_commit_id ≡ s.selected_commit_id)
          ⊎ IsForward r s'.main_commit_id s'.selected_commit_id)
unfolding update
update-IsForward r v s = conclude-IsForward r v _ _ (walk r s) (walk-IsChosen r s)
