-- ===== src/Repository/Verified.antt =====
-- What the flags of the signature tell of the selected commit.
use comin.Base.{
  ◌≡◌, refl, sym, ap, ◌∙◌, inl, inr, true, false, ◌||◌, List, String, ◌==◌, eq_iff, ok, err,
  Result-cases, Bool-cases, arith,
}
use comin.Types.{Remote, GitRepositoryStatus}
use comin.Repository.{
  GitRepository, Choice, Verifier, verify_selected, store_selected, walk, conclude, update,
}
use comin.Repository.Selection.{signed-main}
use comin.Repository.Accepted.{IsSignedBy, commit_signed_by-IsSignedBy}
use comin.Repository.Signatures.{Objects, SshAllowedSigner, commit_signed_by, verifier, is_nonempty}

verified :
    (v : Verifier) (selected e : String) (s : GitRepositoryStatus)
    → v.has_keys ≡ true
    → v.signed_by "" ≡ err e
    → (verify_selected v selected s).selected_commit_signed ≡ true
    → v.signed_by selected ≡ ok (verify_selected v selected s).selected_commit_signed_by
unfolding verify_selected
verified v selected e s keys nobody signed = elim (Result-cases (v.signed_by selected)) [
  | inr (m, f) ↦ absurd (ground arith)
  | inl (signer, f) ↦ elim (Bool-cases (signer == "")) [
    | inl g ↦ absurd (ground arith)
    | inr g ↦ f ∙ ap ok (sym (ground arith))
  ]
]

-- An empty selection is not signed.
selected_is_real :
    (v : Verifier) (selected e : String) (s : GitRepositoryStatus)
    → v.has_keys ≡ true
    → v.signed_by "" ≡ err e
    → (verify_selected v selected s).selected_commit_signed ≡ true
    → (selected == "") ≡ false
unfolding verify_selected
selected_is_real v selected e s keys nobody signed = elim (Bool-cases (selected == "")) [
  | inr h ↦ h
  | inl h ↦
      let empty : selected ≡ "" = ground (arith, eq_iff selected "") in
      let failed : v.signed_by selected ≡ err e = ap v.signed_by empty ∙ nobody in
      absurd (ground arith)
]

stored :
    (c : Choice) → (c.selected == "") ≡ false → (store_selected c).selected_commit_id ≡ c.selected
stored c h = rw h refl

conclude-verified :
    (v : Verifier) (w : List Remote × Choice) (e : String)
    → v.has_keys ≡ true
    → v.signed_by "" ≡ err e
    → (conclude v w).selected_commit_signed ≡ true
    → v.signed_by (conclude v w).selected_commit_id ≡ ok (conclude v w).selected_commit_signed_by
conclude-verified v (remotes, c) e keys nobody signed =
    let s' : GitRepositoryStatus = record (store_selected c) { remotes = remotes } in
    let real = selected_is_real v c.selected e s' keys nobody signed in
    let same = (signed-main v c.selected s').1 ∙ stored c real in
    ap v.signed_by same ∙ verified v c.selected e s' keys nobody signed

missing_is_unsigned :
    (objects : Objects) (keys : List String) (signers : List SshAllowedSigner) (id e : String)
    → objects.commit_object id ≡ err e
    → (m : String) × (commit_signed_by objects keys signers id ≡ err m)
missing_is_unsigned objects keys signers id e h =
    elim (Result-cases (commit_signed_by objects keys signers id)) [
      | inr (m, f) ↦ (m, f)
      | inl (name, f) ↦
          let (c, found, _) = commit_signed_by-IsSignedBy objects keys signers id name f in
          absurd (ground arith)
    ]

-- A commit that `Update` reports as signed is one that it has verified: with some key configured, and
-- where no commit has the empty hash, the selected commit itself is signed by a configured key or an
-- allowed signer with the name that the status gives.
pub update-signed :
    (r : GitRepository) (objects : Objects) (keys : List String) (signers : List SshAllowedSigner)
    (s : GitRepositoryStatus) (e : String)
    → (is_nonempty keys || is_nonempty signers) ≡ true
    → objects.commit_object "" ≡ err e
    → (update r (verifier objects keys signers) s).selected_commit_signed ≡ true
    → let s' = update r (verifier objects keys signers) s in
      IsSignedBy objects keys signers s'.selected_commit_id s'.selected_commit_signed_by
unfolding update verifier
update-signed r objects keys signers s e configured nobody signed =
    let (m, refused) = missing_is_unsigned objects keys signers "" e nobody in
    commit_signed_by-IsSignedBy objects keys signers _ _
      (conclude-verified (verifier objects keys signers) (walk r s) m configured refused signed)
