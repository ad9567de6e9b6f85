-- ===== src/Manager/Gates.antt =====
-- What the manager lets through: to the builder, to the confirmers and to the deployer.
use comin.Base.{
  ℕ, ◌≡◌, refl, ◌≢◌, inl, inr, Bool, true, false, ◌&&◌, ◌||◌, List, String, ◌==◌, err, Result-cases,
  Bool-cases, arith,
}
use comin.Types.{Remote, GitRepositoryStatus}
use comin.Builder.{Evaluation}
use comin.Fetcher.{is_verified}
use comin.Repository.{GitRepository, Choice, Verifier, verify_selected, walk, conclude, update}
use comin.Repository.Signatures.{Objects, SshAllowedSigner, verifier, is_nonempty}
use comin.Repository.Accepted.{IsSignedBy}
use comin.Repository.Verified.{update-signed}
use comin.Manager.{Manager, on_fetched}

on_fetched-refused :
    (rs : GitRepositoryStatus) (updated verified : Bool) (uuid : String) (stopped : Evaluation)
    (now : ℕ) (m : Manager)
    → (updated && verified) ≡ false
    → on_fetched rs updated verified uuid stopped now m ≡ m
unfolding on_fetched
on_fetched-refused rs updated verified uuid stopped now m h = go updated verified h
  where
    go : (u v : Bool) → (u && v) ≡ false → on_fetched rs u v uuid stopped now m ≡ m
    go false v e = refl
    go true false e = refl
    go true true e = ground arith

should_be_signed :
    (v : Verifier) (w : List Remote × Choice)
    → v.has_keys ≡ true
    → (conclude v w).selected_commit_should_be_signed ≡ true
unfolding verify_selected
should_be_signed v (remotes, c) keys = elim (Result-cases (v.signed_by c.selected)) [
  | inl (signer, f) ↦ elim (Bool-cases (signer == "")) [
    | inl g ↦ ground arith
    | inr g ↦ ground arith
  ]
  | inr (m, f) ↦ ground arith
]

update-should :
    (r : GitRepository) (objects : Objects) (keys : List String) (signers : List SshAllowedSigner)
    (s : GitRepositoryStatus)
    → (is_nonempty keys || is_nonempty signers) ≡ true
    → (update r (verifier objects keys signers) s).selected_commit_should_be_signed ≡ true
unfolding update verifier
update-should r objects keys signers s configured =
    should_be_signed (verifier objects keys signers) (walk r s) configured

unsigned_is_unverified :
    (rs : GitRepositoryStatus)
    → rs.selected_commit_should_be_signed ≡ true
    → rs.selected_commit_signed ≡ false
    → is_verified rs ≡ false
unfolding is_verified
unsigned_is_unverified rs should unsigned = rw (should, unsigned, is_verified) refl

-- Only signed commits are evaluated: with some key configured, and where no commit has the empty hash,
-- if the manager does anything on the event that the fetcher publishes of an update of the
-- repository, then a configured key or an allowed signer has signed the selected commit.
pub evaluated_is_signed :
    (r : GitRepository) (objects : Objects) (keys : List String) (signers : List SshAllowedSigner)
    (s : GitRepositoryStatus) (e : String) (updated : Bool) (uuid : String) (stopped : Evaluation)
    (now : ℕ) (m : Manager)
    → (is_nonempty keys || is_nonempty signers) ≡ true
    → objects.commit_object "" ≡ err e
    → (let rs = update r (verifier objects keys signers) s in
        on_fetched rs updated (is_verified rs) uuid stopped now m)
      ≢ m
    → let rs = update r (verifier objects keys signers) s in
      IsSignedBy objects keys signers rs.selected_commit_id rs.selected_commit_signed_by
evaluated_is_signed r objects keys signers s e updated uuid stopped now m configured nobody acts =
    elim (Bool-cases (update r (verifier objects keys signers) s).selected_commit_signed) [
      | inl signed ↦ update-signed r objects keys signers s e configured nobody signed
      | inr unsigned ↦ absurd (
          acts (
            on_fetched-refused (update r (verifier objects keys signers) s) updated _ uuid stopped
              now m
              (never updated _ (
                unsigned_is_unverified (update r (verifier objects keys signers) s)
                  (update-should r objects keys signers s configured) unsigned))))
    ]
  where
    never : (u v : Bool) → v ≡ false → (u && v) ≡ false
    never u v h = ground arith
