-- ===== src/Repository/Accepted.antt =====
-- Whom `commitSignedBy` accepts.
use mathlib.Core.List.{Memᴰ}
use comin.Base.{
  ◌≡◌, ◌≢◌, refl, ◌∙◌, ◌⊎◌, inl, inr, true, false, subst, nat_eq, Option, none, some, List, [], ◌∷◌,
  String, ◌==◌, eq_iff, ok, Result-cases, Option-cases, Bool-cases, arith,
}
use comin.Base.Texts.{trim_space, drop_prefix}
use comin.Repository.Signatures.{
  Objects, CommitObject, SshSignature, SshSignatureWire, CryptoSignature, is_armoured, parse_wire,
  parse_ssh_signature, unsupported_algorithm, SshAllowedSigner, commit_signed_by,
  commit_signed_by_gpg, commit_signed_by_ssh, ssh_signed_data, try_ssh, gpg_loop, ssh_loop,
  check_ssh, accepts,
}

-- A key of the list verifies the commit for the name.
abbrev pub HasKey : CommitObject → List String → String → Type 0
HasKey c keys name = (k : String) × Memᴰ k keys × (c.verify_gpg k ≡ some name)

-- No algorithm that rests on SHA-1.
abbrev pub IsModern : CryptoSignature → Type 0
IsModern s = (s.format ≢ "ssh-rsa") × (s.format ≢ "ssh-dss")

-- A signer of the list with the name is accepted for the Git signature of the commit.
pub record HasSigner (objects : Objects) (c : CommitObject) (signers : List SshAllowedSigner)
    (name : String) : Type 0 where
  pub signature : SshSignature
  pub payload : String
  pub bytes : String
  pub signer : SshAllowedSigner
  pub armoured : is_armoured c ≡ true
  pub parsed : parse_ssh_signature objects c.pgp_signature ≡ ok signature
  pub modern : IsModern signature.signature
  pub encoded : c.payload ≡ ok payload
  pub digested :
      ssh_signed_data objects signature.namespace signature.reserved signature.hash_algorithm
        payload
      ≡ ok bytes
  pub for_git : signature.namespace ≡ "git"
  pub listed : Memᴰ signer signers
  pub accepted : accepts objects signature bytes signer ≡ true
  pub named : signer.principal ≡ name

abbrev pub IsSignedBy : Objects → List String → List SshAllowedSigner → String → String → Type 0
IsSignedBy objects keys signers id name =
    (c : CommitObject) × (objects.commit_object id ≡ ok c)
    × (HasKey c keys name ⊎ HasSigner objects c signers name)

gpg_loop-HasKey :
    (c : CommitObject) (keys : List String) (name : String)
    → gpg_loop c keys ≡ some name
    → HasKey c keys name
unfolding gpg_loop
gpg_loop-HasKey c [] name h = absurd (cc)
gpg_loop-HasKey c (k ∷ ks) name h = elim (Option-cases (c.verify_gpg k)) [
  | inr (n, e) ↦ (k, Memᴰ.head refl, e ∙ ground arith)
  | inl e ↦ let (k', m, v) = gpg_loop-HasKey c ks name (ground arith) in (k', Memᴰ.tail m, v)
]

gpg-IsSignedBy :
    (objects : Objects) (id name : String) (keys : List String)
    → commit_signed_by_gpg objects id keys ≡ ok name
    → (c : CommitObject) × (objects.commit_object id ≡ ok c) × HasKey c keys name
unfolding commit_signed_by_gpg
gpg-IsSignedBy objects id name keys h = elim (Result-cases (objects.commit_object id)) [
  | inr (m, e) ↦ absurd (ground arith)
  | inl (c, e) ↦ elim (Option-cases (gpg_loop c keys)) [
    | inl f ↦ absurd (ground arith)
    | inr (n, f) ↦ (c, e, gpg_loop-HasKey c keys name (f ∙ ground arith))
  ]
]

ssh_loop-accepted :
    (objects : Objects) (sig : SshSignature) (bytes name : String) (signers : List SshAllowedSigner)
    → ssh_loop objects sig bytes signers ≡ some name
    → (s : SshAllowedSigner) × Memᴰ s signers
      × (accepts objects sig bytes s ≡ true)
      × (s.principal ≡ name)
unfolding ssh_loop
ssh_loop-accepted objects sig bytes name [] h = absurd (cc)
ssh_loop-accepted objects sig bytes name (s ∷ ss) h =
    elim (Bool-cases (accepts objects sig bytes s)) [
      | inl e ↦ (s, Memᴰ.head refl, e, ground arith)
      | inr e ↦
          let (s', m, a, n) = ssh_loop-accepted objects sig bytes name ss (ground arith) in
          (s', Memᴰ.tail m, a, n)
    ]

supported_algorithm : (c : CryptoSignature) → unsupported_algorithm c ≡ false → IsModern c
supported_algorithm c u =
    (ground (arith, eq_iff c.format "ssh-rsa"), ground (arith, eq_iff c.format "ssh-dss"))

parse_wire-IsModern :
    (objects : Objects) (wire : SshSignatureWire) (sig : SshSignature)
    → parse_wire objects wire ≡ ok sig
    → IsModern sig.signature
unfolding parse_wire
parse_wire-IsModern objects wire sig h = elim (Bool-cases (nat_eq wire.version 1)) [
  | inr v ↦ absurd (ground arith)
  | inl v ↦ elim (Result-cases (objects.parse_public_key wire.wire_public_key)) [
    | inr (m, e) ↦ absurd (ground arith)
    | inl (k, e) ↦ elim (Result-cases (objects.unmarshal_signature wire.wire_signature)) [
      | inr (m, f) ↦ absurd (ground arith)
      | inl (c, f) ↦ elim (Bool-cases (unsupported_algorithm c)) [
        | inl u ↦ absurd (ground arith)
        | inr u ↦
            let same : c ≡ sig.signature = ground arith in
            subst IsModern same (supported_algorithm c u)
      ]
    ]
  ]
]

-- What `parseSSHSignature` accepts rests on no SHA-1.
parse_ssh_signature-IsModern :
    (objects : Objects) (text : String) (sig : SshSignature)
    → parse_ssh_signature objects text ≡ ok sig
    → IsModern sig.signature
unfolding parse_ssh_signature
parse_ssh_signature-IsModern objects text sig h =
    elim (Option-cases (objects.pem_decode (trim_space text))) [
      | inl e ↦ absurd (ground arith)
      | inr (block, e) ↦
          elim (Result-cases (objects.unmarshal_wire (drop_prefix block.block_bytes "SSHSIG"))) [
            | inr (m, f) ↦ absurd (ground arith)
            | inl (wire, f) ↦ parse_wire-IsModern objects wire sig (ground arith)
          ]
    ]

ssh-HasSigner :
    (objects : Objects) (id name : String) (c : CommitObject) (sig : SshSignature)
    (signers : List SshAllowedSigner)
    → is_armoured c ≡ true
    → parse_ssh_signature objects c.pgp_signature ≡ ok sig
    → check_ssh objects id c sig signers ≡ ok name
    → HasSigner objects c signers name
unfolding check_ssh
ssh-HasSigner objects id name c sig signers armoured parsed h =
    elim (Bool-cases (sig.namespace == "git")) [
      | inr other ↦ absurd (ground arith)
      | inl git ↦ elim (Result-cases c.payload) [
        | inr (m, e) ↦ absurd (ground arith)
        | inl (payload, e) ↦
            elim (Result-cases
              (ssh_signed_data objects sig.namespace sig.reserved sig.hash_algorithm payload)) [
                | inr (m, f) ↦ absurd (ground arith)
                | inl (bytes, f) ↦ elim (Option-cases (ssh_loop objects sig bytes signers)) [
                  | inl g ↦ absurd (ground arith)
                  | inr (n, g) ↦
                      let (s, m, a, p) = ssh_loop-accepted objects sig bytes n signers g in
                      record {
                        signature = sig;
                        payload = payload;
                        bytes = bytes;
                        signer = s;
                        armoured = armoured;
                        parsed = parsed;
                        modern = parse_ssh_signature-IsModern objects c.pgp_signature sig parsed;
                        encoded = e;
                        digested = f;
                        for_git = ground (arith, eq_iff sig.namespace "git");
                        listed = m;
                        accepted = a;
                        named = p ∙ ground arith;
                      }
                ]
              ]
      ]
    ]

ssh-IsSignedBy :
    (objects : Objects) (id name : String) (signers : List SshAllowedSigner)
    → commit_signed_by_ssh objects id signers ≡ ok name
    → (c : CommitObject) × (objects.commit_object id ≡ ok c) × HasSigner objects c signers name
unfolding commit_signed_by_ssh
ssh-IsSignedBy objects id name signers h = elim (Result-cases (objects.commit_object id)) [
  | inr (m, e) ↦ absurd (ground arith)
  | inl (c, e) ↦ elim (Bool-cases (is_armoured c)) [
    | inr f ↦ absurd (ground arith)
    | inl f ↦ elim (Result-cases (parse_ssh_signature objects c.pgp_signature)) [
      | inr (m, g) ↦ absurd (ground arith)
      | inl (sig, g) ↦ (c, e, ssh-HasSigner objects id name c sig signers f g (ground arith))
    ]
  ]
]

try_ssh-IsSignedBy :
    (objects : Objects) (id name : String) (keys : List String) (signers : List SshAllowedSigner)
    (failed : Option String)
    → try_ssh objects id signers failed ≡ ok name
    → IsSignedBy objects keys signers id name
unfolding try_ssh
try_ssh-IsSignedBy objects id name keys [] none h = absurd (ground arith)
try_ssh-IsSignedBy objects id name keys [] (some e) h = absurd (ground arith)
try_ssh-IsSignedBy objects id name keys (s ∷ ss) failed h =
    elim (Result-cases (commit_signed_by_ssh objects id (s ∷ ss))) [
      | inr (m, e) ↦ absurd (ground arith)
      | inl (n, e) ↦
          let (c, found, signed) = ssh-IsSignedBy objects id name (s ∷ ss) (e ∙ ground arith) in
          (c, found, inr signed)
    ]

-- Whom `commitSignedBy` names has signed the commit: a configured GPG key of that name verifies it, or
-- an allowed signer of that name, for the namespaces that he is allowed, has signed its encoding for
-- Git with the key that the signature carries.
pub commit_signed_by-IsSignedBy :
    (objects : Objects) (keys : List String) (signers : List SshAllowedSigner) (id name : String)
    → commit_signed_by objects keys signers id ≡ ok name
    → IsSignedBy objects keys signers id name
unfolding commit_signed_by
commit_signed_by-IsSignedBy objects [] signers id name h =
    try_ssh-IsSignedBy objects id name [] signers none h
commit_signed_by-IsSignedBy objects (k ∷ ks) signers id name h =
    elim (Result-cases (commit_signed_by_gpg objects id (k ∷ ks))) [
      | inl (n, e) ↦
          let (c, found, signed) = gpg-IsSignedBy objects id name (k ∷ ks) (e ∙ ground arith) in
          (c, found, inl signed)
      | inr (m, e) ↦ try_ssh-IsSignedBy objects id name (k ∷ ks) signers (some m) (ground arith)
    ]
