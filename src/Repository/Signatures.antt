-- ===== src/Repository/Signatures.antt =====
-- internal/repository/git.go, `commitSignedBy` and what it calls: the GPG keys first, then the SSH
-- signers. The objects of go-git and the cryptographic checks are parameters.
use comin.Base.{
  ℕ, nat_eq, Bool, true, false, ◌&&◌, ◌||◌, not, Option, none, some, List, [], ◌∷◌, String, ◌==◌,
  str_append, Result, ok, err, ◌>>=◌, if◌then◌else◌,
}
use comin.Base.Texts.{has_prefix, drop_prefix, trim_space, decimal, quoted}
use comin.Repository.{Verifier}

-- `Signature` of the package ssh.
pub record CryptoSignature : Type 0 where
  pub format : String
  pub blob : String

-- `sshCommitSignature`.
pub record SshSignature : Type 0 where
  pub public_key : String
  pub namespace : String
  pub reserved : String
  pub hash_algorithm : String
  pub signature : CryptoSignature

-- `sshSignatureWire`.
pub record SshSignatureWire : Type 0 where
  pub version : ℕ
  pub wire_public_key : String
  pub wire_namespace : String
  pub wire_reserved : String
  pub wire_hash_algorithm : String
  pub wire_signature : String

-- What `pem.Decode` finds.
pub record PemBlock : Type 0 where
  pub block_type : String
  pub block_bytes : String

-- `sshAllowedSigner`, with its key in the wire format.
pub record SshAllowedSigner : Type 0 where
  pub principal : String
  pub key : String
  pub namespaces : List String

-- A commit object: the answer of its `Verify` for a GPG key (the name of the primary identity), the
-- text of its signature, and its encoding without the signature.
pub record CommitObject : Type 0 where
  pub verify_gpg : String → Option String
  pub pgp_signature : String
  pub payload : Result String

-- `CommitObject` of go-git, the digests, `pem.Decode`, and of the package ssh the wire format, in
-- both directions, and the check of a key.
pub record Objects : Type 0 where
  pub commit_object : String → Result CommitObject
  pub sha256 : String → String
  pub sha512 : String → String
  pub pem_decode : String → Option PemBlock
  pub unmarshal_wire : String → Result SshSignatureWire
  pub parse_public_key : String → Result String
  pub unmarshal_signature : String → Result CryptoSignature
  pub marshal : String → String → String → String → String
  pub verify_ssh : String → String → CryptoSignature → Bool

unfoldable not_signed : String → String
not_signed id = str_append "commit " (str_append id " is not signed")

unfoldable pub gpg_loop : CommitObject → List String → Option String
gpg_loop c [] = none
gpg_loop c (k ∷ ks) = elim (c.verify_gpg k) [ some name ↦ some name | none ↦ gpg_loop c ks ]

unfoldable pub commit_signed_by_gpg : Objects → String → List String → Result String
unfolding gpg_loop not_signed
commit_signed_by_gpg objects id keys = objects.commit_object id >>= λ c. elim (gpg_loop c keys) [
  | none ↦ err (not_signed id)
  | some name ↦ ok name
]

any_allowed : String → List String → Bool
any_allowed namespace [] = false
any_allowed namespace (allowed ∷ rest) =
    allowed == namespace || allowed == "*" || any_allowed namespace rest

unfoldable pub allows_namespace : SshAllowedSigner → String → Bool
unfolding any_allowed
allows_namespace s namespace = elim s.namespaces [
  | [] ↦ true
  | n ∷ ns ↦ any_allowed namespace (n ∷ ns)
]

-- The test of the loop of `commitSignedBySSH`.
unfoldable pub accepts : Objects → SshSignature → String → SshAllowedSigner → Bool
unfolding allows_namespace
accepts objects sig bytes s =
    allows_namespace s sig.namespace
    && s.key == sig.public_key
    && objects.verify_ssh s.key bytes sig.signature

unfoldable pub ssh_loop : Objects → SshSignature → String → List SshAllowedSigner → Option String
unfolding accepts
ssh_loop objects sig bytes [] = none
ssh_loop objects sig bytes (s ∷ ss) =
    if accepts objects sig bytes s then some s.principal else ssh_loop objects sig bytes ss

-- `sshSignedData`.
unfoldable pub ssh_signed_data : Objects → String → String → String → String → Result String
ssh_signed_data objects namespace reserved algorithm payload =
    if algorithm == "sha256"
    then ok (
        str_append "SSHSIG" (objects.marshal namespace reserved algorithm (objects.sha256 payload)))
    else if algorithm == "sha512"
    then ok (
        str_append "SSHSIG" (objects.marshal namespace reserved algorithm (objects.sha512 payload)))
    else err (str_append "unsupported SSH signature hash algorithm " (quoted algorithm))

abbrev pub unsupported_algorithm : CryptoSignature → Bool
unsupported_algorithm s = s.format == "ssh-rsa" || s.format == "ssh-dss"

-- `parseSSHSignature`, from the wire format on.
unfoldable pub parse_wire : Objects → SshSignatureWire → Result SshSignature
parse_wire objects wire =
    if not (nat_eq wire.version 1)
    then err (str_append "unsupported SSH signature version " (decimal wire.version))
    else (objects.parse_public_key wire.wire_public_key >>= λ key.
        objects.unmarshal_signature wire.wire_signature >>= λ signature.
        if unsupported_algorithm signature
        then err (str_append "unsupported SSH signature algorithm " (quoted signature.format))
        else ok (record {
          public_key = wire.wire_public_key;
          namespace = wire.wire_namespace;
          reserved = wire.wire_reserved;
          hash_algorithm = wire.wire_hash_algorithm;
          signature = signature;
        }))

unfoldable pub parse_ssh_signature : Objects → String → Result SshSignature
unfolding parse_wire has_prefix drop_prefix trim_space
parse_ssh_signature objects text = elim (objects.pem_decode (trim_space text)) [
  | none ↦ err "not an SSH signature"
  | some block ↦
      if not (block.block_type == "SSH SIGNATURE")
      then err "not an SSH signature"
      else if not (has_prefix block.block_bytes "SSHSIG")
      then err "missing SSH signature magic"
      else (objects.unmarshal_wire (drop_prefix block.block_bytes "SSHSIG") >>= parse_wire objects)
]

unfoldable pub check_ssh :
    Objects → String → CommitObject → SshSignature → List SshAllowedSigner → Result String
unfolding ssh_loop not_signed ssh_signed_data
check_ssh objects id c sig signers =
    if not (sig.namespace == "git")
    then err (
        str_append "commit " (
          str_append id (
            str_append " has SSH signature namespace "
              (str_append (quoted sig.namespace) " instead of git"))))
    else c.payload >>= λ payload.
        ssh_signed_data objects sig.namespace sig.reserved sig.hash_algorithm payload >>= λ bytes.
        elim (ssh_loop objects sig bytes signers) [
          | none ↦ err (not_signed id)
          | some principal ↦ ok principal
        ]

abbrev pub is_armoured : CommitObject → Bool
is_armoured c = has_prefix (trim_space c.pgp_signature) "-----BEGIN SSH SIGNATURE-----"

unfoldable pub commit_signed_by_ssh : Objects → String → List SshAllowedSigner → Result String
unfolding check_ssh parse_ssh_signature has_prefix trim_space
commit_signed_by_ssh objects id signers = objects.commit_object id >>= λ c.
    if not (is_armoured c)
    then err (str_append "commit " (str_append id " is not signed with SSH"))
    else elim (parse_ssh_signature objects c.pgp_signature) [
      | err e ↦
          err
            (str_append "commit " (str_append id (str_append " has an invalid SSH signature: " e)))
      | ok sig ↦ check_ssh objects id c sig signers
    ]

abbrev pub is_nonempty {ℓ} : {A : Type ℓ} → List A → Bool
is_nonempty [] = false
is_nonempty (x ∷ l) = true

-- `errors.Join` of two errors, the first of which may be nil.
abbrev pub join : Option String → String → String
join none e = e
join (some first) e = str_append first (str_append "\n" e)

unfoldable pub try_ssh : Objects → String → List SshAllowedSigner → Option String → Result String
unfolding commit_signed_by_ssh not_signed
try_ssh objects id signers failed =
    if is_nonempty signers
    then (elim (commit_signed_by_ssh objects id signers) [
      | ok signer ↦ ok signer
      | err e ↦ err (join failed e)
    ])
    else elim failed [ some e ↦ err e | none ↦ err (not_signed id) ]

unfoldable pub commit_signed_by :
    Objects → List String → List SshAllowedSigner → String → Result String
unfolding commit_signed_by_gpg try_ssh
commit_signed_by objects keys signers id =
    if is_nonempty keys
    then (elim (commit_signed_by_gpg objects id keys) [
      | ok signer ↦ ok signer
      | err e ↦ try_ssh objects id signers (some e)
    ])
    else try_ssh objects id signers none

-- What `Update` asks, of the keys that `New` has read.
unfoldable pub verifier : Objects → List String → List SshAllowedSigner → Verifier
unfolding commit_signed_by
verifier objects keys signers = record {
  has_keys = is_nonempty keys || is_nonempty signers;
  signed_by = commit_signed_by objects keys signers;
}
