-- ===== src/Repository/Signers/RoundTrip.antt =====
-- `parseSSHAllowedSigners` (internal/repository/git.go) on a file that is written line by line.
use Prim.Native.String.{◌∷◌ as push}
use comin.Base.{List, [], ◌∷◌, String}
use comin.Repository.Signatures.{SshAllowedSigner}
use comin.Repository.Signers.{KeyParser}
use comin.Repository.Signers.Lines.{SignerLine}
use comin.Repository.Signers.Fields.{IsWritable, written}

pub data AreWritable (parse : KeyParser) : List SignerLine → List SshAllowedSigner → Type 0 where
  no_line : AreWritable parse [] []
  one_line :
      {s : SignerLine} {key : String} {ss : List SignerLine} {signers : List SshAllowedSigner}
      → IsWritable parse s key
      → AreWritable parse ss signers
      → AreWritable parse (s ∷ ss) (written s key ∷ signers)
