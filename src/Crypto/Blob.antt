-- ===== src/Crypto/Blob.antt =====
-- crates/upspa-quorum/src/crypto.rs: `CtBlob`, a sealed text with its nonce and tag.
use threshold_password_authe.Base.{ℕ, ◌+◌, ◌≡◌, Bytes, Eq, ◌++◌, length, ℕ_discrete}

abbrev pub nonce_len : ℕ
nonce_len = 24

abbrev pub tag_len : ℕ
tag_len = 16

pub record CtBlob : Type 0 where
  pub nonce : Bytes
  pub ct : Bytes
  pub tag : Bytes

pub CtBlob-discrete : Discrete CtBlob
CtBlob-discrete = hlevel ℕ_discrete

instance unfoldable pub blob_eq : Eq CtBlob
unfolding CtBlob-discrete
blob_eq = record { dec = CtBlob-discrete }

abbrev pub encoded_len : ℕ → ℕ
encoded_len pt_len = nonce_len + pt_len + tag_len

unfoldable pub encode : CtBlob → Bytes
encode b = b.nonce ++ (b.ct ++ b.tag)

-- `CtBlob<PT_LEN>`: the array lengths that the source has in the type.
pub record HasWidth (pt_len : ℕ) (b : CtBlob) : Type 0 where
  pub nonce : length b.nonce ≡ nonce_len
  pub ct : length b.ct ≡ pt_len
  pub tag : length b.tag ≡ tag_len
