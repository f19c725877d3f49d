-- ===== src/UpSpa/Messages.antt =====
-- crates/upspa/src/protocols/messages.rs: the signed encoding of a password update, its sizes, and
-- the trace of a phase. crates/upspa/src/crypto.rs: the hashes whose tags differ from
-- crates/upspa-quorum's; the rest of that file is the text that Crypto.antt models.
pub mod Trace
pub mod Encoding
use threshold_password_authe.Base.{ℕ, ◌+◌, Bytes, codes, ◌++◌, le_bytes, length}
use threshold_password_authe.Primitives.{Primitives}
use threshold_password_authe.Crypto.{CtBlob, encoded_len, encode}

abbrev pub signature_bytes : ℕ
signature_bytes = 64

abbrev pub scalar_bytes : ℕ
scalar_bytes = 32

abbrev pub counter_bytes : ℕ
counter_bytes = 8

abbrev pub provider_index_bytes : ℕ
provider_index_bytes = 4

abbrev pub status_bytes : ℕ
status_bytes = 1

abbrev pub ristretto_bytes : ℕ
ristretto_bytes = 32

abbrev pub cipherid_pt_len : ℕ
cipherid_pt_len = 96

abbrev pub ciphersp_pt_len : ℕ
ciphersp_pt_len = 40

abbrev pub account_blob_bytes : ℕ
account_blob_bytes = encoded_len ciphersp_pt_len

abbrev pub identification_blob_bytes : ℕ
identification_blob_bytes = encoded_len cipherid_pt_len

-- The source panics where the length does not fit in four bytes.
unfoldable pub encode_uid : Bytes → Bytes
encode_uid uid = le_bytes 4 (length uid) ++ uid

module _ (P : Primitives) where
  unfoldable pub hash_upspa_suid : Bytes → Bytes → ℕ → Bytes
  hash_upspa_suid rsp lsj provider_index =
      P.hash (codes "upspa/suid/v1" ++ (rsp ++ (lsj ++ le_bytes 4 provider_index)))

  unfoldable pub hash_vinfo : Bytes → Bytes → Bytes
  hash_vinfo rlsj lsj = P.hash (codes "upspa/vinfo/v1" ++ (rlsj ++ lsj))

  unfoldable pub encode_upspa_password_update : Bytes → CtBlob → P.Scalar → ℕ → ℕ → Bytes
  unfolding encode_uid
  encode_upspa_password_update uid cidnew ki_new time provider_index =
      encode_uid uid
      ++ (encode cidnew
          ++ (P.scalar_bytes ki_new ++ (le_bytes 8 time ++ le_bytes 4 provider_index)))

  pub record UpSpaPasswordUpdateRequest : Type 0 where
    pub uid : Bytes
    pub cidnew : CtBlob
    pub share_new : P.Scalar
    pub time : ℕ
    pub provider_index : ℕ
    pub signature : P.Signature

  unfoldable pub signed_bytes : UpSpaPasswordUpdateRequest → Bytes
  unfolding encode_upspa_password_update
  signed_bytes r = encode_upspa_password_update r.uid r.cidnew r.share_new r.time r.provider_index

  unfoldable pub update_encoded_len : UpSpaPasswordUpdateRequest → ℕ
  unfolding signed_bytes
  update_encoded_len r = length (signed_bytes r) + signature_bytes
