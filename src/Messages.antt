-- ===== src/Messages.antt =====
-- crates/upspa-quorum/src/protocols/messages.rs: the byte encodings that are signed, the sizes of the
-- messages, and the trace of a phase. The trace's two nanosecond counters are left out.
pub mod Encoding
pub mod Trace
use threshold_password_authe.Base.{
  ℕ, ◌+◌, ◌*◌, Bytes, Bool, true, false, ◌++◌, le_bytes, length, if◌then◌else◌,
}
use threshold_password_authe.Crypto.{CtBlob, encoded_len}

abbrev pub identification_plaintext_len : ℕ
identification_plaintext_len = 32 + 32 + 32 + 8

abbrev pub account_plaintext_len : ℕ
account_plaintext_len = 32 + 8

abbrev pub signature_bytes : ℕ
signature_bytes = 64

abbrev pub verifying_key_bytes : ℕ
verifying_key_bytes = 32

abbrev pub share_bytes : ℕ
share_bytes = 32

abbrev pub counter_bytes : ℕ
counter_bytes = 8

abbrev pub status_bytes : ℕ
status_bytes = 1

abbrev pub ristretto_message_bytes : ℕ
ristretto_message_bytes = 32

abbrev pub identification_blob_bytes : ℕ
identification_blob_bytes = encoded_len identification_plaintext_len

abbrev pub account_blob_bytes : ℕ
account_blob_bytes = encoded_len account_plaintext_len

-- The source panics where the length does not fit in four bytes.
unfoldable pub encode_uid : Bytes → Bytes
encode_uid uid = le_bytes 4 (length uid) ++ uid

unfoldable pub encode_roupspa_account_record : Bytes → Bytes → CtBlob → ℕ → Bytes
unfolding encode_uid
encode_roupspa_account_record uid suid cj ctr =
    encode_uid uid ++ (suid ++ (cj.nonce ++ (cj.ct ++ (cj.tag ++ le_bytes 8 ctr))))

unfoldable pub encode_roupspa_identification_record : Bytes → CtBlob → ℕ → Bytes
unfolding encode_uid
encode_roupspa_identification_record uid cidnew ctrid =
    encode_uid uid ++ (cidnew.nonce ++ (cidnew.ct ++ (cidnew.tag ++ le_bytes 8 ctrid)))

unfoldable pub account_write_request_bytes : Bytes → ℕ
account_write_request_bytes uid =
    length (encode_uid uid) + 32 + account_blob_bytes + counter_bytes + signature_bytes

unfoldable pub identification_write_request_bytes : Bytes → ℕ
identification_write_request_bytes uid =
    length (encode_uid uid) + identification_blob_bytes + counter_bytes + signature_bytes

unfoldable pub setup_write_request_bytes : Bytes → ℕ
setup_write_request_bytes uid =
    length (encode_uid uid) + verifying_key_bytes + identification_blob_bytes + share_bytes

unfoldable pub identification_request_bytes : Bytes → ℕ
identification_request_bytes uid = length (encode_uid uid) + ristretto_message_bytes

abbrev usize_from : Bool → ℕ
usize_from b = if b then 1 else 0

unfoldable pub identification_response_bytes : Bool → Bool → ℕ
identification_response_bytes has_signature includes_toprf =
    status_bytes
    + verifying_key_bytes
    + identification_blob_bytes
    + counter_bytes
    + usize_from has_signature * signature_bytes
    + usize_from includes_toprf * ristretto_message_bytes

unfoldable pub account_read_request_bytes : Bytes → ℕ
account_read_request_bytes uid = length (encode_uid uid) + 32

abbrev pub account_read_response_bytes : ℕ
account_read_response_bytes = status_bytes + account_blob_bytes + counter_bytes + signature_bytes

unfoldable pub login_server_registration_bytes : Bytes → ℕ
login_server_registration_bytes uid = length (encode_uid uid) + 32

unfoldable pub login_server_update_bytes : Bytes → ℕ
login_server_update_bytes uid = length (encode_uid uid) + 32 + 32
