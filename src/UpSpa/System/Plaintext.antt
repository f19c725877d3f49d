-- ===== src/UpSpa/System/Plaintext.antt =====
-- crates/upspa/src/protocols/system.rs: what the client seals, writes and reads back.
use threshold_password_authe.Base.{
  ℕ, Bytes, bytes_eq, ◌++◌, Option, none, some, slice, le_bytes, from_le_bytes, codes,
}
use threshold_password_authe.Primitives.{Primitives}
use threshold_password_authe.Crypto.{
  CtBlob, hash_to_point, oprf_finalize, xchacha_encrypt_detached, xchacha_decrypt_detached,
}

unfoldable pub cipherid_aad : Bytes → Bytes
cipherid_aad uid = uid ++ codes "|cipherid"

unfoldable pub ciphersp_aad : Bytes → Bytes
ciphersp_aad uid = uid ++ codes "|ciphersp"

module _ (P : Primitives) where
  unfoldable pub evaluate_full_toprf : Bytes → P.Scalar → Bytes
  unfolding hash_to_point oprf_finalize
  evaluate_full_toprf password master_key =
      oprf_finalize P password (P.point_mul (hash_to_point P password) master_key)

  unfoldable pub encode_root_plaintext : P.SigningKey → Bytes → Bytes → Bytes
  encode_root_plaintext signing_key rsp k0 = P.signing_key_bytes signing_key ++ (rsp ++ k0)

  unfoldable pub decode_root_plaintext : Bytes → P.SigningKey × Bytes × Bytes
  decode_root_plaintext plaintext =
      (P.signing_key_from (slice 0 32 plaintext), slice 32 64 plaintext, slice 64 96 plaintext)

  -- The nonce is what the sealing draws.
  unfoldable pub encrypt_account : Bytes → Bytes → Bytes → ℕ → Bytes → CtBlob
  unfolding ciphersp_aad xchacha_encrypt_detached
  encrypt_account k0 uid rlsj counter nonce =
      xchacha_encrypt_detached P k0 (ciphersp_aad uid) (rlsj ++ le_bytes 8 counter) nonce

  unfoldable pub decrypt_account : Bytes → Bytes → CtBlob → Option (Bytes × ℕ)
  unfolding ciphersp_aad xchacha_decrypt_detached
  decrypt_account k0 uid blob = elim (xchacha_decrypt_detached P k0 (ciphersp_aad uid) blob) [
    | none ↦ none
    | some plaintext ↦ some (slice 0 32 plaintext, from_le_bytes (slice 32 40 plaintext))
  ]
