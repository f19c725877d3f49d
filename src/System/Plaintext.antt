-- ===== src/System/Plaintext.antt =====
-- crates/upspa-quorum/src/protocols/roupspa.rs: the plaintexts that are sealed, written and read back.
use threshold_password_authe.Base.{
  ℕ, ◌<◌, ◌≡◌, Bytes, ◌++◌, length, slice, le_bytes, from_le_bytes, width, take-append, drop-append,
  length-le_bytes, drop-append_add, take_all, from_le_bytes-le_bytes,
}
use threshold_password_authe.Primitives.{Primitives, IsLawful}

unfoldable pub make_account_plaintext : Bytes → ℕ → Bytes
make_account_plaintext rlsj ctr = rlsj ++ le_bytes 8 ctr

unfoldable pub parse_account_plaintext : Bytes → Bytes × ℕ
parse_account_plaintext plaintext = (slice 0 32 plaintext, from_le_bytes (slice 32 40 plaintext))

module _ (P : Primitives) where
  unfoldable pub make_identification_plaintext : P.SigningKey → Bytes → Bytes → ℕ → Bytes
  make_identification_plaintext ssk rsp k0 ctrid =
      P.signing_key_bytes ssk ++ (rsp ++ (k0 ++ le_bytes 8 ctrid))

  unfoldable pub parse_identification_plaintext : Bytes → P.SigningKey × Bytes × Bytes × ℕ
  parse_identification_plaintext plaintext = (
    P.signing_key_from (slice 0 32 plaintext),
    slice 32 64 plaintext,
    slice 64 96 plaintext,
    from_le_bytes (slice 96 104 plaintext),
  )

-- An account plaintext is read back as it was written.
pub parse-make_account_plaintext :
    (rlsj : Bytes) (ctr : ℕ)
    → length rlsj ≡ 32
    → ctr < width 8
    → parse_account_plaintext (make_account_plaintext rlsj ctr) ≡ (rlsj, ctr)
unfolding make_account_plaintext parse_account_plaintext
parse-make_account_plaintext rlsj ctr h k = rw (
  take-append 32 rlsj (le_bytes 8 ctr) h,
  drop-append 32 rlsj (le_bytes 8 ctr) h,
  take_all 8 (le_bytes 8 ctr) (length-le_bytes 8 ctr),
  from_le_bytes-le_bytes 8 ctr k,
)

module _ (P : Primitives) (laws : IsLawful P) where
  -- Let the primitives be lawful, the two random strings have 32 bytes and the counter fit in 64
  -- bits. Then an identification plaintext is read back as it was written, its signing key
  -- included.
  pub parse-make_identification_plaintext :
      (ssk : P.SigningKey) (rsp k0 : Bytes) (ctrid : ℕ)
      → length rsp ≡ 32
      → length k0 ≡ 32
      → ctrid < width 8
      → parse_identification_plaintext P (make_identification_plaintext P ssk rsp k0 ctrid)
        ≡ (ssk, rsp, k0, ctrid)
  unfolding make_identification_plaintext parse_identification_plaintext
  parse-make_identification_plaintext ssk rsp k0 ctrid hr hk hc =
      let key = P.signing_key_bytes ssk in
      let hs = laws.length-signing_key_bytes ssk in
      let c = le_bytes 8 ctrid in
      rw (
        take-append 32 key (rsp ++ (k0 ++ c)) hs,
        drop-append 32 key (rsp ++ (k0 ++ c)) hs,
        drop-append_add 32 32 key (rsp ++ (k0 ++ c)) hs,
        drop-append_add 32 64 key (rsp ++ (k0 ++ c)) hs,
        take-append 32 rsp (k0 ++ c) hr,
        drop-append 32 rsp (k0 ++ c) hr,
        drop-append_add 32 32 rsp (k0 ++ c) hr,
        take-append 32 k0 c hk,
        drop-append 32 k0 c hk,
        take_all 8 c (length-le_bytes 8 ctrid),
        from_le_bytes-le_bytes 8 ctrid hc,
        laws.signing_key_from-bytes ssk,
      )
