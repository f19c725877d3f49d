-- ===== src/Messages/Encoding.antt =====
-- messages.rs: the signed encodings tell every field apart, and the announced sizes are theirs.
use threshold_password_authe.Base.{
  ℕ, ◌<◌, ◌≡◌, sym, ◌∙◌, Bytes, ◌++◌, le_bytes, length, length-le_bytes, length-append,
  append-injective, le_bytes-injective, width, arith,
}
use mathlib.Core.List.{append_assoc}
use threshold_password_authe.Crypto.{CtBlob, HasWidth}
use threshold_password_authe.Messages.{
  account_plaintext_len, identification_plaintext_len, encode_uid, encode_roupspa_account_record,
  encode_roupspa_identification_record, account_write_request_bytes, signature_bytes,
}

-- The four length bytes tell where the user name ends, whatever follows it.
pub encode_uid-injective :
    (uid uid' rest rest' : Bytes)
    → length uid < width 4
    → length uid' < width 4
    → encode_uid uid ++ rest ≡ encode_uid uid' ++ rest'
    → (uid ≡ uid') × (rest ≡ rest')
unfolding encode_uid
encode_uid-injective uid uid' rest rest' h h' e =
    let header =
      append-injective (le_bytes 4 (length uid)) (uid ++ rest) (le_bytes 4 (length uid'))
        (uid' ++ rest') (length-le_bytes 4 (length uid) ∙ sym (length-le_bytes 4 (length uid')))
        (sym (append_assoc (le_bytes 4 (length uid)) uid rest)
          ∙ e
          ∙ append_assoc (le_bytes 4 (length uid')) uid' rest') in
    append-injective uid rest uid' rest'
      (le_bytes-injective 4 (length uid) (length uid') h h' header.0) header.1

-- The sealed part and the counter of an encoding.
blob-injective :
    (pt : ℕ) (b c : CtBlob) (m n : ℕ)
    → HasWidth pt b
    → HasWidth pt c
    → m < width 8
    → n < width 8
    → b.nonce ++ (b.ct ++ (b.tag ++ le_bytes 8 m)) ≡ c.nonce ++ (c.ct ++ (c.tag ++ le_bytes 8 n))
    → (b ≡ c) × (m ≡ n)
blob-injective pt b c m n v w hm hn e =
    let one = append-injective b.nonce _ c.nonce _ (v.nonce ∙ sym w.nonce) e in
    let two = append-injective b.ct _ c.ct _ (v.ct ∙ sym w.ct) one.1 in
    let three = append-injective b.tag _ c.tag _ (v.tag ∙ sym w.tag) two.1 in
    (
      λ i. record { nonce = one.0 i; ct = two.0 i; tag = three.0 i },
      le_bytes-injective 8 m n hm hn three.1,
    )

-- Let two users have names shorter than 2^32 bytes, and two account records have 32-byte families,
-- sealed parts of the proper widths and 64-bit counters. If what is signed for them is equal, then
-- the user, the family, the sealed part and the counter are equal.
pub encode_account-injective :
    (uid uid' suid suid' : Bytes) (cj cj' : CtBlob) (ctr ctr' : ℕ)
    → length uid < width 4
    → length uid' < width 4
    → length suid ≡ 32
    → length suid' ≡ 32
    → HasWidth account_plaintext_len cj
    → HasWidth account_plaintext_len cj'
    → ctr < width 8
    → ctr' < width 8
    → encode_roupspa_account_record uid suid cj ctr
      ≡ encode_roupspa_account_record uid' suid' cj' ctr'
    → (uid ≡ uid') × (suid ≡ suid') × (cj ≡ cj') × (ctr ≡ ctr')
unfolding encode_roupspa_account_record
encode_account-injective uid uid' suid suid' cj cj' ctr ctr' hu hu' hs hs' v w hc hc' e =
    let user = encode_uid-injective uid uid' _ _ hu hu' e in
    let family = append-injective suid _ suid' _ (hs ∙ sym hs') user.1 in
    let sealed = blob-injective account_plaintext_len cj cj' ctr ctr' v w hc hc' family.1 in
    (user.0, family.0, sealed.0, sealed.1)

-- Let two users have names shorter than 2^32 bytes, and two identification records have sealed
-- parts of the proper widths and 64-bit counters. If what is signed for them is equal, then the
-- user, the sealed part and the counter are equal.
pub encode_identification-injective :
    (uid uid' : Bytes) (cid cid' : CtBlob) (ctrid ctrid' : ℕ)
    → length uid < width 4
    → length uid' < width 4
    → HasWidth identification_plaintext_len cid
    → HasWidth identification_plaintext_len cid'
    → ctrid < width 8
    → ctrid' < width 8
    → encode_roupspa_identification_record uid cid ctrid
      ≡ encode_roupspa_identification_record uid' cid' ctrid'
    → (uid ≡ uid') × (cid ≡ cid') × (ctrid ≡ ctrid')
unfolding encode_roupspa_identification_record
encode_identification-injective uid uid' cid cid' ctrid ctrid' hu hu' v w hc hc' e =
    let user = encode_uid-injective uid uid' _ _ hu hu' e in
    let sealed =
      blob-injective identification_plaintext_len cid cid' ctrid ctrid' v w hc hc' user.1 in
    (user.0, sealed.0, sealed.1)

-- The announced size of an account write is the length of its encoding and signature, for a 32-byte
-- family, a sealed part of the proper widths and a signature of the proper length.
pub account_write_request_bytes_lem :
    (uid suid signature : Bytes) (cj : CtBlob) (ctr : ℕ)
    → length suid ≡ 32
    → HasWidth account_plaintext_len cj
    → length signature ≡ signature_bytes
    → length (encode_roupspa_account_record uid suid cj ctr ++ signature)
      ≡ account_write_request_bytes uid
unfolding encode_roupspa_account_record account_write_request_bytes
account_write_request_bytes_lem uid suid signature cj ctr hs v h =
    let tail = le_bytes 8 ctr in
    let sealed = cj.nonce ++ (cj.ct ++ (cj.tag ++ tail)) in
    omega (
      arith,
      length-append (encode_uid uid ++ (suid ++ sealed)) signature,
      length-append (encode_uid uid) (suid ++ sealed),
      length-append suid sealed,
      length-append cj.nonce (cj.ct ++ (cj.tag ++ tail)),
      length-append cj.ct (cj.tag ++ tail),
      length-append cj.tag tail,
      length-le_bytes 8 ctr,
      v.nonce,
      v.ct,
      v.tag,
    )
