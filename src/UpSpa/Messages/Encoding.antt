-- ===== src/UpSpa/Messages/Encoding.antt =====
-- crates/upspa/src/protocols/messages.rs: the signed encoding of a password update tells every field
-- apart.
use threshold_password_authe.Base.{
  ℕ, ◌<◌, ◌≡◌, sym, ◌∙◌, Bytes, ◌++◌, le_bytes, length, length-le_bytes, append-injective,
  le_bytes-injective, width, ap,
}
use mathlib.Core.List.{append_assoc}
use threshold_password_authe.Primitives.{Primitives, IsLawful}
use threshold_password_authe.Crypto.Blob.{CtBlob, HasWidth, encode}
use threshold_password_authe.Messages
use threshold_password_authe.Messages.Encoding
use threshold_password_authe.UpSpa.Messages.{
  encode_uid, encode_upspa_password_update, cipherid_pt_len,
}

encode_uid-injective :
    (uid uid' rest rest' : Bytes)
    → length uid < width 4
    → length uid' < width 4
    → encode_uid uid ++ rest ≡ encode_uid uid' ++ rest'
    → (uid ≡ uid') × (rest ≡ rest')
unfolding encode_uid Messages.encode_uid
encode_uid-injective uid uid' rest rest' h h' e =
    Encoding.encode_uid-injective uid uid' rest rest' h h' e

encode-injective :
    (b c : CtBlob) (rest rest' : Bytes)
    → HasWidth cipherid_pt_len b
    → HasWidth cipherid_pt_len c
    → encode b ++ rest ≡ encode c ++ rest'
    → (b ≡ c) × (rest ≡ rest')
unfolding encode
encode-injective b c rest rest' v w e =
    let flat =
      sym (
        append_assoc b.nonce (b.ct ++ b.tag) rest
        ∙ ap (◌++◌ b.nonce) (append_assoc b.ct b.tag rest))
      ∙ e
      ∙ append_assoc c.nonce (c.ct ++ c.tag) rest'
      ∙ ap (◌++◌ c.nonce) (append_assoc c.ct c.tag rest') in
    let one = append-injective b.nonce _ c.nonce _ (v.nonce ∙ sym w.nonce) flat in
    let two = append-injective b.ct _ c.ct _ (v.ct ∙ sym w.ct) (one.1) in
    let three = append-injective b.tag _ c.tag _ (v.tag ∙ sym w.tag) (two.1) in
    (λ i. record { nonce = one.0 i; ct = two.0 i; tag = three.0 i }, three.1)

module _ (P : Primitives) (laws : IsLawful P) where
  -- Let the primitives be lawful, two users have names shorter than 2^32 bytes, and two UpSPA
  -- password updates have sealed roots of the proper widths, 64-bit times and 32-bit provider
  -- numbers. If what is signed for them is equal, then the user, the sealed root, the share, the
  -- time and the provider number are equal.
  pub encode_update-injective :
      (uid uid' : Bytes) (cid cid' : CtBlob) (share share' : P.Scalar) (time time' index index' : ℕ)
      → length uid < width 4
      → length uid' < width 4
      → HasWidth cipherid_pt_len cid
      → HasWidth cipherid_pt_len cid'
      → time < width 8
      → time' < width 8
      → index < width 4
      → index' < width 4
      → encode_upspa_password_update P uid cid share time index
        ≡ encode_upspa_password_update P uid' cid' share' time' index'
      → (uid ≡ uid') × (cid ≡ cid') × (share ≡ share') × (time ≡ time') × (index ≡ index')
  unfolding encode_upspa_password_update
  encode_update-injective uid uid' cid cid' share share' time time' index index' hu hu' v w ht ht'
        hi hi' e =
      let user = encode_uid-injective uid uid' _ _ hu hu' e in
      let sealed = encode-injective cid cid' _ _ v w (user.1) in
      let part =
        append-injective (P.scalar_bytes share) _ (P.scalar_bytes share') _
          (laws.length-scalar_bytes share ∙ sym (laws.length-scalar_bytes share')) (sealed.1) in
      let stamp =
        append-injective (le_bytes 8 time) _ (le_bytes 8 time') _
          (length-le_bytes 8 time ∙ sym (length-le_bytes 8 time')) (part.1) in
      (
        user.0,
        sealed.0,
        laws.scalar_bytes-injective share share' (part.0),
        le_bytes-injective 8 time time' ht ht' (stamp.0),
        le_bytes-injective 4 index index' hi hi' (stamp.1),
      )
