-- ===== src/Primitives.antt =====
-- The third-party cryptography that the crates call: blake3, chacha20poly1305, curve25519_dalek and
-- ed25519_dalek. None of it is under the repository, so it is a parameter of the whole model.
use threshold_password_authe.Base.{ℕ, Bytes, bytes_eq, Bool, true, Option, some, ◌≡◌, ◌≢◌, length}

pub record Primitives : Type 1 where
  pub Scalar : Type 0
  pub Point : Type 0
  pub SigningKey : Type 0
  pub VerifyingKey : Type 0
  pub Signature : Type 0
  pub scalar_dec : Discrete Scalar
  pub verifying_key_dec : Discrete VerifyingKey
  pub signature_dec : Discrete Signature
  -- blake3: the digest of the concatenated updates, and the first 64 bytes of its output stream.
  pub hash : Bytes → Bytes
  pub hash_wide : Bytes → Bytes
  -- curve25519_dalek: scalars, and the Ristretto group that they act on.
  pub scalar_zero : Scalar
  pub scalar_one : Scalar
  pub scalar_add : Scalar → Scalar → Scalar
  pub scalar_sub : Scalar → Scalar → Scalar
  pub scalar_mul : Scalar → Scalar → Scalar
  pub scalar_invert : Scalar → Scalar
  pub scalar_from : ℕ → Scalar
  pub scalar_bytes : Scalar → Bytes
  pub identity : Point
  pub point_add : Point → Point → Point
  pub point_mul : Point → Scalar → Point
  pub compress : Point → Bytes
  pub decompress : Bytes → Option Point
  pub from_uniform_bytes : Bytes → Point
  -- chacha20poly1305: key, nonce, associated data and text to text and tag, and back.
  pub encrypt : Bytes → Bytes → Bytes → Bytes → Bytes × Bytes
  pub decrypt : Bytes → Bytes → Bytes → Bytes → Bytes → Option Bytes
  -- ed25519_dalek.
  pub verifying_key : SigningKey → VerifyingKey
  pub sign : SigningKey → Bytes → Signature
  pub verify : VerifyingKey → Bytes → Signature → Bool
  pub signing_key_bytes : SigningKey → Bytes
  pub signing_key_from : Bytes → SigningKey
  pub verifying_key_bytes : VerifyingKey → Bytes
  pub verifying_key_from : Bytes → Option VerifyingKey
  pub signature_bytes : Signature → Bytes

-- The documented behaviour that theorems rely on.
pub record IsLawful (P : Primitives) : Type 0 where
  pub verify-sign :
      (k : P.SigningKey) (m : Bytes) → P.verify (P.verifying_key k) m (P.sign k m) ≡ true
  pub decrypt-encrypt :
      (k n a m : Bytes) → P.decrypt k n a (P.encrypt k n a m).0 (P.encrypt k n a m).1 ≡ some m
  pub signing_key_from-bytes : (k : P.SigningKey) → P.signing_key_from (P.signing_key_bytes k) ≡ k
  pub length-signing_key_bytes : (k : P.SigningKey) → length (P.signing_key_bytes k) ≡ 32
  pub length-verifying_key_bytes : (k : P.VerifyingKey) → length (P.verifying_key_bytes k) ≡ 32
  pub length-signature_bytes : (s : P.Signature) → length (P.signature_bytes s) ≡ 64
  pub verifying_key_from-bytes :
      (k : P.VerifyingKey) → P.verifying_key_from (P.verifying_key_bytes k) ≡ some k
  pub verifying_key_bytes-injective :
      (k l : P.VerifyingKey) → P.verifying_key_bytes k ≡ P.verifying_key_bytes l → k ≡ l
  pub decompress-compress : (p : P.Point) → P.decompress (P.compress p) ≡ some p
  pub length-scalar_bytes : (a : P.Scalar) → length (P.scalar_bytes a) ≡ 32
  pub scalar_bytes-injective : (a b : P.Scalar) → P.scalar_bytes a ≡ P.scalar_bytes b → a ≡ b
  pub signature_bytes-injective :
      (s t : P.Signature) → P.signature_bytes s ≡ P.signature_bytes t → s ≡ t

-- The documented behaviour of the scalars: a field, where subtraction undoes addition.
pub record IsField (P : Primitives) : Type 0 where
  pub add_assoc :
      (a b c : P.Scalar) → P.scalar_add (P.scalar_add a b) c ≡ P.scalar_add a (P.scalar_add b c)
  pub add_comm : (a b : P.Scalar) → P.scalar_add a b ≡ P.scalar_add b a
  pub add_zero : (a : P.Scalar) → P.scalar_add a P.scalar_zero ≡ a
  pub add_sub : (a b : P.Scalar) → P.scalar_add b (P.scalar_sub a b) ≡ a
  pub sub_add : (a b : P.Scalar) → P.scalar_sub (P.scalar_add a b) a ≡ b
  pub mul_assoc :
      (a b c : P.Scalar) → P.scalar_mul (P.scalar_mul a b) c ≡ P.scalar_mul a (P.scalar_mul b c)
  pub mul_comm : (a b : P.Scalar) → P.scalar_mul a b ≡ P.scalar_mul b a
  pub mul_one : (a : P.Scalar) → P.scalar_mul a P.scalar_one ≡ a
  pub mul_add :
      (a b c : P.Scalar)
      → P.scalar_mul a (P.scalar_add b c) ≡ P.scalar_add (P.scalar_mul a b) (P.scalar_mul a c)
  pub one_ne_zero : P.scalar_one ≢ P.scalar_zero
  pub mul_invert :
      (a : P.Scalar) → a ≢ P.scalar_zero → P.scalar_mul a (P.scalar_invert a) ≡ P.scalar_one

-- The documented behaviour of the group: the scalars act on it.
pub record IsAction (P : Primitives) : Type 0 where
  pub point_mul_add :
      (p : P.Point) (a b : P.Scalar)
      → P.point_mul p (P.scalar_add a b) ≡ P.point_add (P.point_mul p a) (P.point_mul p b)
  pub point_mul_mul :
      (p : P.Point) (a b : P.Scalar)
      → P.point_mul (P.point_mul p a) b ≡ P.point_mul p (P.scalar_mul a b)
  pub point_mul_one : (p : P.Point) → P.point_mul p P.scalar_one ≡ p
  pub point_mul_zero : (p : P.Point) → P.point_mul p P.scalar_zero ≡ P.identity
  pub point_add_assoc :
      (p q r : P.Point) → P.point_add (P.point_add p q) r ≡ P.point_add p (P.point_add q r)
  pub add_identity : (p : P.Point) → P.point_add p P.identity ≡ p
  pub identity_add : (p : P.Point) → P.point_add P.identity p ≡ p
