-- ===== src/Tests/Ternary.antt =====
-- An instance of the primitives whose scalars are the field of three elements, and whose group is
-- the field itself.
use threshold_password_authe.Base.{
  sym, ap, ◌∙◌, Bytes, none, some, [], ℕ, zero, suc, ◌≡◌, ◌≢◌, refl, ◌∷◌,
}
use threshold_password_authe.Primitives.{Primitives, IsField, IsAction, IsLawful}
use threshold_password_authe.Tests.Toy.{toy, toy-IsLawful, zeros}

pub data Trit : Type 0 where
  nil unit pair : Trit

abbrev up : Trit → Trit
up nil = unit
up unit = pair
up pair = nil

abbrev pub plus : Trit → Trit → Trit
plus nil b = b
plus unit b = up b
plus pair b = up (up b)

abbrev pub negative : Trit → Trit
negative nil = nil
negative unit = pair
negative pair = unit

abbrev pub times : Trit → Trit → Trit
times nil b = nil
times unit b = b
times pair b = negative b

abbrev pub trit : ℕ → Trit
trit zero = nil
trit (suc n) = up (trit n)

abbrev code : Trit → ℕ
code nil = 0
code unit = 1
code pair = 2

pub Trit-discrete : Discrete Trit
Trit-discrete = hlevel

abbrev pub ternary : Primitives
ternary = record {
  Scalar = Trit;
  Point = Trit;
  SigningKey = ℕ;
  VerifyingKey = ℕ;
  Signature = ℕ;
  scalar_dec = Trit-discrete;
  verifying_key_dec = toy.verifying_key_dec;
  signature_dec = toy.signature_dec;
  hash = toy.hash;
  hash_wide = toy.hash_wide;
  scalar_zero = nil;
  scalar_one = unit;
  scalar_add = plus;
  scalar_sub = λ a b. plus a (negative b);
  scalar_mul = times;
  scalar_invert = λ a. a;
  scalar_from = trit;
  scalar_bytes = λ a. code a ∷ zeros 31;
  identity = nil;
  point_add = plus;
  point_mul = times;
  compress = λ p. code p ∷ zeros 31;
  decompress = λ m. elim m [ [] ↦ none | k ∷ rest ↦ some (trit k) ];
  from_uniform_bytes = λ m. unit;
  encrypt = toy.encrypt;
  decrypt = toy.decrypt;
  verifying_key = toy.verifying_key;
  sign = toy.sign;
  verify = toy.verify;
  signing_key_bytes = toy.signing_key_bytes;
  signing_key_from = toy.signing_key_from;
  verifying_key_bytes = toy.verifying_key_bytes;
  verifying_key_from = toy.verifying_key_from;
  signature_bytes = toy.signature_bytes;
}

up-plus : (a b : Trit) → plus (up a) b ≡ up (plus a b)
up-plus nil nil = refl
up-plus nil unit = refl
up-plus nil pair = refl
up-plus unit nil = refl
up-plus unit unit = refl
up-plus unit pair = refl
up-plus pair nil = refl
up-plus pair unit = refl
up-plus pair pair = refl

plus_assoc : (a b c : Trit) → plus (plus a b) c ≡ plus a (plus b c)
plus_assoc nil b c = refl
plus_assoc unit b c = up-plus b c
plus_assoc pair b c = up-plus (up b) c ∙ ap up (up-plus b c)

plus_comm : (a b : Trit) → plus a b ≡ plus b a
plus_comm nil nil = refl
plus_comm nil unit = refl
plus_comm nil pair = refl
plus_comm unit nil = refl
plus_comm unit unit = refl
plus_comm unit pair = refl
plus_comm pair nil = refl
plus_comm pair unit = refl
plus_comm pair pair = refl

plus_nil : (a : Trit) → plus a nil ≡ a
plus_nil nil = refl
plus_nil unit = refl
plus_nil pair = refl

plus_minus : (a b : Trit) → plus b (plus a (negative b)) ≡ a
plus_minus nil nil = refl
plus_minus nil unit = refl
plus_minus nil pair = refl
plus_minus unit nil = refl
plus_minus unit unit = refl
plus_minus unit pair = refl
plus_minus pair nil = refl
plus_minus pair unit = refl
plus_minus pair pair = refl

minus_plus : (a b : Trit) → plus (plus a b) (negative a) ≡ b
minus_plus nil nil = refl
minus_plus nil unit = refl
minus_plus nil pair = refl
minus_plus unit nil = refl
minus_plus unit unit = refl
minus_plus unit pair = refl
minus_plus pair nil = refl
minus_plus pair unit = refl
minus_plus pair pair = refl

times_comm : (a b : Trit) → times a b ≡ times b a
times_comm nil nil = refl
times_comm nil unit = refl
times_comm nil pair = refl
times_comm unit nil = refl
times_comm unit unit = refl
times_comm unit pair = refl
times_comm pair nil = refl
times_comm pair unit = refl
times_comm pair pair = refl

times_unit : (a : Trit) → times a unit ≡ a
times_unit nil = refl
times_unit unit = refl
times_unit pair = refl

times-negative : (a b : Trit) → times (negative a) b ≡ negative (times a b)
times-negative nil nil = refl
times-negative nil unit = refl
times-negative nil pair = refl
times-negative unit nil = refl
times-negative unit unit = refl
times-negative unit pair = refl
times-negative pair nil = refl
times-negative pair unit = refl
times-negative pair pair = refl

negative-plus : (a b : Trit) → negative (plus a b) ≡ plus (negative a) (negative b)
negative-plus nil nil = refl
negative-plus nil unit = refl
negative-plus nil pair = refl
negative-plus unit nil = refl
negative-plus unit unit = refl
negative-plus unit pair = refl
negative-plus pair nil = refl
negative-plus pair unit = refl
negative-plus pair pair = refl

times_assoc : (a b c : Trit) → times (times a b) c ≡ times a (times b c)
times_assoc nil b c = refl
times_assoc unit b c = refl
times_assoc pair b c = times-negative b c

times-plus : (a b c : Trit) → times a (plus b c) ≡ plus (times a b) (times a c)
times-plus nil b c = refl
times-plus unit b c = refl
times-plus pair b c = negative-plus b c

times_self : (a : Trit) → a ≢ nil → times a a ≡ unit
times_self nil h = absurd (h refl)
times_self unit h = refl
times_self pair h = refl

pub ternary-IsField : IsField ternary
ternary-IsField = record {
  add_assoc = plus_assoc;
  add_comm = plus_comm;
  add_zero = plus_nil;
  add_sub = plus_minus;
  sub_add = minus_plus;
  mul_assoc = times_assoc;
  mul_comm = times_comm;
  mul_one = times_unit;
  mul_add = times-plus;
  one_ne_zero = λ e. cc;
  mul_invert = times_self;
}

pub ternary-IsAction : IsAction ternary
ternary-IsAction = record {
  point_mul_add = times-plus;
  point_mul_mul = times_assoc;
  point_mul_one = times_unit;
  point_mul_zero = λ p. times_comm p nil;
  point_add_assoc = plus_assoc;
  add_identity = plus_nil;
  identity_add = λ p. refl;
}

head_code : Bytes → Trit
head_code [] = nil
head_code (x ∷ xs) = trit x

trit-code : (a : Trit) → trit (code a) ≡ a
trit-code nil = refl
trit-code unit = refl
trit-code pair = refl

pub ternary-IsLawful : IsLawful ternary
unfolding head_code
ternary-IsLawful = record {
  verify-sign = toy-IsLawful.verify-sign;
  decrypt-encrypt = toy-IsLawful.decrypt-encrypt;
  signing_key_from-bytes = toy-IsLawful.signing_key_from-bytes;
  length-signing_key_bytes = toy-IsLawful.length-signing_key_bytes;
  length-verifying_key_bytes = toy-IsLawful.length-verifying_key_bytes;
  length-signature_bytes = toy-IsLawful.length-signature_bytes;
  verifying_key_from-bytes = toy-IsLawful.verifying_key_from-bytes;
  decompress-compress = λ p. ap some (trit-code p);
  length-scalar_bytes = λ a. refl;
  scalar_bytes-injective = λ a b e. sym (trit-code a) ∙ ap head_code e ∙ trit-code b;
  verifying_key_bytes-injective = toy-IsLawful.verifying_key_bytes-injective;
  signature_bytes-injective = toy-IsLawful.signature_bytes-injective;
}
