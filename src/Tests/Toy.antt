-- ===== src/Tests/Toy.antt =====
-- Concrete values for the tests: a small instance of the cryptography, records, providers and systems.
use threshold_password_authe.Base.{
  ℕ, zero, suc, ◌+◌, ◌*◌, ◌%◌, ◌≡◌, refl, ap, Bytes, bytes_eq, ◌==◌, true, eqb, Option, none, some,
  List, [], ◌∷◌, ◌++◌, insert, empty, ℕ_discrete, arith, if◌then◌else◌,
}
use threshold_password_authe.Primitives.{Primitives, IsLawful}
use threshold_password_authe.Crypto.{CtBlob}
use threshold_password_authe.LoginServer
use threshold_password_authe.LoginServer.{LoginServer, PendingLsOperation, operation_eq}
use threshold_password_authe.Provider.{
  RoUpSpaProvider, AccountFamilyKey, key_eq, SignedAccountRecord, AccountReplica, active,
  SignedIdentificationRecord, IdentificationReplica,
}
use threshold_password_authe.System.Types.{
  RoUpSpaSystem, AccountOperationContext, IdentificationOperationContext, registration,
  InFlightOperation,
}

abbrev sum : Bytes → ℕ
sum [] = 0
sum (x ∷ xs) = x + sum xs

abbrev pub zeros : ℕ → Bytes
zeros zero = []
zeros (suc n) = 0 ∷ zeros n

abbrev pub text32 : Bytes
text32 = zeros 32

-- Scalars and points are numbers modulo seven, a key and a signature are numbers.
abbrev pub toy : Primitives
toy = record {
  Scalar = ℕ;
  Point = ℕ;
  SigningKey = ℕ;
  VerifyingKey = ℕ;
  Signature = ℕ;
  scalar_dec = ℕ_discrete;
  verifying_key_dec = ℕ_discrete;
  signature_dec = ℕ_discrete;
  hash = λ m. sum m ∷ [];
  hash_wide = λ m. sum m ∷ [];
  scalar_zero = 0;
  scalar_one = 1;
  scalar_add = λ a b. (a + b) % 7;
  scalar_sub = λ a b. (a + 6 * b) % 7;
  scalar_mul = λ a b. (a * b) % 7;
  scalar_invert = λ a. (a * a * a * a * a) % 7;
  scalar_from = λ n. n % 7;
  scalar_bytes = λ a. a ∷ zeros 31;
  identity = 0;
  point_add = λ p q. (p + q) % 7;
  point_mul = λ p a. (p * a) % 7;
  compress = λ p. p ∷ zeros 31;
  decompress = λ m. elim m [ [] ↦ none | k ∷ rest ↦ some k ];
  from_uniform_bytes = λ m. sum m % 7;
  encrypt = λ k n a m. (m, k);
  decrypt = λ k n a c t. if t == k then some c else none;
  verifying_key = λ k. k;
  sign = λ k m. k + sum m;
  verify = λ k m s. eqb s (k + sum m);
  signing_key_bytes = λ k. k ∷ zeros 31;
  signing_key_from = λ m. elim m [ [] ↦ 0 | k ∷ rest ↦ k ];
  verifying_key_bytes = λ k. k ∷ zeros 31;
  verifying_key_from = λ m. elim m [ [] ↦ none | k ∷ rest ↦ some k ];
  signature_bytes = λ s. s ∷ zeros 63;
}

head_or_zero : Bytes → ℕ
head_or_zero [] = 0
head_or_zero (x ∷ xs) = x

eqb_refl : (n : ℕ) → eqb n n ≡ true
eqb_refl n = ground arith

decrypt_same : (k m : Bytes) → (if k == k then some m else none) ≡ some m
decrypt_same k m = ground arith

pub toy-IsLawful : IsLawful toy
unfolding head_or_zero
toy-IsLawful = record {
  verify-sign = λ k m. eqb_refl (k + sum m);
  decrypt-encrypt = λ k n a m. decrypt_same k m;
  signing_key_from-bytes = λ k. refl;
  length-signing_key_bytes = λ k. refl;
  length-verifying_key_bytes = λ k. refl;
  length-signature_bytes = λ s. refl;
  verifying_key_from-bytes = λ k. refl;
  decompress-compress = λ p. refl;
  length-scalar_bytes = λ a. refl;
  scalar_bytes-injective = λ a b e. ap head_or_zero e;
  verifying_key_bytes-injective = λ k l e. ap head_or_zero e;
  signature_bytes-injective = λ s t e. ap head_or_zero e;
}

abbrev pub alice : Bytes
alice = 1 ∷ []

abbrev pub alice_key : AccountFamilyKey
alice_key = record { uid = alice; suid = text32 }

abbrev pub blob : CtBlob
blob = record { nonce = zeros 24; ct = zeros 40; tag = zeros 16 }

-- A record under the key 5, signed at a counter.
abbrev pub signed : ℕ → ℕ → SignedAccountRecord toy
signed ctr signature = record {
  uid = alice;
  suid = text32;
  cj = record { nonce = zeros 24; ct = zeros 32 ++ (ctr ∷ zeros 7); tag = zeros 16 };
  ctr = ctr;
  signature = signature;
}

abbrev pub r0 : SignedAccountRecord toy
r0 = signed 0 7

abbrev pub replica : SignedAccountRecord toy → AccountReplica toy
replica r = record { current = some r; status = active }

abbrev empty_provider : ℕ → RoUpSpaProvider toy
empty_provider id = record {
  id = id;
  reachable = true;
  shares = empty;
  identifications = empty;
  accounts = empty;
}

-- Set-up root of the user, unsigned.
abbrev pub root0 : SignedIdentificationRecord toy
root0 = record { cid = blob; ctrid = 0; signature = none }

abbrev pub root1 : SignedIdentificationRecord toy
root1 = record { cid = blob; ctrid = 1; signature = some 8 }

abbrev pub root_replica : Option (SignedIdentificationRecord toy) → IdentificationReplica toy
root_replica proposal = record {
  svk = 5;
  current = root0;
  status = active;
  tentative_identification = proposal;
}

-- A provider with the user's root, which may hold a proposal.
abbrev pub rooted : Option (SignedIdentificationRecord toy) → ℕ → RoUpSpaProvider toy
rooted proposal id = record (empty_provider id) {
  shares = insert empty alice 1;
  identifications = insert empty alice (root_replica proposal);
}

-- A provider with the user's root that keeps an account record too.
abbrev pub keeper : SignedAccountRecord toy → ℕ → RoUpSpaProvider toy
keeper r id = record (rooted none id) { accounts = insert empty alice_key (replica r) }

abbrev pub context_of : InFlightOperation → AccountOperationContext toy
context_of state = record {
  kind = registration;
  account = r0;
  ls_operation = LoginServer.registration text32;
  state = state;
  trace = [];
}

abbrev pub password_context : InFlightOperation → IdentificationOperationContext toy
password_context state = record { root = root1; new_password = 2 ∷ []; state = state; trace = [] }

abbrev pub server : LoginServer
server = record {
  current = empty;
  pending = insert empty alice (LoginServer.registration text32);
  last_stored = empty;
  last_discarded = empty;
}

abbrev pub system : List (RoUpSpaProvider toy) → RoUpSpaSystem toy
system providers = record {
  nsp = 3;
  tsp = 1;
  qsp = 2;
  uid = alice;
  lsj = 9 ∷ [];
  password = 3 ∷ [];
  new_password = 2 ∷ [];
  providers = providers;
  login_server = server;
  last_trace = [];
  initialized = true;
  seed = [];
  operation_counter = 0;
  account_operations = empty;
  identification_operations = empty;
  initial_toprf_key_commitment = none;
  toprf_share_commitments = empty;
}
