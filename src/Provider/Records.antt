-- ===== src/Provider/Records.antt =====
-- crates/upspa-quorum/src/protocols/provider.rs: the records that a provider keeps.
use threshold_password_authe.Base.{
  ℕ, Bytes, Eq, Map, Option, Bool, true, false, ℕ_discrete, Result, err, if◌then◌else◌,
}
use threshold_password_authe.Primitives.{Primitives}
use threshold_password_authe.Crypto.{CtBlob}
use threshold_password_authe.Messages.{
  encode_roupspa_account_record, encode_roupspa_identification_record,
}

pub data ReplicaStatus : Type 0 where
  active stale : ReplicaStatus

abbrev pub is_active : ReplicaStatus → Bool
is_active ReplicaStatus.active = true
is_active ReplicaStatus.stale = false

pub record AccountFamilyKey : Type 0 where
  pub uid : Bytes
  pub suid : Bytes

pub AccountFamilyKey-discrete : Discrete AccountFamilyKey
AccountFamilyKey-discrete = hlevel ℕ_discrete

instance unfoldable pub key_eq : Eq AccountFamilyKey
unfolding AccountFamilyKey-discrete
key_eq = record { dec = AccountFamilyKey-discrete }

pub data ProviderError : Type 0 where
  unreachable duplicate_setup missing_identification missing_share stale : ProviderError
  invalid_setup_record invalid_signature : ProviderError
  -- Expected, then received.
  wrong_counter : ℕ → ℕ → ProviderError
  conflicting_record missing_tentative : ProviderError

-- `return Err(error)` unless the test holds.
abbrev pub guard {ℓ} :
    {A : Type ℓ} → Bool → ProviderError → Result ProviderError A → Result ProviderError A
guard test error rest = if test then rest else err error

module _ (P : Primitives) where
  open P use {Point, Scalar, VerifyingKey, Signature, signature_dec}

  pub record SignedIdentificationRecord : Type 0 where
    pub cid : CtBlob
    pub ctrid : ℕ
    pub signature : Option Signature

  pub record SignedAccountRecord : Type 0 where
    pub uid : Bytes
    pub suid : Bytes
    pub cj : CtBlob
    pub ctr : ℕ
    pub signature : Signature

  pub SignedIdentificationRecord-discrete : Discrete SignedIdentificationRecord
  SignedIdentificationRecord-discrete = hlevel (ℕ_discrete, signature_dec)

  unfoldable pub SignedAccountRecord-discrete : Discrete SignedAccountRecord
  SignedAccountRecord-discrete = hlevel (ℕ_discrete, signature_dec)

  instance unfoldable pub identification_eq : Eq SignedIdentificationRecord
  unfolding SignedIdentificationRecord-discrete
  identification_eq = record { dec = SignedIdentificationRecord-discrete }

  instance unfoldable pub account_eq : Eq SignedAccountRecord
  unfolding SignedAccountRecord-discrete
  account_eq = record { dec = SignedAccountRecord-discrete }

  -- `SignedAccountRecord::signed_bytes`.
  unfoldable pub account_signed_bytes : SignedAccountRecord → Bytes
  account_signed_bytes r = encode_roupspa_account_record r.uid r.suid r.cj r.ctr

  -- `SignedIdentificationRecord::signed_bytes`.
  unfoldable pub identification_signed_bytes : SignedIdentificationRecord → Bytes → Bytes
  identification_signed_bytes r uid = encode_roupspa_identification_record uid r.cid r.ctrid

  pub record IdentificationReplica : Type 0 where
    pub svk : VerifyingKey
    pub current : SignedIdentificationRecord
    pub status : ReplicaStatus
    pub tentative_identification : Option SignedIdentificationRecord

  pub record AccountReplica : Type 0 where
    pub current : Option SignedAccountRecord
    pub status : ReplicaStatus

  pub record IdentificationResponse : Type 0 where
    pub provider_id : ℕ
    pub svk : VerifyingKey
    pub current : SignedIdentificationRecord
    pub toprf_response : Option Point

  pub record RoUpSpaProvider : Type 0 where
    pub id : ℕ
    pub reachable : Bool
    pub shares : Map Bytes Scalar
    pub identifications : Map Bytes IdentificationReplica
    pub accounts : Map AccountFamilyKey AccountReplica
