-- ===== src/System/Types.antt =====
-- crates/upspa-quorum/src/protocols/roupspa.rs: the state of the client and the results of a phase.
use threshold_password_authe.Base.{
  ℕ, ◌+◌, ◌%◌, ◌++◌, Bytes, bytes_eq, Map, Bool, List, [], Option, none, some, Result, codes,
  le_bytes, u64_max,
}
use threshold_password_authe.Base.IdSet.{IdSet}
use threshold_password_authe.Primitives.{Primitives}
use threshold_password_authe.Messages.Trace.{ProtocolTrace}
use threshold_password_authe.LoginServer.{LoginServer, PendingLsOperation}
use threshold_password_authe.Provider.{
  RoUpSpaProvider, AccountFamilyKey, SignedAccountRecord, SignedIdentificationRecord,
  account_signed_bytes, identification_signed_bytes,
}
use threshold_password_authe.Thresholds.Errors.{PhaseError}

-- The fields of a constructor stand in the order of the source.
pub data PhaseResult : Type 0 where
  completed : ℕ → Bytes → Option Bool → ProtocolTrace → PhaseResult
  ready_for_terminal_store : ℕ → ℕ → Bytes → ProtocolTrace → PhaseResult
  aborted : PhaseError → ProtocolTrace → PhaseResult
  unresolved : ℕ → ℕ → Bytes → ProtocolTrace → PhaseResult

pub data AccountWriteKind : Type 0 where
  registration secret_update : AccountWriteKind

pub data InFlightOperation : Type 0 where
  idle : InFlightOperation
  prepared_at_login_server : Bytes → InFlightOperation
  prepared_for_provider_write : Bytes → InFlightOperation
  -- The exact tuple, the providers that accepted it, and those that acknowledged it.
  provider_write_started : Bytes → IdSet → IdSet → InFlightOperation
  ready_for_terminal_store : Bytes → IdSet → IdSet → InFlightOperation

module _ (P : Primitives) where
  pub record AccountOperationContext : Type 0 where
    pub kind : AccountWriteKind
    pub account : SignedAccountRecord P
    pub ls_operation : PendingLsOperation
    pub state : InFlightOperation
    pub trace : ProtocolTrace

  pub record IdentificationOperationContext : Type 0 where
    pub root : SignedIdentificationRecord P
    pub new_password : Bytes
    pub state : InFlightOperation
    pub trace : ProtocolTrace

  pub record RecoveredIdentification : Type 0 where
    pub ssk : P.SigningKey
    pub svk : P.VerifyingKey
    pub rsp : Bytes
    pub k0 : Bytes
    pub ctrid : ℕ

  pub record RecoveredAccount : Type 0 where
    pub account : SignedAccountRecord P
    pub rlsj : Bytes

  pub record RoUpSpaSystem : Type 0 where
    pub nsp : ℕ
    pub tsp : ℕ
    pub qsp : ℕ
    pub uid : Bytes
    pub lsj : Bytes
    pub password : Bytes
    pub new_password : Bytes
    pub providers : List (RoUpSpaProvider P)
    pub login_server : LoginServer
    pub last_trace : ProtocolTrace
    pub initialized : Bool
    pub seed : Bytes
    pub operation_counter : ℕ
    pub account_operations : Map AccountFamilyKey (AccountOperationContext)
    pub identification_operations : Map Bytes (IdentificationOperationContext)
    pub initial_toprf_key_commitment : Option Bytes
    pub toprf_share_commitments : Map ℕ Bytes

  -- The result of a method on `&mut self`, and the state that it leaves.
  abbrev pub Outcome : Type 0 → Type 0
  Outcome A = Result PhaseError A × RoUpSpaSystem

  unfoldable pub digest_bytes : Bytes → Bytes
  digest_bytes bytes = P.hash bytes

  unfoldable pub exact_account_tuple : SignedAccountRecord P → Bytes
  unfolding account_signed_bytes
  exact_account_tuple r = account_signed_bytes P r ++ P.signature_bytes r.signature

  unfoldable pub exact_identification_tuple : Bytes → SignedIdentificationRecord P → Bytes
  unfolding identification_signed_bytes
  exact_identification_tuple uid r =
      identification_signed_bytes P r uid
      ++ (elim r.signature [ none ↦ [] | some signature ↦ P.signature_bytes signature ])

  -- `operation_rng`: the seed of the generator that an operation draws from.
  unfoldable pub operation_seed : RoUpSpaSystem → Bytes → Bytes × RoUpSpaSystem
  operation_seed s tag = (
    P.hash (
        codes "roupspa/system-operation-rng/v1"
        ++ (s.seed ++ (tag ++ le_bytes 8 s.operation_counter))),
    record s { operation_counter = (s.operation_counter + 1) % (u64_max + 1) },
  )

  unfoldable pub cipherid_aad : RoUpSpaSystem → Bytes
  cipherid_aad s = s.uid ++ codes "|cipherid"

  unfoldable pub ciphersp_aad : RoUpSpaSystem → Bytes
  ciphersp_aad s = s.uid ++ codes "|ciphersp"
