-- ===== src/UpSpa/System/Types.antt =====
-- crates/upspa/src/protocols/system.rs: the state of the client and the results of a phase.
use threshold_password_authe.Base.{
  ℕ, zero, suc, ◌+◌, ◌-◌, ◌%◌, Bytes, bytes_eq, Map, empty, contains_key, HashSet, no_members,
  add_member, remove_member, Bool, ◌||◌, List, [], ◌∷◌, get_elem?, set, Option, none, some, Result,
  ok, err, Reply, ltb, eqb, if◌then◌else◌,
}
use threshold_password_authe.Base.IdSet.{IdSet}
use threshold_password_authe.Primitives.{Primitives}
use threshold_password_authe.Crypto.{CtBlob}
use threshold_password_authe.UpSpa.Messages.{UpSpaPasswordUpdateRequest}
use threshold_password_authe.UpSpa.Messages.Trace.{ProtocolTrace}
use threshold_password_authe.UpSpa.LoginServer
use threshold_password_authe.UpSpa.LoginServer.{LoginServer, LoginServerError, PendingLsOperation}
use threshold_password_authe.UpSpa.Provider.Records
use threshold_password_authe.UpSpa.Provider.Records.{UpSpaProvider, ProviderError, unknown_user}

pub data PhaseKind : Type 0 where
  setup registration authentication secret_update password_update : PhaseKind

pub data PhaseResult : Type 0 where
  completed aborted : PhaseResult

pub record PhaseOutcome : Type 0 where
  pub phase : PhaseKind
  pub result : PhaseResult
  pub trace : ProtocolTrace

pub record AuthenticationOutcome : Type 0 where
  pub authenticated : Bool
  pub selected_counter : ℕ
  pub trace : ProtocolTrace

pub data IdentificationRequirement : Type 0 where
  threshold all_providers : IdentificationRequirement

-- The fields of a constructor stand in the order of the source.
pub data PhaseError : Type 0 where
  invalid_parameters : ℕ → ℕ → PhaseError
  operation_in_progress : PhaseError
  at_provider : ℕ → ProviderError → PhaseError
  at_login_server : LoginServerError → PhaseError
  insufficient_identification_responses : ℕ → ℕ → PhaseError
  inconsistent_identification_records : PhaseError
  invalid_toprf_contribution : PhaseError
  root_decryption_failed : PhaseError
  root_verification_key_mismatch : PhaseError
  insufficient_account_responses : ℕ → ℕ → PhaseError
  account_decryption_failed : PhaseError
  account_counter_overflow : PhaseError
  no_finalization_pending : PhaseError
  finalization_incomplete : ℕ → ℕ → Bool → PhaseError

pub data TerminalAction : Type 0 where
  store discard : TerminalAction

module _ (P : Primitives) where
  pub record IdentifiedState : Type 0 where
    pub signing_key : P.SigningKey
    pub rsp : Bytes
    pub k0 : Bytes
    pub cid : CtBlob
    pub svk : P.VerifyingKey
    pub responding_providers : List ℕ

  -- `Account` has the identifiers, the sealed account, the login server's operation, and whether the
  -- phase is a secret update.
  pub data FinalizationPayload : Type 0 where
    account : List Bytes → CtBlob → PendingLsOperation → Bool → FinalizationPayload
    password_update : List (UpSpaPasswordUpdateRequest P) → FinalizationPayload

  pub record PendingFinalization : Type 0 where
    pub phase : PhaseKind
    pub action : TerminalAction
    pub provider_positions : List ℕ
    pub acknowledged_positions : IdSet
    pub login_server_required : Bool
    pub login_server_processed : Bool
    pub payload : FinalizationPayload
    pub trace : ProtocolTrace
    pub stage_id : ℕ
    pub original_error : Option PhaseError

  -- What a phase draws from the generator and the clock is an argument of the phase.
  pub record UpSpaSystem : Type 0 where
    pub nsp : ℕ
    pub tsp : ℕ
    pub providers : List (UpSpaProvider P)
    pub login_server : LoginServer
    pub active_operations : HashSet Bytes
    pub pending_finalizations : Map Bytes PendingFinalization
    pub last_trace : ProtocolTrace

  abbrev pub Outcome : Type 0 → Type 0
  Outcome A = Reply PhaseError UpSpaSystem A

  -- `n` providers, numbered from `index` on.
  unfoldable pub numbered_providers : ℕ → ℕ → List (UpSpaProvider P)
  unfolding Records.new
  numbered_providers zero index = []
  numbered_providers (suc n) index =
      Records.new P (index % 4294967296) ∷ numbered_providers n (index + 1)

  -- `u32::MAX` bounds the number of providers.
  unfoldable pub with_seed_and_clock : ℕ → ℕ → Result PhaseError UpSpaSystem
  unfolding numbered_providers LoginServer.new
  with_seed_and_clock nsp tsp =
      if eqb nsp 0 || (eqb tsp 0 || (ltb nsp tsp || ltb 4294967295 nsp))
      then err (invalid_parameters nsp tsp)
      else ok (record {
        nsp = nsp;
        tsp = tsp;
        providers = numbered_providers nsp 1;
        login_server = LoginServer.new;
        active_operations = no_members;
        pending_finalizations = empty;
        last_trace = [];
      })

  unfoldable pub provider : UpSpaSystem → ℕ → Option (UpSpaProvider P)
  provider s zero = none
  provider s (suc position) = get_elem? s.providers position

  unfoldable pub set_provider_reachable : UpSpaSystem → ℕ → Bool → Outcome (Unit {0})
  unfolding provider Records.set_reachable
  set_provider_reachable s provider_index reachable = elim (provider s provider_index) [
    | none ↦ (err (at_provider provider_index unknown_user), s)
    | some p ↦ (
      ok tt,
      record s {
        providers = set s.providers (provider_index - 1) (Records.set_reachable P p reachable);
      },
    )
  ]

  unfoldable pub acquire_operation : UpSpaSystem → Bytes → Outcome (Unit {0})
  acquire_operation s uid =
      if s.active_operations uid
      then (err operation_in_progress, s)
      else (ok tt, record s { active_operations = add_member s.active_operations uid })

  unfoldable pub release_operation : UpSpaSystem → Bytes → UpSpaSystem
  release_operation s uid = record s { active_operations = remove_member s.active_operations uid }

  unfoldable pub has_pending_finalization : UpSpaSystem → Bytes → Bool
  has_pending_finalization s uid = contains_key s.pending_finalizations uid

  unfoldable pub release_if_resolved : UpSpaSystem → Bytes → UpSpaSystem
  unfolding release_operation
  release_if_resolved s uid =
      if contains_key s.pending_finalizations uid then s else release_operation s uid

  unfoldable pub finish : UpSpaSystem → PhaseKind → ProtocolTrace → PhaseOutcome × UpSpaSystem
  finish s phase trace =
      (record { phase = phase; result = completed; trace = trace }, record s { last_trace = trace })

  unfoldable pub fail_with_trace :
      {A : Type 0} → UpSpaSystem → ProtocolTrace → PhaseError → Outcome A
  fail_with_trace s trace error = (err error, record s { last_trace = trace })
