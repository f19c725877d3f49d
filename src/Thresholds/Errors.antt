-- ===== src/Thresholds/Errors.antt =====
-- crates/upspa-quorum/src/protocols/roupspa.rs: the errors of a phase.
use Prim.Native.String.{String}
use threshold_password_authe.Base.{ℕ}
use threshold_password_authe.LoginServer.{LoginServerError}
use threshold_password_authe.Provider.{ProviderError}

pub data PhaseError : Type 0 where
  -- nsp, tsp and qsp.
  invalid_threshold : ℕ → ℕ → ℕ → PhaseError
  not_setup duplicate_setup setup_requires_all_providers : PhaseError
  -- The valid responses, and how many are required.
  not_enough_valid_responses : ℕ → ℕ → PhaseError
  inconsistent_verifying_keys invalid_signature : PhaseError
  -- The record family and the counter.
  conflicting_maximum : String → ℕ → PhaseError
  -- The external counter and the internal one.
  external_internal_counter_mismatch : ℕ → ℕ → PhaseError
  decrypt_failed missing_account authentication_rejected : PhaseError
  login_server_rejected : LoginServerError → PhaseError
  provider_rejected : ProviderError → PhaseError
  operation_in_flight no_in_flight_operation wrong_in_flight_operation : PhaseError
  discard_forbidden terminal_store_not_ready missing_provider_share : PhaseError
  invalid_provider_index : ℕ → PhaseError
  empty_provider_targets : PhaseError
