-- ===== src/System/Writes.antt =====
-- crates/upspa-quorum/src/protocols/roupspa.rs: what the two quorum writes share. A write goes to the
-- chosen providers one after another and counts those that accept.
pub mod Counting
use threshold_password_authe.Base.{
  ℕ, Bytes, Result, ok, err, ◌>>=◌, List, [], ◌∷◌, length, set, get_elem?, leb, Option, none, some,
  if◌then◌else◌,
}
use threshold_password_authe.Base.IdSet
use threshold_password_authe.Base.IdSet.{IdSet}
use threshold_password_authe.Primitives.{Primitives}
use threshold_password_authe.Messages.Trace.{ProtocolTrace}
use threshold_password_authe.Provider.{RoUpSpaProvider, ProviderError}
use threshold_password_authe.Thresholds.Errors.{
  PhaseError, empty_provider_targets, invalid_provider_index, wrong_in_flight_operation,
}
use threshold_password_authe.System.Types.{
  PhaseResult, unresolved, InFlightOperation, prepared_at_login_server, prepared_for_provider_write,
  provider_write_started, RoUpSpaSystem,
}

-- The loop of `validate_provider_targets`.
unfoldable pub check_targets : ℕ → List ℕ → IdSet → Result PhaseError IdSet
check_targets n [] unique = ok unique
check_targets n (index ∷ indices) unique =
    let rest = check_targets n indices (IdSet.insert index unique) in
    if leb n index then err (invalid_provider_index index) else rest

unfoldable pub validate_provider_targets : ℕ → List ℕ → Result PhaseError IdSet
unfolding check_targets
validate_provider_targets n [] = err empty_provider_targets
validate_provider_targets n (index ∷ indices) = check_targets n (index ∷ indices) []

-- The state after an attempt, and the result that reports it.
unfoldable pub written_state : ℕ → Bytes → IdSet → InFlightOperation
written_state qsp exact accepted =
    if leb qsp (length accepted)
    then InFlightOperation.ready_for_terminal_store exact accepted accepted
    else provider_write_started exact accepted accepted

unfoldable pub written_result : ℕ → ℕ → Bytes → ProtocolTrace → PhaseResult
written_result qsp acknowledgements digest trace =
    if leb qsp acknowledgements
    then PhaseResult.ready_for_terminal_store acknowledgements qsp digest trace
    else unresolved acknowledgements qsp digest trace

-- The providers that have accepted an account write so far.
unfoldable pub accepted_account : InFlightOperation → Result PhaseError IdSet
accepted_account (prepared_at_login_server digest) = ok []
accepted_account (provider_write_started exact accepted acknowledged) = ok accepted
accepted_account (InFlightOperation.ready_for_terminal_store exact accepted acknowledged) =
    ok accepted
accepted_account _ = err wrong_in_flight_operation

-- The providers that have accepted a password write so far.
unfoldable pub accepted_identification : InFlightOperation → Result PhaseError IdSet
accepted_identification (prepared_for_provider_write digest) = ok []
accepted_identification (provider_write_started exact accepted acknowledged) = ok accepted
accepted_identification (InFlightOperation.ready_for_terminal_store exact accepted acknowledged) =
    ok accepted
accepted_identification _ = err wrong_in_flight_operation

module _ (P : Primitives) where
  abbrev pub Write : Type 0
  Write = RoUpSpaProvider P → Result ProviderError (RoUpSpaProvider P)

  abbrev pub Progress : Type 0
  Progress = List (RoUpSpaProvider P) × IdSet

  -- One provider of the loop, found at its index.
  unfoldable pub write_one : Write → ℕ → Progress → Progress
  write_one write index (providers, accepted) = elim (get_elem? providers index) [
    | none ↦ (providers, accepted)
    | some p ↦ elim (write p) [
      | err e ↦ (providers, accepted)
      | ok q ↦ (set providers index q, IdSet.insert q.id accepted)
    ]
  ]

  -- The loop over the targets.
  unfoldable pub write_all : Write → List ℕ → Progress → Progress
  unfolding write_one
  write_all write [] progress = progress
  write_all write (index ∷ indices) progress =
      write_all write indices (write_one write index progress)
