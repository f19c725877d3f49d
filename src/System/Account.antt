-- ===== src/System/Account.antt =====
-- crates/upspa-quorum/src/protocols/roupspa.rs: an account operation, from its preparation at the
-- login server over the quorum write to the terminal Store. The scalar, the secret and the nonce that
-- the source draws are arguments.
pub mod Begin
pub mod Deliver
pub mod Quorum
pub mod Frame
pub mod Invariant
pub mod Marking
pub mod Commit
pub mod Abort
pub mod Cycle
use threshold_password_authe.Base.{
  ℕ, ◌-◌, Bytes, bytes_eq, ◌==◌, Result, ok, err, ◌>>=◌, insert, remove, Bool, true, false, not,
  List, [], ◌∷◌, length, Option, none, some, if◌then◌else◌,
}
use threshold_password_authe.Base.IdSet.{IdSet}
use threshold_password_authe.Primitives.{Primitives}
use threshold_password_authe.Messages.{account_write_request_bytes, status_bytes}
use threshold_password_authe.Messages.Trace.{
  ProtocolTrace, provider_quorum_write, user, provider, quorum, push, next_stage_id,
}
use threshold_password_authe.LoginServer
use threshold_password_authe.Provider.{
  RoUpSpaProvider, ProviderError, AccountFamilyKey, key_eq, SignedAccountRecord,
  accept_registration_account, accept_secret_update_account,
}
use threshold_password_authe.Thresholds.Errors.{
  PhaseError, login_server_rejected, no_in_flight_operation, wrong_in_flight_operation,
  discard_forbidden,
}
use threshold_password_authe.System.Types.{
  PhaseResult, AccountWriteKind, registration, secret_update, InFlightOperation,
  prepared_at_login_server, provider_write_started, AccountOperationContext, RoUpSpaSystem, Outcome,
  digest_bytes, exact_account_tuple,
}
use threshold_password_authe.System.Writes.{
  validate_provider_targets, written_state, written_result, accepted_account, Progress, write_all,
}

module _ (P : Primitives) where
  unfoldable pub account_write :
      AccountWriteKind
      → SignedAccountRecord P
      → RoUpSpaProvider P
      → Result ProviderError (RoUpSpaProvider P)
  account_write registration r p = accept_registration_account P p r
  account_write secret_update r p = accept_secret_update_account P p r

  -- The checks before the first write: the targets, and the providers that have accepted before.
  unfoldable pub plan_account_write :
      RoUpSpaSystem P → AccountOperationContext P → List ℕ → Result PhaseError (IdSet × IdSet)
  unfolding validate_provider_targets accepted_account
  plan_account_write s context indices = do
    targets ← validate_provider_targets (length s.providers) indices
    accepted ← accepted_account context.state
    ok (targets, accepted)

  -- The event of an attempt that reached `targets` and brought the accepted from `before` to `after`.
  abbrev write_trace : RoUpSpaSystem P → ProtocolTrace → IdSet → IdSet → IdSet → ProtocolTrace
  write_trace s trace targets before after = push trace (record {
    stage_id = next_stage_id trace;
    stage = provider_quorum_write;
    sender_role = user;
    receiver_role = provider;
    recipient_count = length targets;
    request_bytes = account_write_request_bytes s.uid;
    response_bytes = status_bytes;
    wait_policy = quorum s.qsp;
    acknowledgements = length after - length before;
  })

  -- From the loop over the targets to the result.
  unfoldable pub run_account_write :
      RoUpSpaSystem P
      → AccountFamilyKey
      → AccountOperationContext P
      → IdSet
      → IdSet
      → Outcome P PhaseResult
  unfolding account_write written_state written_result
  run_account_write s key context targets before =
      let (providers, accepted) =
        write_all P (account_write context.kind context.account) targets (s.providers, before) in
      let exact = exact_account_tuple P context.account in
      let trace = write_trace s context.trace targets before accepted in
      let stored = record context { state = written_state s.qsp exact accepted; trace = trace } in
      (
        ok (written_result s.qsp (length accepted) (digest_bytes P exact) trace),
        record s {
          providers = providers;
          account_operations = insert s.account_operations key stored;
          last_trace = trace;
        },
      )

  unfoldable pub retry_inflight_account_write :
      RoUpSpaSystem P → AccountFamilyKey → List ℕ → Outcome P PhaseResult
  unfolding plan_account_write run_account_write
  retry_inflight_account_write s key indices = elim (s.account_operations key) [
    | none ↦ (err no_in_flight_operation, s)
    | some context ↦ elim (plan_account_write s context indices) [
      | err e ↦ (err e, s)
      | ok (targets, before) ↦ run_account_write s key context targets before
    ]
  ]

  abbrev pub is_kind : AccountWriteKind → AccountWriteKind → Bool
  is_kind registration registration = true
  is_kind secret_update secret_update = true
  is_kind _ _ = false

  -- `attempt_registration_write` and `attempt_secret_update_write`, by the kind that they want.
  unfoldable pub attempt_account_write :
      AccountWriteKind → RoUpSpaSystem P → AccountFamilyKey → List ℕ → Outcome P PhaseResult
  attempt_account_write kind s key indices = elim (s.account_operations key) [
    | none ↦ (err wrong_in_flight_operation, s)
    | some context ↦
        if is_kind context.kind kind
        then retry_inflight_account_write s key indices
        else (err wrong_in_flight_operation, s)
  ]

  unfoldable pub retry_inflight_account_write_exact :
      RoUpSpaSystem P → AccountFamilyKey → SignedAccountRecord P → List ℕ → Outcome P PhaseResult
  retry_inflight_account_write_exact s key r indices = elim (s.account_operations key) [
    | none ↦ (err no_in_flight_operation, s)
    | some frozen ↦
        if exact_account_tuple P frozen.account == exact_account_tuple P r
        then retry_inflight_account_write s key indices
        else (err wrong_in_flight_operation, s)
  ]

  -- The arm of `abort_account_before_write` for an operation that is only prepared.
  unfoldable pub discard_prepared :
      RoUpSpaSystem P → AccountFamilyKey → AccountOperationContext P → Outcome P (Unit {0})
  discard_prepared s key context =
      elim (LoginServer.discard s.login_server s.uid context.ls_operation) [
        | err e ↦ (err (login_server_rejected e), s)
        | ok server ↦ (
          ok tt,
          record s { login_server = server; account_operations = remove s.account_operations key },
        )
      ]

  unfoldable pub abort_account_before_write :
      RoUpSpaSystem P → AccountFamilyKey → Outcome P (Unit {0})
  unfolding discard_prepared
  abort_account_before_write s key = elim (s.account_operations key) [
    | none ↦ (err no_in_flight_operation, s)
    | some context ↦ elim context.state [
      | prepared_at_login_server digest ↦ discard_prepared s key context
      | provider_write_started exact accepted acknowledged ↦ (err discard_forbidden, s)
      | InFlightOperation.ready_for_terminal_store exact accepted acknowledged ↦
          (err discard_forbidden, s)
      | _ ↦ (err wrong_in_flight_operation, s)
    ]
  ]
