-- ===== src/System/Account/Deliver.antt =====
-- crates/upspa-quorum/src/protocols/roupspa.rs: the terminal Store of an account operation.
use threshold_password_authe.Base.{
  ℕ, Bytes, Result, ok, err, remove, List, map, length, none, some, if◌then◌else◌,
}
use threshold_password_authe.Base.IdSet
use threshold_password_authe.Base.IdSet.{IdSet}
use threshold_password_authe.Primitives.{Primitives}
use threshold_password_authe.Messages.{login_server_registration_bytes, login_server_update_bytes}
use threshold_password_authe.Messages.Trace.{
  ls_terminal_delivery, user, login_server, one_way_delivery_bound, push, next_stage_id,
}
use threshold_password_authe.LoginServer
use threshold_password_authe.LoginServer.{LoginServer, PendingLsOperation}
use threshold_password_authe.Provider.{
  RoUpSpaProvider, AccountFamilyKey, key_eq, ReplicaStatus, active, mark_account_status,
}
use threshold_password_authe.Thresholds.Errors.{
  PhaseError, login_server_rejected, no_in_flight_operation, wrong_in_flight_operation,
  terminal_store_not_ready,
}
use threshold_password_authe.System.Types.{
  PhaseResult, completed, InFlightOperation, provider_write_started, AccountOperationContext,
  RoUpSpaSystem, Outcome, digest_bytes, exact_account_tuple,
}

-- The providers whose acknowledgement lets the Store be delivered.
unfoldable pub acknowledged_set : InFlightOperation → Result PhaseError IdSet
acknowledged_set (InFlightOperation.ready_for_terminal_store exact accepted acknowledged) =
    ok acknowledged
acknowledged_set (provider_write_started exact accepted acknowledged) = err terminal_store_not_ready
acknowledged_set _ = err wrong_in_flight_operation

abbrev pub status_for : IdSet → ℕ → ReplicaStatus
status_for acknowledged id = if IdSet.mem id acknowledged then active else ReplicaStatus.stale

terminal_bytes : PendingLsOperation → Bytes → ℕ
terminal_bytes (LoginServer.registration vinfo) uid = login_server_registration_bytes uid
terminal_bytes (LoginServer.secret_update old_vinfo new_vinfo) uid = login_server_update_bytes uid

module _ (P : Primitives) where
  -- The loop over the providers: who did not acknowledge is stale.
  unfoldable pub mark_all :
      AccountFamilyKey → IdSet → List (RoUpSpaProvider P) → List (RoUpSpaProvider P)
  mark_all key acknowledged = map (λ p. mark_account_status P p key (status_for acknowledged p.id))

  unfoldable pub finish_delivery :
      RoUpSpaSystem P
      → AccountFamilyKey
      → AccountOperationContext P
      → IdSet
      → LoginServer
      → Outcome P PhaseResult
  unfolding mark_all terminal_bytes
  finish_delivery s key context acknowledged server =
      let trace = push context.trace (record {
        stage_id = next_stage_id context.trace;
        stage = ls_terminal_delivery;
        sender_role = user;
        receiver_role = login_server;
        recipient_count = 1;
        request_bytes = terminal_bytes context.ls_operation s.uid;
        response_bytes = 0;
        wait_policy = one_way_delivery_bound;
        acknowledgements = 0;
      }) in
      (
        ok (
            completed (length acknowledged) (digest_bytes P (exact_account_tuple P context.account))
              none trace),
        record s {
          login_server = server;
          providers = mark_all key acknowledged s.providers;
          account_operations = remove s.account_operations key;
          last_trace = trace;
        },
      )

  unfoldable pub deliver_account_store : RoUpSpaSystem P → AccountFamilyKey → Outcome P PhaseResult
  unfolding finish_delivery acknowledged_set
  deliver_account_store s key = elim (s.account_operations key) [
    | none ↦ (err no_in_flight_operation, s)
    | some context ↦ elim (acknowledged_set context.state) [
      | err e ↦ (err e, s)
      | ok acknowledged ↦ elim (LoginServer.store s.login_server s.uid context.ls_operation) [
        | err e ↦ (err (login_server_rejected e), s)
        | ok server ↦ finish_delivery s key context acknowledged server
      ]
    ]
  ]
