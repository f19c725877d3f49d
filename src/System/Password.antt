-- ===== src/System/Password.antt =====
-- crates/upspa-quorum/src/protocols/roupspa.rs: a password update, from the new identification record
-- over the tentative quorum write, its retries and its abort.
pub mod Deliver
pub mod Commit
use threshold_password_authe.Base.{
  ℕ, ◌-◌, Bytes, bytes_eq, ◌>>=◌, ◌==◌, Result, ok, err, ok_or, checked_succ, insert, remove, List,
  [], length, none, some, if◌then◌else◌,
}
use threshold_password_authe.Base.IdSet
use threshold_password_authe.Base.IdSet.{IdSet}
use threshold_password_authe.Primitives.{Primitives}
use threshold_password_authe.Crypto.{xchacha_encrypt_detached}
use threshold_password_authe.Messages.{
  encode_roupspa_identification_record, identification_write_request_bytes, status_bytes,
}
use threshold_password_authe.Messages.Trace.{
  ProtocolTrace, identification_old, quorum_tentative_writes, user, provider, quorum, push,
  next_stage_id,
}
use threshold_password_authe.Provider.{SignedIdentificationRecord, accept_tentative_identification}
use threshold_password_authe.Thresholds.Errors.{
  PhaseError, no_in_flight_operation, wrong_in_flight_operation, discard_forbidden,
  conflicting_maximum,
}
use threshold_password_authe.System.Types.{
  PhaseResult, InFlightOperation, prepared_for_provider_write, provider_write_started,
  IdentificationOperationContext, RecoveredIdentification, RoUpSpaSystem, Outcome, digest_bytes,
  exact_identification_tuple, cipherid_aad,
}
use threshold_password_authe.System.Plaintext.{make_identification_plaintext}
use threshold_password_authe.System.Reads.{common_identification, evaluate_same_toprf}
use threshold_password_authe.System.Writes.{
  validate_provider_targets, written_state, written_result, accepted_identification, write_all,
}

module _ (P : Primitives) where
  -- The client's secrets under the new password, sealed and signed at the next counter.
  unfoldable pub seal_identification :
      RoUpSpaSystem P → RecoveredIdentification P → Bytes → ℕ → Bytes → SignedIdentificationRecord P
  unfolding xchacha_encrypt_detached
  seal_identification s recovered state_key ctrid nonce =
      let cid =
        xchacha_encrypt_detached P state_key (cipherid_aad P s)
          (make_identification_plaintext P recovered.ssk recovered.rsp recovered.k0 ctrid) nonce in
      record {
        cid = cid;
        ctrid = ctrid;
        signature =
            some (P.sign recovered.ssk (encode_roupspa_identification_record s.uid cid ctrid));
      }

  -- The last part of `begin_password_update_with_rng`. Where the counter overflows the source returns
  -- before it records the trace.
  unfoldable pub begin_password_of :
      RoUpSpaSystem P
      → RecoveredIdentification P
      → Bytes
      → Bytes
      → ProtocolTrace
      → Outcome P (Unit {0})
  unfolding seal_identification
  begin_password_of s recovered new_state_key nonce trace =
      elim (ok_or (checked_succ recovered.ctrid)
        (conflicting_maximum "identification-counter-overflow" recovered.ctrid)) [
          | err e ↦ (err e, s)
          | ok new_ctrid ↦
              let r = seal_identification s recovered new_state_key new_ctrid nonce in
              (
                ok tt,
                record s {
                  identification_operations = insert s.identification_operations s.uid (record {
                    root = r;
                    new_password = s.new_password;
                    state =
                        prepared_for_provider_write
                          (digest_bytes P (exact_identification_tuple P s.uid r));
                    trace = trace;
                  });
                  last_trace = trace;
                },
              )
        ]

  unfoldable pub begin_password_update_with_rng :
      RoUpSpaSystem P → P.Scalar → P.Scalar → Bytes → Outcome P (Unit {0})
  unfolding begin_password_of
  begin_password_update_with_rng s blind new_blind nonce =
      elim (common_identification P s s.password identification_old [] blind) [
        | err e ↦ (err e, record s { last_trace = [] })
        | ok (recovered, identified) ↦
            elim (evaluate_same_toprf P s s.new_password identified new_blind) [
              | err e ↦ (err e, record s { last_trace = identified })
              | ok (new_state_key, trace) ↦ begin_password_of s recovered new_state_key nonce trace
            ]
      ]

  unfoldable pub plan_password_write :
      RoUpSpaSystem P
      → IdentificationOperationContext P
      → List ℕ
      → Result PhaseError (IdSet × IdSet)
  plan_password_write s context indices = do
    targets ← validate_provider_targets (length s.providers) indices
    accepted ← accepted_identification context.state
    ok (targets, accepted)

  -- From the loop over the targets to the result.
  unfoldable pub run_password_write :
      RoUpSpaSystem P → IdentificationOperationContext P → IdSet → IdSet → Outcome P PhaseResult
  run_password_write s context targets before =
      let (providers, accepted) =
        write_all P (λ p. accept_tentative_identification P p s.uid context.root) targets
          (s.providers, before) in
      let exact = exact_identification_tuple P s.uid context.root in
      let trace = push context.trace (record {
        stage_id = next_stage_id context.trace;
        stage = quorum_tentative_writes;
        sender_role = user;
        receiver_role = provider;
        recipient_count = length targets;
        request_bytes = identification_write_request_bytes s.uid;
        response_bytes = status_bytes;
        wait_policy = quorum s.qsp;
        acknowledgements = length accepted - length before;
      }) in
      let stored = record context { state = written_state s.qsp exact accepted; trace = trace } in
      (
        ok (written_result s.qsp (length accepted) (digest_bytes P exact) trace),
        record s {
          providers = providers;
          identification_operations = insert s.identification_operations s.uid stored;
          last_trace = trace;
        },
      )

  -- Also `retry_inflight_password_write`.
  unfoldable pub attempt_password_update_write : RoUpSpaSystem P → List ℕ → Outcome P PhaseResult
  attempt_password_update_write s indices = elim (s.identification_operations s.uid) [
    | none ↦ (err no_in_flight_operation, s)
    | some context ↦ elim (plan_password_write s context indices) [
      | err e ↦ (err e, s)
      | ok (targets, before) ↦ run_password_write s context targets before
    ]
  ]

  unfoldable pub retry_inflight_password_write_exact :
      RoUpSpaSystem P → SignedIdentificationRecord P → List ℕ → Outcome P PhaseResult
  retry_inflight_password_write_exact s r indices = elim (s.identification_operations s.uid) [
    | none ↦ (err no_in_flight_operation, s)
    | some context ↦
        if exact_identification_tuple P s.uid context.root == exact_identification_tuple P s.uid r
        then attempt_password_update_write s indices
        else (err wrong_in_flight_operation, s)
  ]

  unfoldable pub abort_password_update_before_write : RoUpSpaSystem P → Outcome P (Unit {0})
  abort_password_update_before_write s = elim (s.identification_operations s.uid) [
    | none ↦ (err no_in_flight_operation, s)
    | some context ↦ elim context.state [
      | prepared_for_provider_write digest ↦
          (ok tt, record s { identification_operations = remove s.identification_operations s.uid })
      | provider_write_started exact accepted acknowledged ↦ (err discard_forbidden, s)
      | InFlightOperation.ready_for_terminal_store exact accepted acknowledged ↦
          (err discard_forbidden, s)
      | _ ↦ (err wrong_in_flight_operation, s)
    ]
  ]
