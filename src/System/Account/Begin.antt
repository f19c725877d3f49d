-- ===== src/System/Account/Begin.antt =====
-- crates/upspa-quorum/src/protocols/roupspa.rs: the start of a registration and of a secret update,
-- up to the preparation at the login server.
use threshold_password_authe.Base.{
  ℕ, Bytes, ok, err, ok_or, checked_succ, insert, not, [], if◌then◌else◌,
}
use threshold_password_authe.Primitives.{Primitives}
use threshold_password_authe.Crypto.{xchacha_encrypt_detached, hash_vinfo}
use threshold_password_authe.Messages.{
  encode_roupspa_account_record, login_server_registration_bytes, login_server_update_bytes,
  status_bytes,
}
use threshold_password_authe.Messages.Trace.{
  ProtocolTrace, identification, ls_prepare, user, login_server, all_responses, push, next_stage_id,
}
use threshold_password_authe.LoginServer
use threshold_password_authe.LoginServer.{Prepared}
use threshold_password_authe.Provider.{AccountFamilyKey, key_eq, SignedAccountRecord}
use threshold_password_authe.Thresholds.Errors.{
  operation_in_flight, login_server_rejected, conflicting_maximum,
}
use threshold_password_authe.System.Types.{
  AccountWriteKind, registration, secret_update, prepared_at_login_server, RecoveredIdentification,
  RoUpSpaSystem, Outcome, digest_bytes, exact_account_tuple, ciphersp_aad,
}
use threshold_password_authe.System.Plaintext.{make_account_plaintext}
use threshold_password_authe.System.Reads.{
  is_idle, account_operation_state, common_identification, shared_suid,
}
use threshold_password_authe.System.AccountRead.{read_account}

module _ (P : Primitives) where
  -- The record of a new secret at a counter, sealed and signed.
  unfoldable pub seal_account :
      RoUpSpaSystem P
      → RecoveredIdentification P
      → Bytes
      → Bytes
      → ℕ
      → Bytes
      → SignedAccountRecord P
  unfolding xchacha_encrypt_detached
  seal_account s recovered suid rlsj ctr nonce =
      let cj =
        xchacha_encrypt_detached P recovered.k0 (ciphersp_aad P s) (make_account_plaintext rlsj ctr)
          nonce in
      record {
        uid = s.uid;
        suid = suid;
        cj = cj;
        ctr = ctr;
        signature = P.sign recovered.ssk (encode_roupspa_account_record s.uid suid cj ctr);
      }

  -- What follows the login server's answer, on both of its branches.
  unfoldable pub finish_begin :
      RoUpSpaSystem P
      → AccountWriteKind
      → AccountFamilyKey
      → SignedAccountRecord P
      → ℕ
      → ProtocolTrace
      → Prepared
      → Outcome P AccountFamilyKey
  finish_begin s kind key r request_bytes trace prepared =
      let after = push trace (record {
        stage_id = next_stage_id trace;
        stage = ls_prepare;
        sender_role = user;
        receiver_role = login_server;
        recipient_count = 1;
        request_bytes = request_bytes;
        response_bytes = status_bytes;
        wait_policy = all_responses;
        acknowledgements = 1;
      }) in
      elim prepared [
        | err e ↦ (err (login_server_rejected e), record s { last_trace = after })
        | ok (server, operation) ↦ (
          ok key,
          record s {
            login_server = server;
            account_operations = insert s.account_operations key (record {
              kind = kind;
              account = r;
              ls_operation = operation;
              state = prepared_at_login_server (digest_bytes P (exact_account_tuple P r));
              trace = after;
            });
            last_trace = after;
          },
        )
      ]

  unfoldable pub begin_registration_with_rng :
      RoUpSpaSystem P → P.Scalar → Bytes → Bytes → Outcome P AccountFamilyKey
  unfolding finish_begin seal_account shared_suid
  begin_registration_with_rng s blind rlsj nonce =
      elim (common_identification P s s.password identification [] blind) [
        | err e ↦ (err e, record s { last_trace = [] })
        | ok (recovered, trace) ↦
            let suid = shared_suid P s recovered.rsp in
            let key : AccountFamilyKey = record { uid = s.uid; suid = suid } in
            if not (is_idle (account_operation_state P s key))
            then (err operation_in_flight, record s { last_trace = trace })
            else finish_begin s registration key (seal_account s recovered suid rlsj 0 nonce)
                (login_server_registration_bytes s.uid) trace
                (LoginServer.prepare_registration s.login_server s.uid (hash_vinfo P rlsj s.lsj))
      ]

  -- A secret update once the account is read: the counter, the record and the preparation. Where the
  -- counter overflows the source returns before it records the trace.
  unfoldable pub begin_update_of :
      RoUpSpaSystem P
      → RecoveredIdentification P
      → AccountFamilyKey
      → ℕ
      → Bytes
      → Bytes
      → Bytes
      → ProtocolTrace
      → Outcome P AccountFamilyKey
  unfolding finish_begin seal_account
  begin_update_of s recovered key old_ctr old_rlsj new_rlsj nonce trace =
      elim (ok_or (checked_succ old_ctr) (conflicting_maximum "account-counter-overflow" old_ctr)) [
        | err e ↦ (err e, s)
        | ok new_ctr ↦
            finish_begin s secret_update key
              (seal_account s recovered key.suid new_rlsj new_ctr nonce)
              (login_server_update_bytes s.uid) trace
              (LoginServer.prepare_secret_update s.login_server s.uid (hash_vinfo P old_rlsj s.lsj)
                (hash_vinfo P new_rlsj s.lsj))
      ]

  unfoldable pub begin_secret_update_with_rng :
      RoUpSpaSystem P → P.Scalar → Bytes → Bytes → Outcome P AccountFamilyKey
  unfolding begin_update_of shared_suid
  begin_secret_update_with_rng s blind new_rlsj nonce =
      elim (common_identification P s s.password identification [] blind) [
        | err e ↦ (err e, record s { last_trace = [] })
        | ok (recovered, identified) ↦
            let key : AccountFamilyKey = record {
              uid = s.uid;
              suid = shared_suid P s recovered.rsp;
            } in
            elim (read_account P s key recovered.k0 recovered.svk identified) [
              | err e ↦ (err e, record s { last_trace = identified })
              | ok (old, trace) ↦
                  begin_update_of s recovered key old.account.ctr old.rlsj new_rlsj nonce trace
            ]
      ]
