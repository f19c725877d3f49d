-- ===== src/UpSpa/System/Accounts.antt =====
-- crates/upspa/src/protocols/system.rs: registration and secret update, under the user's lock.
pub mod Stored
pub mod Completion
use threshold_password_authe.Base.{
  ℕ, ◌+◌, Bytes, bytes_eq, Result, ok, err, ◌>>=◌, and_then, is_ok, List, [], ◌∷◌, true, false,
  none, some,
}
use threshold_password_authe.Primitives.{Primitives}
use threshold_password_authe.UpSpa.Messages.{hash_upspa_suid, hash_vinfo}
use threshold_password_authe.UpSpa.Messages.Trace.{ProtocolTrace, push, all_responses}
use threshold_password_authe.UpSpa.LoginServer
use threshold_password_authe.UpSpa.Provider.{
  UpSpaProvider, read_account, prepare_registration, prepare_secret_update,
}
use threshold_password_authe.UpSpa.System.Types.{
  PhaseKind, PhaseOutcome, all_providers, PhaseError, at_provider, insufficient_account_responses,
  account_decryption_failed, account, IdentifiedState, PendingFinalization, UpSpaSystem, Outcome,
}
use threshold_password_authe.UpSpa.System.Plaintext.{encrypt_account, decrypt_account}
use threshold_password_authe.UpSpa.System.Events.{push_parallel_prepare_events, account_read_event}
use threshold_password_authe.UpSpa.System.Setup.{locked}
use threshold_password_authe.UpSpa.System.Identification.{identify_into_trace, identification_trace}
use threshold_password_authe.UpSpa.System.Finalization.{run_finalization}
use threshold_password_authe.UpSpa.System.Prepare.{
  prepare_from, suids_at, with_login_server, plan_finalization,
}
use threshold_password_authe.UpSpa.System.Entries.{Entry, newest_entry}

module _ (P : Primitives) where
  -- What a registration or a secret update draws.
  pub record AccountDraws : Type 0 where
    pub blinding : P.Scalar
    pub rlsj : Bytes
    pub nonce : Bytes

  -- The prepares of a registration, and the terminal step that they call for.
  unfoldable pub plan_registration :
      UpSpaSystem P
      → Bytes
      → Bytes
      → AccountDraws
      → IdentifiedState P
      → ProtocolTrace
      → UpSpaSystem P × PendingFinalization P
  unfolding encrypt_account hash_vinfo suids_at push_parallel_prepare_events prepare_from
      prepare_registration LoginServer.prepare_registration with_login_server plan_finalization
  plan_registration s uid lsj d state trace1 =
      let blob = encrypt_account P state.k0 uid d.rlsj 0 d.nonce in
      let vinfo = hash_vinfo P d.rlsj lsj in
      let suids = suids_at P s.providers state.rsp lsj in
      let trace = push_parallel_prepare_events trace1 2 uid s.nsp false in
      let prepared =
        prepare_from P (λ p suid. prepare_registration P p suid blob) 0 s.providers suids none in
      let answer = LoginServer.prepare_registration s.login_server uid vinfo in
      let s' = record s { providers = prepared.providers; login_server = answer.1 } in
      (
        s',
        plan_finalization P s' PhaseKind.registration 3 trace
            (account suids blob (LoginServer.registration vinfo) false) true prepared.accepted
            (is_ok (answer.0)) (with_login_server P prepared.first_error answer),
      )

  -- Also the end of the other phases that change state.
  unfoldable pub finalize : UpSpaSystem P × PendingFinalization P → Bytes → Outcome P PhaseOutcome
  unfolding run_finalization
  finalize planned uid = run_finalization P (planned.0) uid (planned.1)

  unfoldable pub registration_inner :
      UpSpaSystem P → Bytes → Bytes → Bytes → AccountDraws → Outcome P PhaseOutcome
  unfolding identify_into_trace identification_trace plan_registration finalize
  registration_inner s uid password lsj d =
      and_then (identify_into_trace P s uid password all_providers [] 1 d.blinding) (λ state t.
        finalize
          (plan_registration t uid lsj d state (identification_trace P s uid all_providers [] 1))
          uid)

  unfoldable pub registration :
      UpSpaSystem P → Bytes → Bytes → Bytes → AccountDraws → Outcome P PhaseOutcome
  unfolding locked registration_inner
  registration s uid password lsj d =
      locked P s uid (λ held. registration_inner held uid password lsj d)

  -- The loop over all providers, each of which has to answer. `valid` have answered so far.
  unfoldable pub read_all :
      List (UpSpaProvider P)
      → Bytes
      → Bytes
      → IdentifiedState P
      → ℕ
      → ℕ
      → Result PhaseError (List Entry)
  unfolding hash_upspa_suid read_account decrypt_account
  read_all [] uid lsj state valid required = ok []
  read_all (p ∷ ps) uid lsj state valid required =
      let rest = read_all ps uid lsj state (valid + 1) required in
      elim (read_account P p (hash_upspa_suid P state.rsp lsj p.provider_index)) [
        | err source ↦ err (at_provider p.provider_index source)
        | ok none ↦ err (insufficient_account_responses valid required)
        | ok (some blob) ↦ elim (decrypt_account P state.k0 uid blob) [
          | none ↦ err account_decryption_failed
          | some entry ↦ elim rest [ err e ↦ err e | ok entries ↦ ok (entry ∷ entries) ]
        ]
      ]

  -- The prepares of an update of the newest account, with its successor's counter.
  unfoldable pub plan_update :
      UpSpaSystem P
      → Bytes
      → Bytes
      → AccountDraws
      → IdentifiedState P
      → ProtocolTrace
      → Entry
      → ℕ
      → UpSpaSystem P × PendingFinalization P
  unfolding encrypt_account hash_vinfo suids_at push_parallel_prepare_events prepare_from
      prepare_secret_update LoginServer.prepare_secret_update with_login_server plan_finalization
  plan_update s uid lsj d state trace1 newest counter =
      let old_vinfo = hash_vinfo P (newest.0) lsj in
      let blob = encrypt_account P state.k0 uid d.rlsj counter d.nonce in
      let new_vinfo = hash_vinfo P d.rlsj lsj in
      let suids = suids_at P s.providers state.rsp lsj in
      let trace = push_parallel_prepare_events trace1 3 uid s.nsp true in
      let prepared =
        prepare_from P (λ p suid. prepare_secret_update P p suid blob) 0 s.providers suids none in
      let answer = LoginServer.prepare_secret_update s.login_server uid old_vinfo new_vinfo in
      let s' = record s { providers = prepared.providers; login_server = answer.1 } in
      (
        s',
        plan_finalization P s' PhaseKind.secret_update 4 trace
            (account suids blob (LoginServer.secret_update old_vinfo new_vinfo) true) true
            prepared.accepted (is_ok (answer.0)) (with_login_server P prepared.first_error answer),
      )

  unfoldable pub secret_update_inner :
      UpSpaSystem P → Bytes → Bytes → Bytes → AccountDraws → Outcome P PhaseOutcome
  unfolding identify_into_trace identification_trace push account_read_event read_all newest_entry
      plan_update finalize
  secret_update_inner s uid password lsj d =
      let trace =
        push (identification_trace P s uid all_providers [] 1)
          (account_read_event s.nsp all_responses) in
      and_then (identify_into_trace P s uid password all_providers [] 1 d.blinding) (λ state t.
        elim (read_all t.providers uid lsj state 0 t.nsp >>= λ entries.
        newest_entry entries t.nsp) [
          | err e ↦ (err e, t)
          | ok found ↦ finalize (plan_update t uid lsj d state trace (found.0) (found.1)) uid
        ])

  unfoldable pub secret_update :
      UpSpaSystem P → Bytes → Bytes → Bytes → AccountDraws → Outcome P PhaseOutcome
  unfolding locked secret_update_inner
  secret_update s uid password lsj d =
      locked P s uid (λ held. secret_update_inner held uid password lsj d)
