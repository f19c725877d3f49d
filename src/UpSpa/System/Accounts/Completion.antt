-- ===== src/UpSpa/System/Accounts/Completion.antt =====
-- crates/upspa/src/protocols/system.rs: a registration that nobody refuses ends with the account
-- committed everywhere.
use threshold_password_authe.Base.{
  ℕ, Bytes, bytes_eq, ◌≡◌, refl, sym, ap, ◌∙◌, [], length, get_elem?, is_ok, true, false, Option,
  none, some, ok, err, arith, add_member, and_then,
}
use mathlib.Core.Path.{subst}
use threshold_password_authe.Primitives.{Primitives}
use threshold_password_authe.Crypto.{CtBlob, blob_eq}
use threshold_password_authe.UpSpa.Messages.{hash_vinfo}
use threshold_password_authe.UpSpa.Messages.Trace.{ProtocolTrace}
use threshold_password_authe.UpSpa.LoginServer
use threshold_password_authe.UpSpa.LoginServer.{LoginServer, operation_eq, VInfo}
use threshold_password_authe.UpSpa.Provider.{UpSpaProvider, prepare_registration}
use threshold_password_authe.UpSpa.Provider.Disposition.{ProviderFinalizationAction}
use threshold_password_authe.UpSpa.Provider.Contract.{slot_cell}
use threshold_password_authe.UpSpa.System.Types.{
  account, IdentifiedState, UpSpaSystem, Outcome, PhaseKind, PhaseOutcome, PhaseError,
  all_providers, release_if_resolved,
}
use threshold_password_authe.UpSpa.System.Identification.{identify_into_trace, identification_trace}
use threshold_password_authe.UpSpa.System.Locking.{locked_free}
use threshold_password_authe.UpSpa.System.Locking.Identification.{
  SameButTrace, identify_into_trace-SameButTrace,
}
use threshold_password_authe.UpSpa.System.Plaintext.{encrypt_account}
use threshold_password_authe.UpSpa.System.Events.{push_parallel_prepare_events}
use threshold_password_authe.UpSpa.System.Finalization.{run_finalization}
use threshold_password_authe.UpSpa.System.Finalization.Recovery.{release_same}
use threshold_password_authe.UpSpa.System.Finalization.Progress.{release_free}
use threshold_password_authe.UpSpa.System.Prepare.{
  suids_at, prepare_from, with_login_server, plan_finalization,
}
use threshold_password_authe.UpSpa.System.Prepare.Agreement.{Pairs, Pairs-length, prepare_from_all}
use threshold_password_authe.UpSpa.System.Accounts.{
  AccountDraws, plan_registration, finalize, registration, registration_inner,
}
use threshold_password_authe.UpSpa.System.Accounts.Stored.{
  CanStore, HasAccount, account_plan-HasAccount,
}

module _ (P : Primitives) where
  -- A provider that can take part in a registration: it is reachable, has no fault in store, and the
  -- account is new to it.
  abbrev pub CanTake : UpSpaProvider P → Bytes → Type 0
  CanTake p suid =
      (p.reachable ≡ true)
      × ((p.finalization_faults ProviderFinalizationAction.store_account ≡ false)
          × (((slot_cell (p.accounts suid)).committed ≡ none)
              × ((slot_cell (p.accounts suid)).proposed ≡ none)))

  prepare_registration-CanStore :
      (blob : CtBlob) (p : UpSpaProvider P) (suid : Bytes)
      → CanTake p suid
      → (is_ok ((prepare_registration P p suid blob).0) ≡ true)
        × CanStore P blob ((prepare_registration P p suid blob).1) suid
  unfolding prepare_registration
  prepare_registration-CanStore blob p suid h = ground (arith, h)

  -- A login server that can register the user.
  abbrev pub IsOpen : LoginServer → Bytes → Type 0
  IsOpen server uid =
      (server.reachable ≡ true) × ((server.pending uid ≡ none) × (server.current uid ≡ none))

  abbrev pub CanRegister : UpSpaSystem P → Bytes → Bytes → IdentifiedState P → Type 0
  CanRegister s uid lsj state =
      Pairs P CanTake s.providers (suids_at P s.providers state.rsp lsj)
      × (IsOpen s.login_server uid × (length s.providers ≡ s.nsp))

  server_stores :
      (server : LoginServer) (uid : Bytes) (v : VInfo)
      → IsOpen server uid
      → (is_ok ((LoginServer.prepare_registration server uid v).0) ≡ true)
        × (is_ok (
              (LoginServer.store
                ((LoginServer.prepare_registration server uid v).1)
                uid
                (LoginServer.registration v)).0)
            ≡ true)
        × ((LoginServer.store
                ((LoginServer.prepare_registration server uid v).1)
                uid
                (LoginServer.registration v)).1.current
              uid
            ≡ some v)
  unfolding LoginServer.prepare_registration LoginServer.store LoginServer.resulting_vinfo
  server_stores server uid v h = ground (arith, h)

  -- The Store of a registration, as its prepares leave the providers and the login server.
  registration_ready :
      (s : UpSpaSystem P) (uid lsj : Bytes) (d : AccountDraws P) (state : IdentifiedState P)
      → CanRegister s uid lsj state
      → let blob = encrypt_account P state.k0 uid d.rlsj 0 d.nonce in
        let suids = suids_at P s.providers state.rsp lsj in
        let prepared =
          prepare_from P (λ p suid. prepare_registration P p suid blob) 0 s.providers suids none in
        (prepared.first_error ≡ none) × Pairs P (CanStore P blob) prepared.providers suids
  registration_ready s uid lsj d state h =
      let blob = encrypt_account P state.k0 uid d.rlsj 0 d.nonce in
      prepare_from_all P (λ p suid. prepare_registration P p suid blob) CanTake (CanStore P blob)
        (prepare_registration-CanStore blob) 0 s.providers (suids_at P s.providers state.rsp lsj)
        none (h.0)

  with_login_server_ok :
      (first : Option PhaseError) (answer : LoginServer.Answer)
      → is_ok (answer.0) ≡ true
      → with_login_server P first answer ≡ first
  unfolding with_login_server
  with_login_server_ok first (ok disposition, server) h = refl
  with_login_server_ok first (err e, server) h = absurd (ground (arith, h))

  -- The user's verifier is current, and every provider has the account committed.
  abbrev pub IsRegistered :
      UpSpaSystem P
      → Bytes
      → Bytes
      → AccountDraws P
      → IdentifiedState P
      → Outcome P PhaseOutcome
      → Type 0
  IsRegistered s uid lsj d state out =
      (is_ok (out.0) ≡ true)
      × (out.1.pending_finalizations uid ≡ none)
      × (out.1.login_server.current uid ≡ some (hash_vinfo P d.rlsj lsj))
      × ((i : ℕ) (suid : Bytes)
          → get_elem? (suids_at P s.providers state.rsp lsj) i ≡ some suid
          → HasAccount P suid (encrypt_account P state.k0 uid d.rlsj 0 d.nonce)
              (get_elem? out.1.providers i))

  plan_registration-IsRegistered :
      (s : UpSpaSystem P) (uid lsj : Bytes) (d : AccountDraws P) (state : IdentifiedState P)
      (trace : ProtocolTrace)
      → CanRegister s uid lsj state
      → s.pending_finalizations uid ≡ none
      → IsRegistered s uid lsj d state
          (finalize P (plan_registration P s uid lsj d state trace) uid)
  unfolding finalize plan_registration
  plan_registration-IsRegistered s uid lsj d state trace h free =
      let blob = encrypt_account P state.k0 uid d.rlsj 0 d.nonce in
      let vinfo = hash_vinfo P d.rlsj lsj in
      let suids = suids_at P s.providers state.rsp lsj in
      let trace' = push_parallel_prepare_events trace 2 uid s.nsp false in
      let prepared =
        prepare_from P (λ p suid. prepare_registration P p suid blob) 0 s.providers suids none in
      let answer = LoginServer.prepare_registration s.login_server uid vinfo in
      let s' = record s { providers = prepared.providers; login_server = answer.1 } in
      let payload = account suids blob (LoginServer.registration vinfo) false in
      let server = server_stores s.login_server uid vinfo (h.1.0) in
      let ready = registration_ready s uid lsj d state h in
      let size : length prepared.providers ≡ s.nsp =
        Pairs-length P (CanStore P blob) prepared.providers suids (ready.1)
        ∙ sym (Pairs-length P CanTake s.providers suids (h.0))
        ∙ h.1.1 in
      subst
        (λ e. IsRegistered s uid lsj d state (
          run_finalization P s' uid (
            plan_finalization P s' PhaseKind.registration 3 trace' payload true prepared.accepted
              (is_ok (answer.0)) e)))
        (sym (with_login_server_ok prepared.first_error answer (server.0) ∙ ready.0))
        (let done =
            account_plan-HasAccount P s' uid PhaseKind.registration 3 trace' suids blob
              (LoginServer.registration vinfo) false prepared.accepted (is_ok (answer.0)) (ready.1)
              (server.1) free size in
          (done.0, done.1, (λ i. (done.2 i).current uid) ∙ server.2, done.3))

  -- Let UpSPA's client be free to start a phase for a user, and identify the user. Let every
  -- provider then be reachable, without an injected fault in its Store, and new to the account, and
  -- let the login server be reachable, without a verifier or a pending operation of the user, and
  -- let there be `nsp` providers. Then the registration succeeds: the user's verifier is current,
  -- every provider has the sealed account committed and nothing pending for it, nothing is
  -- retained, and the user's lock is free.
  pub registration-IsRegistered :
      (s t : UpSpaSystem P) (uid password lsj : Bytes) (d : AccountDraws P)
      (state : IdentifiedState P)
      → s.active_operations uid ≡ false
      → s.pending_finalizations uid ≡ none
      → identify_into_trace P
          (record s { active_operations = add_member s.active_operations uid })
          uid
          password
          all_providers
          []
          1
          d.blinding
        ≡ (ok state, t)
      → CanRegister t uid lsj state
      → IsRegistered t uid lsj d state (registration P s uid password lsj d)
        × ((registration P s uid password lsj d).1.active_operations uid ≡ false)
  unfolding registration registration_inner
  registration-IsRegistered s t uid password lsj d state idle free identified h =
      let held = record s { active_operations = add_member s.active_operations uid } in
      let out =
        finalize P
          (plan_registration P t uid lsj d state
            (identification_trace P held uid all_providers [] 1))
          uid in
      let kept =
        subst (λ o. SameButTrace P held (o.1)) identified
          (identify_into_trace-SameButTrace P held uid password all_providers [] 1 d.blinding) in
      let done =
        plan_registration-IsRegistered t uid lsj d state
          (identification_trace P held uid all_providers [] 1) h
          (sym (λ i. (kept i).pending_finalizations uid) ∙ free) in
      let same = release_same P (out.1) uid in
      subst (λ o. IsRegistered t uid lsj d state o × (o.1.active_operations uid ≡ false))
        (sym (
          locked_free P s uid (λ held. registration_inner P held uid password lsj d) idle
          ∙ ap
              (λ (o : Outcome P (IdentifiedState P)).
                let result = and_then o (λ state u.
                  finalize P
                    (plan_registration P u uid lsj d state
                      (identification_trace P held uid all_providers [] 1))
                    uid) in
                (result.0, release_if_resolved P (result.1) uid))
              identified))
        (
          (
            done.0,
            (λ i. same.1 i uid) ∙ done.1,
            (λ i. (same.2 i).current uid) ∙ done.2,
            λ i suid e.
                subst
                  (λ ps.
                    HasAccount P suid (encrypt_account P state.k0 uid d.rlsj 0 d.nonce)
                      (get_elem? ps i))
                  (sym (same.0)) (done.3 i suid e),
          ),
          release_free P (out.1) uid (done.1),
        )
