-- ===== src/UpSpa/System/Accounts/Stored.antt =====
-- crates/upspa/src/protocols/system.rs: the terminal Store of an account that everyone can do.
use threshold_password_authe.Base.{
  ℕ, ◌+◌, Bytes, bytes_eq, ◌≡◌, sym, ap, List, length, get_elem?, is_ok, true, false, Option, none,
  some, Bool, arith,
}
use mathlib.Core.Path.{subst}
use threshold_password_authe.Base.IdSet.{mem}
use threshold_password_authe.Primitives.{Primitives}
use threshold_password_authe.Crypto.{CtBlob, blob_eq}
use threshold_password_authe.UpSpa.Messages.Trace.{ProtocolTrace}
use threshold_password_authe.UpSpa.LoginServer
use threshold_password_authe.UpSpa.LoginServer.{LoginServer, operation_eq, VInfo}
use threshold_password_authe.UpSpa.Provider.{UpSpaProvider, store_account}
use threshold_password_authe.UpSpa.Provider.Disposition.{ProviderFinalizationAction}
use threshold_password_authe.UpSpa.Provider.Contract.{slot_cell}
use threshold_password_authe.UpSpa.System.Types.{
  store, account, FinalizationPayload, UpSpaSystem, PhaseKind,
}
use threshold_password_authe.UpSpa.System.Identification.{all_positions}
use threshold_password_authe.UpSpa.System.Finalization.{
  run_finalization, terminal_handler, account_handler, attempt_login_server, terminal_login_server,
  login_server_handler, unacknowledged,
}
use threshold_password_authe.UpSpa.System.Finalization.Settled.{Settled, IsStored, Settled-IsStored}
use threshold_password_authe.UpSpa.System.Finalization.Attempts.{AllReady, ReadyAt, Holds}
use threshold_password_authe.UpSpa.System.Finalization.Progress.{IsOver, run_finalization-IsOver}
use threshold_password_authe.UpSpa.System.Prepare.{plan_finalization}
use threshold_password_authe.UpSpa.System.Prepare.Agreement.{
  Pairs, Pairs-at, all_positions-IsSorted, keep_unacknowledged, at_positions, Pairs-input,
  mem-all_positions,
}

module _ (P : Primitives) where
  -- A provider that can store an account that is pending there.
  abbrev pub CanStore : CtBlob → UpSpaProvider P → Bytes → Type 0
  CanStore blob p suid =
      (p.reachable ≡ true)
      × ((p.finalization_faults ProviderFinalizationAction.store_account ≡ false)
          × ((slot_cell (p.accounts suid)).proposed ≡ some blob))

  store_account_ok :
      (blob : CtBlob) (p : UpSpaProvider P) (suid : Bytes)
      → CanStore blob p suid
      → is_ok ((store_account P p suid blob).0) ≡ true
  unfolding store_account
  store_account_ok blob p suid h = ground (arith, h)

  -- A Store that everyone can do is over after one attempt.
  pub stored_plan-IsOver :
      (s : UpSpaSystem P) (uid : Bytes) (phase : PhaseKind) (stage : ℕ) (trace : ProtocolTrace)
      (payload : FinalizationPayload P) (accepted : List ℕ) (ls_accepted : Bool)
      → ((i : ℕ) (p : UpSpaProvider P)
          → get_elem? s.providers i ≡ some p
          → is_ok ((terminal_handler P store payload i p).0) ≡ true)
      → (terminal_login_server P store payload s.login_server uid).0 ≡ true
      → s.pending_finalizations uid ≡ none
      → length s.providers ≡ s.nsp
      → IsOver P s uid
          (plan_finalization P s phase stage trace payload true accepted ls_accepted none)
          (run_finalization P s uid
            (plan_finalization P s phase stage trace payload true accepted ls_accepted none))
  unfolding plan_finalization attempt_login_server unacknowledged
  stored_plan-IsOver s uid phase stage trace payload accepted ls_accepted ready server free size =
      run_finalization-IsOver P s uid
        (plan_finalization P s phase stage trace payload true accepted ls_accepted none)
        (record {
          positions = all_positions-IsSorted 0 s.nsp;
          acknowledged = tt;
          within = λ i m. absurd (ground (arith, m));
          settled = λ i m. absurd (ground (arith, m));
        })
        free
        (record {
          providers =
              subst
                (λ positions.
                  AllReady P (terminal_handler P store payload) (Settled P store payload) positions
                    s.providers)
                (sym (keep_unacknowledged P (all_positions 0 s.nsp)))
                (subst
                  (λ n.
                    AllReady P (terminal_handler P store payload) (Settled P store payload)
                      (all_positions 0 n) s.providers)
                  size
                  (at_positions P
                    (ReadyAt P (terminal_handler P store payload) (Settled P store payload))
                    s.providers s.providers 0 ready
                    (λ i. ap (get_elem? s.providers) (omega arith))));
          login_server = server;
        })

  abbrev pub HasAccount : Bytes → CtBlob → Option (UpSpaProvider P) → Type 0
  HasAccount suid blob none = ⊥
  HasAccount suid blob (some p) = IsStored P suid blob p

  account_ready :
      (ps : List (UpSpaProvider P)) (suids : List Bytes) (blob : CtBlob)
      (operation : LoginServer.PendingLsOperation) (secret_update : Bool) (i : ℕ)
      (p : UpSpaProvider P)
      → Pairs P (CanStore blob) ps suids
      → get_elem? ps i ≡ some p
      → is_ok ((terminal_handler P store (account suids blob operation secret_update) i p).0) ≡ true
  unfolding terminal_handler account_handler
  account_ready ps suids blob operation secret_update i p pairs e =
      let (suid, same, can) = Pairs-at P (CanStore blob) ps suids i p pairs e in
      subst (λ o. is_ok ((account_handler P store blob o p).0) ≡ true) (sym same)
        (store_account_ok blob p suid can)

  -- A Store of an account that every provider and the login server can do.
  pub account_plan-HasAccount :
      (s : UpSpaSystem P) (uid : Bytes) (phase : PhaseKind) (stage : ℕ) (trace : ProtocolTrace)
      (suids : List Bytes) (blob : CtBlob) (operation : LoginServer.PendingLsOperation)
      (secret_update : Bool) (accepted : List ℕ) (ls_accepted : Bool)
      → Pairs P (CanStore blob) s.providers suids
      → is_ok ((LoginServer.store s.login_server uid operation).0) ≡ true
      → s.pending_finalizations uid ≡ none
      → length s.providers ≡ s.nsp
      → let out = run_finalization P s uid (
          plan_finalization P s phase stage trace
            (account suids blob operation secret_update)
            true
            accepted
            ls_accepted
            none) in
        (is_ok (out.0) ≡ true)
        × (out.1.pending_finalizations uid ≡ none)
        × (out.1.login_server ≡ (LoginServer.store s.login_server uid operation).1)
        × ((i : ℕ) (suid : Bytes)
            → get_elem? suids i ≡ some suid
            → HasAccount suid blob (get_elem? out.1.providers i))
  unfolding plan_finalization attempt_login_server terminal_login_server login_server_handler
  account_plan-HasAccount s uid phase stage trace suids blob operation secret_update accepted
        ls_accepted pairs server free size =
      let payload = account suids blob operation secret_update in
      let over =
        stored_plan-IsOver s uid phase stage trace payload accepted ls_accepted
          (λ i p. account_ready s.providers suids blob operation secret_update i p pairs) server
          free size in
      (
        over.1,
        over.2,
        over.3,
        λ i suid e.
            let (p, found) = Pairs-input P (CanStore blob) s.providers suids i suid pairs e in
            let same : 0 + i ≡ i = omega arith in
            held i suid e _ (
              over.0 i (
                subst (λ k. mem k (all_positions 0 s.nsp) ≡ true) same
                  (subst (λ n. mem (0 + i) (all_positions 0 n) ≡ true) size
                    (mem-all_positions P s.providers 0 i p found)))),
      )
    where
      held :
          (i : ℕ) (suid : Bytes)
          → get_elem? suids i ≡ some suid
          → (o : Option (UpSpaProvider P))
          → Holds P
              (terminal_handler P store (account suids blob operation secret_update))
              (Settled P store (account suids blob operation secret_update))
              i
              o
          → HasAccount suid blob o
      held i suid e none h = absurd h
      held i suid e (some q) h = Settled-IsStored P suids blob operation secret_update i suid q e h
