-- ===== src/System/Phases/Registration.antt =====
-- roupspa.rs: a registration from its start to its Store, when nothing stands in its way.
use threshold_password_authe.Base.{
  ℕ, ◌≤◌, ◌≡◌, refl, sym, ap, ◌∙◌, ◌⊎◌, Bytes, bytes_eq, ok, insert, insert_self, false, [], All,
  none, some, arith,
}
use mathlib.Core.Path.{subst}
use threshold_password_authe.Primitives.{Primitives}
use threshold_password_authe.Crypto.{hash_vinfo}
use threshold_password_authe.Messages.{login_server_registration_bytes}
use threshold_password_authe.Messages.Trace.{ProtocolTrace, identification}
use threshold_password_authe.LoginServer
use threshold_password_authe.LoginServer.{
  operation_eq, LoginServer, PendingLsOperation, VInfo, prepare_registration,
}
use threshold_password_authe.LoginServer.Consistency.{IsConsistent}
use threshold_password_authe.Provider.{AccountFamilyKey, key_eq, SignedAccountRecord}
use threshold_password_authe.Thresholds.Intersection.{count}
use threshold_password_authe.System.Types.{
  PhaseResult, AccountWriteKind, registration, prepared_at_login_server, AccountOperationContext,
  RoUpSpaSystem, RecoveredIdentification, Outcome, digest_bytes, exact_account_tuple, idle,
}
use threshold_password_authe.System.Reads.{
  common_identification, account_operation_state, shared_suid,
}
use threshold_password_authe.System.Writes.Counting.{Numbered}
use threshold_password_authe.System.Account.{account_write, is_kind, attempt_account_write}
use threshold_password_authe.System.Account.Begin.{
  seal_account, finish_begin, begin_registration_with_rng,
}
use threshold_password_authe.System.Account.Invariant.{AccountsSound}
use threshold_password_authe.System.Phases.{
  AccountDraws, after_begin, reachable_indices, registration_with_rng,
}
use threshold_password_authe.System.Phases.Attempt.{attempt-Attempted, attempt-AccountsSound}
use threshold_password_authe.System.Phases.Begun.{
  PlansRegistration, Begun, Begins, begin_registration-Begins,
}
use threshold_password_authe.System.Phases.Completion.{after_write_completes}
use threshold_password_authe.System.Phases.Liveness.{attempt_ready}
use threshold_password_authe.System.Phases.Reaching.{Accepts}

-- A user that is new to the login server can be prepared.
prepare_new :
    (s : LoginServer) (uid : Bytes) (v : VInfo)
    → s.current uid ≡ none
    → s.pending uid ≡ none
    → (t : LoginServer) × (prepare_registration s uid v ≡ ok (t, LoginServer.registration v))
unfolding prepare_registration
prepare_new s uid v h k =
    (record s { pending = insert s.pending uid (LoginServer.registration v) }, ground arith)

module _ (P : Primitives) (s : RoUpSpaSystem P) where
  -- The client once the operation is prepared.
  record Started (kind : AccountWriteKind) (key : AccountFamilyKey) (r : SignedAccountRecord P)
      (out : Outcome P AccountFamilyKey) : Type 0 where
    begins : out.0 ≡ ok key
    context : AccountOperationContext P
    present : out.1.account_operations key ≡ some context
    same_kind : context.kind ≡ kind
    account : context.account ≡ r
    fresh : context.state ≡ prepared_at_login_server (digest_bytes P (exact_account_tuple P r))
    providers : out.1.providers ≡ s.providers
    qsp : out.1.qsp ≡ s.qsp

  finish_begin-Started :
      (kind : AccountWriteKind) (key : AccountFamilyKey) (r : SignedAccountRecord P) (bytes : ℕ)
      (trace : ProtocolTrace) (server : LoginServer) (operation : PendingLsOperation)
      → Started kind key r (finish_begin P s kind key r bytes trace (ok (server, operation)))
  unfolding finish_begin
  finish_begin-Started kind key r bytes trace server operation = record {
    begins = refl;
    context = _;
    present = insert_self s.account_operations key _;
    same_kind = refl;
    account = refl;
    fresh = refl;
    providers = refl;
    qsp = refl;
  }

  module _ (d : AccountDraws P) (found : RecoveredIdentification P) (trace : ProtocolTrace)
      (unlocked : common_identification P s s.password identification [] d.blind
        ≡ ok (found, trace)) where
    abbrev pub new_key : AccountFamilyKey
    new_key = record { uid = s.uid; suid = shared_suid P s found.rsp }

    abbrev pub new_record : SignedAccountRecord P
    new_record = seal_account P s found (shared_suid P s found.rsp) d.rlsj 0 d.nonce

    begin-Started :
        account_operation_state P s new_key ≡ idle
        → s.login_server.current s.uid ≡ none
        → s.login_server.pending s.uid ≡ none
        → Started registration new_key new_record
            (begin_registration_with_rng P s d.blind d.rlsj d.nonce)
    unfolding begin_registration_with_rng
    begin-Started quiet unknown free =
        let (server, prepared) =
          prepare_new s.login_server s.uid (hash_vinfo P d.rlsj s.lsj) unknown free in
        rw (unlocked, begin_registration_with_rng, quiet, prepared)
          (finish_begin-Started registration new_key new_record
            (login_server_registration_bytes s.uid) trace server _)

    -- Let the operations in flight be sound, the login server consistent, and an identification
    -- with the client's password succeed. Let no operation be in flight for the new account's
    -- family, let the login server know no verifier and no pending operation of the user, let every
    -- reachable provider accept the new record, and let at least a quorum, not zero, be reachable.
    -- Then the registration completes, acknowledged by every reachable provider.
    pub registration_completes :
        AccountsSound P s
        → IsConsistent s.login_server
        → account_operation_state P s new_key ≡ idle
        → s.login_server.current s.uid ≡ none
        → s.login_server.pending s.uid ≡ none
        → All
            (λ p. (p.reachable ≡ false) ⊎ Accepts P (account_write P registration new_record) p)
            s.providers
        → 1 ≤ s.qsp
        → s.qsp ≤ count (λ p. p.reachable) s.providers
        → (exact : Bytes) × (after : ProtocolTrace) × ((registration_with_rng P s d).0
            ≡ PhaseResult.completed (count (λ p. p.reachable) s.providers) exact none after)
    unfolding registration_with_rng after_begin
    registration_completes sound consistent quiet unknown free accept some_quorum enough =
        let out = begin_registration_with_rng P s d.blind d.rlsj d.nonce in
        let started = begin-Started quiet unknown free in
        let t = out.1 in
        let begun : Begun P s (PlansRegistration P s d.blind d.rlsj d.nonce) new_key t =
          subst (λ r. Begins P s (PlansRegistration P s d.blind d.rlsj d.nonce) (r, t))
            started.begins
            (begin_registration-Begins P s sound consistent d.blind d.rlsj d.nonce) in
        let providers = started.providers in
        let accepted : All
            (λ p.
              (p.reachable ≡ false)
              ⊎ Accepts P (account_write P started.context.kind started.context.account) p)
            t.providers =
          subst
            (λ k.
              All
                (λ p.
                  (p.reachable ≡ false) ⊎ Accepts P (account_write P k started.context.account) p)
                t.providers)
            (sym started.same_kind)
            (subst
              (λ r.
                All (λ p. (p.reachable ≡ false) ⊎ Accepts P (account_write P registration r) p)
                  t.providers)
              (sym started.account)
              (subst
                (All (λ p.
                  (p.reachable ≡ false) ⊎ Accepts P (account_write P registration new_record) p))
                (sym providers) accept)) in
        let same : count (λ p. p.reachable) t.providers ≡ count (λ p. p.reachable) s.providers =
          ap (count (λ p. p.reachable)) providers in
        let (exact, tr, ready) =
          attempt_ready P t new_key started.context registration _ started.present started.fresh
            (ap (λ k. is_kind P k registration) started.same_kind)
            (subst (Numbered P 1) (sym providers) sound.numbered) accepted
            (omega (arith, started.qsp)) (omega (arith, started.qsp, same)) in
        let (stored, after, done) =
          after_write_completes P s (PlansRegistration P s d.blind d.rlsj d.nonce) new_key t begun
            (attempt_account_write P registration t new_key (reachable_indices P t)) _ _ exact tr
            ready
            (attempt-Attempted P t new_key begun.context registration (reachable_indices P t)
              begun.present)
            (attempt-AccountsSound P t new_key begun.context registration (reachable_indices P t)
              begun.present begun.sound) in
        (
          stored,
          after,
          ap (λ r. (after_begin P registration (r, t)).0) started.begins
              ∙ done
              ∙ ap (λ n. PhaseResult.completed n stored none after) same,
        )
