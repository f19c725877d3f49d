-- ===== src/System/Phases/Completion.antt =====
-- roupspa.rs: an account phase completes on a quorum, or leaves the login server's verifiers alone.
use threshold_password_authe.Base.{
  ℕ, ◌≤◌, ◌≡◌, refl, sym, ap, ◌∙◌, Bytes, ok, err, true, length, All, none, some, arith,
}
use mathlib.Core.Path.{subst}
use threshold_password_authe.Base.IdSet.{IdSet, WithinIds}
use threshold_password_authe.Primitives.{Primitives}
use threshold_password_authe.LoginServer
use threshold_password_authe.LoginServer.{PendingLsOperation, VInfo, resulting_vinfo, authenticate}
use threshold_password_authe.LoginServer.Consistency.{IsConsistent}
use threshold_password_authe.Messages.Trace.{ProtocolTrace}
use threshold_password_authe.Provider.{AccountFamilyKey, SignedAccountRecord}
use threshold_password_authe.System.Types.{
  PhaseResult, AccountWriteKind, registration, secret_update, AccountOperationContext,
  RoUpSpaSystem, Outcome, digest_bytes, exact_account_tuple,
}
use threshold_password_authe.System.Account.Deliver.{deliver_account_store}
use threshold_password_authe.System.Account.Commit.{
  Delivered, deliver_commits, deliver-AccountsSound,
}
use threshold_password_authe.System.Account.Marking.{Decided}
use threshold_password_authe.System.Writes.Counting.{Numbered}
use threshold_password_authe.System.Account.Invariant.{AccountsSound}
use threshold_password_authe.System.Phases.{
  AccountDraws, or_aborted, after_write, after_begin, reachable_indices, registration_with_rng,
  secret_update_with_rng,
}
use threshold_password_authe.System.Phases.Attempt.{
  ReadyState, Attempted, attempt-Attempted, attempt-AccountsSound,
}
use threshold_password_authe.System.Phases.Begun.{
  Plan, PlansRegistration, PlansUpdate, Begun, Begins, begin_registration-Begins,
  begin_secret_update-Begins,
}

module _ (P : Primitives) (s : RoUpSpaSystem P) where
  -- The phase has stored a planned operation: at least a quorum of the providers acknowledged, each
  -- of those keeps the planned record and every other is stale, the login server accepts the planned
  -- verifier, and nothing is left in flight for the family.
  abbrev pub HasStored : Plan P s → ℕ → RoUpSpaSystem P → Type 0
  HasStored plan n t =
      (key : AccountFamilyKey) × (r : SignedAccountRecord P) × (operation : PendingLsOperation)
      × (ids : IdSet) × plan key r operation
      × (length ids ≡ n)
      × (s.qsp ≤ n)
      × Numbered P 1 t.providers
      × WithinIds (length t.providers) ids
      × All (Decided P key r ids) t.providers
      × (t.account_operations key ≡ none)
      × (authenticate t.login_server s.uid (resulting_vinfo operation) ≡ true)

  -- A completed phase has stored its operation; after any other result, an error or too few
  -- acknowledgements, every user's verifier at the login server is what it was.
  abbrev pub StoresOrKeeps : Plan P s → PhaseResult × RoUpSpaSystem P → Type 0
  StoresOrKeeps plan (PhaseResult.completed n digest decision trace, t) = HasStored plan n t
  StoresOrKeeps plan (result, t) = (j : Bytes) → t.login_server.current j ≡ s.login_server.current j

  or_aborted_ok :
      (out : Outcome P PhaseResult) (result : PhaseResult)
      → out.0 ≡ ok result
      → or_aborted P out ≡ (result, out.1)
  unfolding or_aborted
  or_aborted_ok (ok r, t) result h = ground arith
  or_aborted_ok (err e, t) result h = absurd (cc)

  module _ (plan : Plan P s) (key : AccountFamilyKey) (t : RoUpSpaSystem P)
      (b : Begun P s plan key t) where
    kept :
        (out : Outcome P PhaseResult)
        → Attempted P t key b.context out
        → (j : Bytes) → out.1.login_server.current j ≡ s.login_server.current j
    kept out a j = ap (λ (x : LoginServer.LoginServer). x.current j) a.server ∙ b.current j

    stored :
        (u : RoUpSpaSystem P) (context : AccountOperationContext P) (ids : IdSet) (n : ℕ)
        → length ids ≡ n
        → u.qsp ≡ s.qsp
        → u.uid ≡ s.uid
        → context.ls_operation ≡ b.wanted
        → context.account ≡ b.context.account
        → AccountsSound P (deliver_account_store P u key).1
        → Delivered P u (deliver_account_store P u key).1 key context ids
        → HasStored plan n (deliver_account_store P u key).1
    stored u context ids n size q same op account sound d =
        let after = (deliver_account_store P u key).1 in
        (
          key,
          context.account,
          b.wanted,
          ids,
          subst (λ r. plan key r b.wanted) (sym account) b.planned,
          size,
          omega (arith, d.quorum),
          sound.numbered,
          subst (λ k. WithinIds k ids) (sym d.size) d.within,
          d.decided,
          d.closed,
          subst (λ o. authenticate after.login_server s.uid (resulting_vinfo o) ≡ true) op
              (subst
                (λ v.
                  authenticate after.login_server v (resulting_vinfo context.ls_operation) ≡ true)
                same d.authenticates),
        )

    after_write-StoresOrKeeps :
        (out : Outcome P PhaseResult)
        → Attempted P t key b.context out
        → AccountsSound P out.1
        → StoresOrKeeps plan (after_write P (λ u. deliver_account_store P u key) out)
    unfolding after_write
    after_write-StoresOrKeeps (ok (PhaseResult.ready_for_terminal_store n required digest trace), u)
          a v =
        let (ids, acknowledged, size, enough) = a.ready in
        let (after, completed, d) =
          deliver_commits P u key a.after ids v (subst IsConsistent (sym a.server) b.consistent)
            a.present
            (ap (λ (x : LoginServer.LoginServer). x.pending u.uid) a.server
              ∙ ap t.login_server.pending a.uid
              ∙ b.pending
              ∙ ap some (sym b.operation ∙ sym a.operation))
            acknowledged in
        subst (StoresOrKeeps plan) (sym (or_aborted_ok (deliver_account_store P u key) _ completed))
          (stored u a.after ids (length ids) refl (a.qsp ∙ b.qsp) (a.uid ∙ b.uid)
            (a.operation ∙ b.operation) a.account (deliver-AccountsSound P u key v) d)
    after_write-StoresOrKeeps (ok (PhaseResult.completed n digest decision trace), u) a v =
        absurd a.ready
    after_write-StoresOrKeeps (ok (PhaseResult.aborted error trace), u) a v = absurd a.ready
    after_write-StoresOrKeeps (ok (PhaseResult.unresolved n required digest trace), u) a v =
        kept _ a
    after_write-StoresOrKeeps (err error, u) a v = kept _ a

    -- A write that is ready is completed by its Store.
    pub after_write_completes :
        (out : Outcome P PhaseResult) (n required : ℕ) (digest : Bytes) (trace : ProtocolTrace)
        → out.0 ≡ ok (PhaseResult.ready_for_terminal_store n required digest trace)
        → Attempted P t key b.context out
        → AccountsSound P out.1
        → (exact : Bytes) × (after : ProtocolTrace) × ((after_write P
              (λ u. deliver_account_store P u key)
              out).0
            ≡ PhaseResult.completed n exact none after)
    unfolding after_write
    after_write_completes out n required digest trace e a v =
        let u = out.1 in
        let ready = subst (λ r. ReadyState t.qsp r a.after.state) e a.ready in
        let (ids, acknowledged, size, enough) = ready in
        let (after, finished, d) =
          deliver_commits P u key a.after ids v (subst IsConsistent (sym a.server) b.consistent)
            a.present
            (ap (λ (x : LoginServer.LoginServer). x.pending u.uid) a.server
              ∙ ap t.login_server.pending a.uid
              ∙ b.pending
              ∙ ap some (sym b.operation ∙ sym a.operation))
            acknowledged in
        (
          digest_bytes P (exact_account_tuple P a.after.account),
          after,
          ap (λ r. (after_write P (λ w. deliver_account_store P w key) (r, u)).0) e
              ∙ ap (λ (x : PhaseResult × RoUpSpaSystem P). x.0)
                  (or_aborted_ok (deliver_account_store P u key) _ finished)
              ∙ ap
                  (λ m.
                    PhaseResult.completed m (digest_bytes P (exact_account_tuple P a.after.account))
                      none after)
                  size,
        )

  after_begin-StoresOrKeeps :
      (kind : AccountWriteKind) (plan : Plan P s) (out : Outcome P AccountFamilyKey)
      → Begins P s plan out
      → StoresOrKeeps plan (after_begin P kind out)
  unfolding after_begin
  after_begin-StoresOrKeeps kind plan (err e, t) b =
      λ j. ap (λ (x : LoginServer.LoginServer). x.current j) b
  after_begin-StoresOrKeeps kind plan (ok key, t) b =
      after_write-StoresOrKeeps plan key t b _
        (attempt-Attempted P t key b.context kind (reachable_indices P t) b.present)
        (attempt-AccountsSound P t key b.context kind (reachable_indices P t) b.present b.sound)

  module _ (d : AccountDraws P) (sound : AccountsSound P s)
      (consistent : IsConsistent s.login_server) where
    -- Let the operations in flight be sound and the login server consistent. A registration that
    -- completes with `n` has found at least a quorum, `n` of the providers, that keep the record
    -- which seals the new secret at the counter 0 under the identified keys, for the identified
    -- account; every other provider is stale, the login server accepts the verifier of that secret,
    -- and nothing is left in flight for the account. After any other result every user's verifier
    -- is what it was.
    pub registration-StoresOrKeeps :
        StoresOrKeeps (PlansRegistration P s d.blind d.rlsj d.nonce) (registration_with_rng P s d)
    unfolding registration_with_rng
    registration-StoresOrKeeps =
        after_begin-StoresOrKeeps registration _ _
          (begin_registration-Begins P s sound consistent d.blind d.rlsj d.nonce)

    -- Let the operations in flight be sound and the login server consistent. A secret update that
    -- completes with `n` has found at least a quorum, `n` of the providers, that keep the record
    -- which seals the new secret under the identified keys, for the identified account, at the
    -- counter after that of the account which was read; every other provider is stale, the login
    -- server accepts the verifier of the new secret, and nothing is left in flight for the account.
    -- After any other result every user's verifier is what it was.
    pub secret_update-StoresOrKeeps :
        StoresOrKeeps (PlansUpdate P s d.blind d.rlsj d.nonce) (secret_update_with_rng P s d)
    unfolding secret_update_with_rng
    secret_update-StoresOrKeeps =
        after_begin-StoresOrKeeps secret_update _ _
          (begin_secret_update-Begins P s sound consistent d.blind d.rlsj d.nonce)
