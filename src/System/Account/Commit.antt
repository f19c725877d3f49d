-- ===== src/System/Account/Commit.antt =====
-- roupspa.rs: the end of an account operation. A Store is delivered on a quorum's acknowledgement
-- only.
use threshold_password_authe.Base.{
  ℕ, suc, ap, ◌+◌, ◌≤◌, ◌≡◌, refl, sym, ◌∙◌, ◌≢◌, inl, inr, Bytes, bytes_eq, ok, true, List, [],
  ◌∷◌, length, All, remove, remove_self, remove_ne, none, some, arith, Option-cases, Result-cases,
}
use mathlib.Core.Path.{subst}
use threshold_password_authe.Base.IdSet.{IdSet, WithinIds}
use threshold_password_authe.Primitives.{Primitives}
use threshold_password_authe.Messages.Trace.{ProtocolTrace}
use threshold_password_authe.LoginServer
use threshold_password_authe.LoginServer.{resulting_vinfo, authenticate, operation_eq}
use threshold_password_authe.LoginServer.Consistency.{IsConsistent}
use threshold_password_authe.LoginServer.Commit.{store_commits, Committed}
use threshold_password_authe.Provider.{
  RoUpSpaProvider, AccountFamilyKey, key_eq, SignedAccountRecord, mark_account_status,
}
use threshold_password_authe.System.Types.{
  completed, InFlightOperation, idle, prepared_at_login_server, prepared_for_provider_write,
  provider_write_started, AccountOperationContext, RoUpSpaSystem, digest_bytes, exact_account_tuple,
}
use threshold_password_authe.System.Account.Deliver.{
  mark_all, deliver_account_store, acknowledged_set,
}
use threshold_password_authe.System.Writes.Counting.{Numbered}
use threshold_password_authe.System.Account.Quorum.{AcceptedHold}
use threshold_password_authe.System.Account.Frame.{AllAlike, mark_all-AllAlike}
use threshold_password_authe.System.Account.Invariant.{
  AccountsSound, OperationSound, OperationSound-alike, StateSound,
}
use threshold_password_authe.System.Account.Marking.{Decided, mark_all-Decided}

module _ (P : Primitives) where
  mark_all-Numbered :
      (n : ℕ) (key : AccountFamilyKey) (ids : IdSet) (ps : List (RoUpSpaProvider P))
      → Numbered P n ps
      → Numbered P n (mark_all P key ids ps)
  unfolding mark_all mark_account_status
  mark_all-Numbered n key ids [] v = tt
  mark_all-Numbered n key ids (p ∷ ps) v = (ground arith, mark_all-Numbered (n + 1) key ids ps v.1)

  length-mark_all :
      (key : AccountFamilyKey) (ids : IdSet) (ps : List (RoUpSpaProvider P))
      → length (mark_all P key ids ps) ≡ length ps
  unfolding mark_all
  length-mark_all key ids [] = refl
  length-mark_all key ids (p ∷ ps) = ap suc (length-mark_all key ids ps)

  pub remove-OperationSound :
      (s : RoUpSpaSystem P) (qs : List (RoUpSpaProvider P)) (key j : AccountFamilyKey)
      → AccountsSound P s
      → (j ≢ key → AllAlike P j s.providers qs)
      → OperationSound P s.qsp qs j (remove s.account_operations key j)
  remove-OperationSound s qs key j v alike = elim (key_eq.dec j key) [
    | yes same ↦
        subst (λ k. OperationSound P s.qsp qs k (remove s.account_operations key k)) (sym same)
          (subst (OperationSound P s.qsp qs key) (sym (remove_self s.account_operations key)) tt)
    | no other ↦
        subst (OperationSound P s.qsp qs j) (sym (remove_ne s.account_operations key j other)) (
          OperationSound-alike P s.qsp s.providers qs j (s.account_operations j) (alike other)
            (v.operations j))
  ]

  -- Let the operations in flight be sound. They are sound after the delivery of a Store, whether it
  -- fails or not.
  pub deliver-AccountsSound :
      (s : RoUpSpaSystem P) (key : AccountFamilyKey)
      → AccountsSound P s
      → AccountsSound P (deliver_account_store P s key).1
  unfolding deliver_account_store
  deliver-AccountsSound s key v = elim (Option-cases (s.account_operations key)) [
    | inl e ↦ rw (e, deliver_account_store) v
    | inr (context, e) ↦ elim (Result-cases (acknowledged_set context.state)) [
      | inr (x, f) ↦ rw (e, deliver_account_store, f) v
      | inl (ids, f) ↦
          elim (Result-cases (LoginServer.store s.login_server s.uid context.ls_operation)) [
            | inr (x, g) ↦ rw (e, deliver_account_store, f, g) v
            | inl (server, g) ↦
                rw (e, deliver_account_store, f, g)
                  (record {
                    numbered = mark_all-Numbered 1 key ids s.providers v.numbered;
                    operations = λ j.
                        remove-OperationSound s _ key j v
                          (λ other. mark_all-AllAlike P j key ids s.providers other);
                  })
          ]
    ]
  ]

  pub record Delivered (s t : RoUpSpaSystem P) (key : AccountFamilyKey)
      (context : AccountOperationContext P) (ids : IdSet) : Type 0 where
    pub quorum : s.qsp ≤ length ids
    pub within : WithinIds (length s.providers) ids
    pub size : length t.providers ≡ length s.providers
    pub authenticates :
        authenticate t.login_server s.uid (resulting_vinfo context.ls_operation) ≡ true
    pub closed : t.account_operations key ≡ none
    pub decided : All (Decided P key context.account ids) t.providers

  abbrev Acknowledged :
      ℕ → List (RoUpSpaProvider P) → AccountFamilyKey → SignedAccountRecord P → IdSet → Type 0
  Acknowledged qsp ps key r ids =
      (qsp ≤ length ids) × WithinIds (length ps) ids × AcceptedHold P key r ids ps

  acknowledged_set-Sound :
      (qsp : ℕ) (ps : List (RoUpSpaProvider P)) (key : AccountFamilyKey) (r : SignedAccountRecord P)
      (state : InFlightOperation) (ids : IdSet)
      → StateSound P qsp ps key r state
      → acknowledged_set state ≡ ok ids
      → Acknowledged qsp ps key r ids
  unfolding acknowledged_set
  acknowledged_set-Sound qsp ps key r
        (InFlightOperation.ready_for_terminal_store exact accepted acknowledged) ids v e =
      subst (Acknowledged qsp ps key r) {x = accepted} (sym v.1 ∙ ground arith) (v.2, v.3, v.4)
  acknowledged_set-Sound qsp ps key r (provider_write_started exact a k) ids v e = absurd (cc)
  acknowledged_set-Sound qsp ps key r idle ids v e = absurd (cc)
  acknowledged_set-Sound qsp ps key r (prepared_at_login_server digest) ids v e = absurd (cc)
  acknowledged_set-Sound qsp ps key r (prepared_for_provider_write digest) ids v e = absurd (cc)

  -- What the login server says after the Store.
  Committed-authenticate :
      (a b : LoginServer.LoginServer) (uid : Bytes) (operation : LoginServer.PendingLsOperation)
      → Committed a b uid operation
      → authenticate b uid (resulting_vinfo operation) ≡ true
  unfolding authenticate
  Committed-authenticate a b uid operation c = ground (arith, c.current uid)

  -- Let the operations in flight be sound and the login server consistent. When the operation is
  -- ready and still pending at the login server, the Store succeeds: a quorum has acknowledged, the
  -- login server accepts the new verifier, each provider that acknowledged keeps the record, every
  -- other provider is stale, and the operation is over.
  pub deliver_commits :
      (s : RoUpSpaSystem P) (key : AccountFamilyKey) (context : AccountOperationContext P)
      (ids : IdSet)
      → AccountsSound P s
      → IsConsistent s.login_server
      → s.account_operations key ≡ some context
      → s.login_server.pending s.uid ≡ some context.ls_operation
      → acknowledged_set context.state ≡ ok ids
      → (trace : ProtocolTrace) × ((deliver_account_store P s key).0
          ≡ ok (
              completed
                (length ids)
                (digest_bytes P (exact_account_tuple P context.account))
                none
                trace))
        × Delivered s (deliver_account_store P s key).1 key context ids
  unfolding deliver_account_store
  deliver_commits s key context ids v c e p g =
      let w = subst (OperationSound P s.qsp s.providers key) e (v.operations key) in
      let k =
        acknowledged_set-Sound s.qsp s.providers key context.account context.state ids w.1 g in
      let (server, stored, committed) =
        store_commits s.login_server s.uid context.ls_operation c p in
      rw (e, deliver_account_store, g, stored)
        (
          _,
          refl,
          record {
            quorum = k.0;
            within = k.1;
            size = length-mark_all key ids s.providers;
            authenticates =
                Committed-authenticate s.login_server server s.uid context.ls_operation committed;
            closed = remove_self s.account_operations key;
            decided = mark_all-Decided P key context.account ids s.providers k.2;
          },
        )
