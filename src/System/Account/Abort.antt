-- ===== src/System/Account/Abort.antt =====
-- roupspa.rs: the abort of an account operation. A Discard is delivered before the first write only.
use threshold_password_authe.Base.{
  ℕ, ◌≡◌, refl, inl, inr, Bytes, bytes_eq, err, is_ok, true, leb, List, length, some, insert_self,
  Option-cases, Result-cases, Bool-cases,
}
use threshold_password_authe.Base.IdSet.{IdSet}
use threshold_password_authe.Primitives.{Primitives}
use threshold_password_authe.LoginServer
use threshold_password_authe.LoginServer.{resulting_vinfo, authenticate, operation_eq}
use threshold_password_authe.Provider.{AccountFamilyKey, key_eq}
use threshold_password_authe.Thresholds.Errors.{discard_forbidden}
use threshold_password_authe.System.Types.{
  InFlightOperation, idle, prepared_at_login_server, prepared_for_provider_write,
  provider_write_started, AccountOperationContext, RoUpSpaSystem,
}
use threshold_password_authe.System.Account.{
  abort_account_before_write, discard_prepared, retry_inflight_account_write, plan_account_write,
  run_account_write,
}
use threshold_password_authe.System.Writes.{written_state}
use threshold_password_authe.System.Account.Frame.{AllAlike-refl}
use threshold_password_authe.System.Account.Invariant.{AccountsSound}
use threshold_password_authe.System.Account.Commit.{remove-OperationSound}

module _ (P : Primitives) where
  abort_at :
      (s : RoUpSpaSystem P) (key : AccountFamilyKey) (context : AccountOperationContext P)
      (exact : Bytes) (accepted : IdSet)
      → s.account_operations key ≡ some context
      → context.state ≡ written_state s.qsp exact accepted
      → abort_account_before_write P s key ≡ (err discard_forbidden, s)
  unfolding abort_account_before_write written_state
  abort_at s key context exact accepted e f = elim (Bool-cases (leb s.qsp (length accepted))) [
    | inl h ↦ rw (e, abort_account_before_write, f, h, written_state)
    | inr h ↦ rw (e, abort_account_before_write, f, h, written_state)
  ]

  run-abort :
      (s : RoUpSpaSystem P) (key : AccountFamilyKey) (context : AccountOperationContext P)
      (targets before : IdSet)
      → abort_account_before_write P (run_account_write P s key context targets before).1 key
        ≡ (err discard_forbidden, (run_account_write P s key context targets before).1)
  unfolding run_account_write
  run-abort s key context targets before =
      abort_at _ key _ _ _ (insert_self s.account_operations key _) refl

  -- Let an attempt to write an account give a result and no error, whether anyone acknowledged or
  -- not. Then an abort after it is refused as a forbidden Discard, and changes nothing.
  pub abort_after_attempt :
      (s : RoUpSpaSystem P) (key : AccountFamilyKey) (indices : List ℕ)
      → is_ok ((retry_inflight_account_write P s key indices).0) ≡ true
      → abort_account_before_write P (retry_inflight_account_write P s key indices).1 key
        ≡ (err discard_forbidden, (retry_inflight_account_write P s key indices).1)
  unfolding retry_inflight_account_write
  abort_after_attempt s key indices h = elim (Option-cases (s.account_operations key)) [
    | inl e ↦ absurd (cc (rw (e, retry_inflight_account_write) at h))
    | inr (context, e) ↦ elim (Result-cases (plan_account_write P s context indices)) [
      | inr (x, f) ↦ absurd (cc (rw (e, retry_inflight_account_write, f) at h))
      | inl ((targets, before), f) ↦
          rw (e, retry_inflight_account_write, f) (run-abort s key context targets before)
    ]
  ]

  discard_prepared-AccountsSound :
      (s : RoUpSpaSystem P) (key : AccountFamilyKey) (context : AccountOperationContext P)
      → AccountsSound P s
      → AccountsSound P (discard_prepared P s key context).1
  unfolding discard_prepared
  discard_prepared-AccountsSound s key context v =
      elim (Result-cases (LoginServer.discard s.login_server s.uid context.ls_operation)) [
        | inr (x, g) ↦ rw (discard_prepared, g) v
        | inl (server, g) ↦
            rw (discard_prepared, g)
              (record {
                numbered = v.numbered;
                operations = λ j.
                    remove-OperationSound P s s.providers key j v
                      (λ other. AllAlike-refl P j s.providers);
              })
      ]

  abort_at-AccountsSound :
      (s : RoUpSpaSystem P) (key : AccountFamilyKey) (context : AccountOperationContext P)
      (state : InFlightOperation)
      → AccountsSound P s
      → s.account_operations key ≡ some context
      → context.state ≡ state
      → AccountsSound P (abort_account_before_write P s key).1
  unfolding abort_account_before_write
  abort_at-AccountsSound s key context (prepared_at_login_server digest) v e f =
      rw (e, abort_account_before_write, f) (discard_prepared-AccountsSound s key context v)
  abort_at-AccountsSound s key context idle v e f = rw (e, abort_account_before_write, f) v
  abort_at-AccountsSound s key context (prepared_for_provider_write digest) v e f =
      rw (e, abort_account_before_write, f) v
  abort_at-AccountsSound s key context (provider_write_started exact a k) v e f =
      rw (e, abort_account_before_write, f) v
  abort_at-AccountsSound s key context (InFlightOperation.ready_for_terminal_store exact a k) v e
        f =
      rw (e, abort_account_before_write, f) v

  -- Let the operations in flight be sound. They are sound after an abort, whether it is allowed or
  -- not.
  pub abort-AccountsSound :
      (s : RoUpSpaSystem P) (key : AccountFamilyKey)
      → AccountsSound P s
      → AccountsSound P (abort_account_before_write P s key).1
  unfolding abort_account_before_write
  abort-AccountsSound s key v = elim (Option-cases (s.account_operations key)) [
    | inl e ↦ rw (e, abort_account_before_write) v
    | inr (context, e) ↦ abort_at-AccountsSound s key context context.state v e refl
  ]
