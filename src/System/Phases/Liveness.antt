-- ===== src/System/Phases/Liveness.antt =====
-- roupspa.rs: a registration completes when a quorum is reachable and accepts the record.
use threshold_password_authe.Base.{
  ℕ, ◌≤◌, ◌≡◌, refl, ap, ◌∙◌, ◌⊎◌, Bytes, bytes_eq, ok, true, false, List, [], length, All, some,
  arith, leb,
}
use native.Mathlib.Nat.{zero-add}
use threshold_password_authe.Base.IdSet.{IdSet}
use threshold_password_authe.Primitives.{Primitives}
use threshold_password_authe.Messages.Trace.{ProtocolTrace}
use threshold_password_authe.Provider.{AccountFamilyKey, key_eq}
use threshold_password_authe.Thresholds.Intersection.{count}
use threshold_password_authe.System.Types.{
  PhaseResult, AccountWriteKind, prepared_at_login_server, AccountOperationContext, RoUpSpaSystem,
  Outcome, digest_bytes, exact_account_tuple,
}
use threshold_password_authe.System.Writes.{accepted_account, written_result, write_all}
use threshold_password_authe.System.Writes.Counting.{Numbered}
use threshold_password_authe.System.Account.{
  account_write, plan_account_write, run_account_write, retry_inflight_account_write, is_kind,
  attempt_account_write,
}
use threshold_password_authe.System.Phases.{reachable_indices}
use threshold_password_authe.System.Phases.Reaching.{
  Accepts, write_all_reachable, targets_reachable,
}

module _ (P : Primitives) (t : RoUpSpaSystem P) (key : AccountFamilyKey)
    (c : AccountOperationContext P) where
  written_ready :
      (qsp n : ℕ) (digest : Bytes) (trace : ProtocolTrace)
      → qsp ≤ n
      → written_result qsp n digest trace ≡ PhaseResult.ready_for_terminal_store n qsp digest trace
  unfolding written_result
  written_ready qsp n digest trace h = let yes : leb qsp n ≡ true = ground arith in rw yes refl

  plan_reachable :
      (digest : Bytes)
      → c.state ≡ prepared_at_login_server digest
      → 1 ≤ count (λ p. p.reachable) t.providers
      → plan_account_write P t c (reachable_indices P t) ≡ ok (reachable_indices P t, [])
  unfolding plan_account_write reachable_indices accepted_account
  plan_reachable digest h k = rw (targets_reachable P t.providers k, plan_account_write, h) refl

  retry-run :
      (digest : Bytes)
      → t.account_operations key ≡ some c
      → c.state ≡ prepared_at_login_server digest
      → 1 ≤ count (λ p. p.reachable) t.providers
      → retry_inflight_account_write P t key (reachable_indices P t)
        ≡ run_account_write P t key c (reachable_indices P t) []
  unfolding retry_inflight_account_write
  retry-run digest present fresh some_reached =
      let plan = plan_reachable digest fresh some_reached in
      rw (present, retry_inflight_account_write, plan) refl

  attempt-retry :
      (kind : AccountWriteKind) (indices : List ℕ)
      → t.account_operations key ≡ some c
      → is_kind P c.kind kind ≡ true
      → attempt_account_write P kind t key indices ≡ retry_inflight_account_write P t key indices
  unfolding attempt_account_write
  attempt-retry kind indices present same = rw (present, attempt_account_write, same) refl

  run_ready :
      (targets before : IdSet) (n : ℕ)
      → length (write_all P (account_write P c.kind c.account) targets (t.providers, before)).1 ≡ n
      → t.qsp ≤ n
      → (digest : Bytes) × (trace : ProtocolTrace) × ((run_account_write P t key c targets before).0
          ≡ ok (PhaseResult.ready_for_terminal_store n t.qsp digest trace))
  unfolding run_account_write
  run_ready targets before n counted enough =
      let digest = digest_bytes P (exact_account_tuple P c.account) in
      let trace = (run_account_write P t key c targets before).1.last_trace in
      (
        digest,
        trace,
        ap (λ m. ok (written_result t.qsp m digest trace)) counted
            ∙ ap ok (written_ready t.qsp n digest trace enough),
      )

  counted_reachable :
      Numbered P 1 t.providers
      → All
          (λ p. (p.reachable ≡ false) ⊎ Accepts P (account_write P c.kind c.account) p)
          t.providers
      → length
          (write_all P
            (account_write P c.kind c.account)
            (reachable_indices P t)
            (t.providers, [])).1
        ≡ count (λ p. p.reachable) t.providers
  unfolding reachable_indices
  counted_reachable numbered accept =
      write_all_reachable P (account_write P c.kind c.account) 0 [] t.providers [] refl numbered tt
        accept
      ∙ zero-add _

  -- An attempt at a prepared write that every reachable provider accepts, at least a quorum, is ready.
  pub attempt_ready :
      (kind : AccountWriteKind) (digest : Bytes)
      → t.account_operations key ≡ some c
      → c.state ≡ prepared_at_login_server digest
      → is_kind P c.kind kind ≡ true
      → Numbered P 1 t.providers
      → All
          (λ p. (p.reachable ≡ false) ⊎ Accepts P (account_write P c.kind c.account) p)
          t.providers
      → 1 ≤ t.qsp
      → t.qsp ≤ count (λ p. p.reachable) t.providers
      → (exact : Bytes) × (trace : ProtocolTrace) × ((attempt_account_write P kind t key
            (reachable_indices P t)).0
          ≡ ok (
              PhaseResult.ready_for_terminal_store
                (count (λ p. p.reachable) t.providers)
                t.qsp
                exact
                trace))
  attempt_ready kind digest present fresh same numbered accept some_quorum enough =
      let (exact, trace, e) =
        run_ready (reachable_indices P t) [] _ (counted_reachable numbered accept) enough in
      (
        exact,
        trace,
        ap (λ (out : Outcome P PhaseResult). out.0)
              (attempt-retry kind (reachable_indices P t) present same
                ∙ retry-run digest present fresh (omega arith))
            ∙ e,
      )
