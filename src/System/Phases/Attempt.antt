-- ===== src/System/Phases/Attempt.antt =====
-- roupspa.rs: what an attempt to write leaves of the client, and what it says when it is ready.
use threshold_password_authe.Base.{
  ℕ, ◌≤◌, ◌≡◌, refl, inl, inr, Bytes, Result, ok, err, insert_self, leb, List, length, some, arith,
  Bool-cases, Result-cases,
}
use threshold_password_authe.Base.IdSet.{IdSet}
use threshold_password_authe.Primitives.{Primitives}
use threshold_password_authe.Messages.Trace.{ProtocolTrace}
use threshold_password_authe.Provider.{AccountFamilyKey, key_eq}
use threshold_password_authe.Thresholds.Errors.{PhaseError}
use threshold_password_authe.System.Types.{
  PhaseResult, AccountWriteKind, InFlightOperation, AccountOperationContext, RoUpSpaSystem, Outcome,
}
use threshold_password_authe.System.Writes.{written_state, written_result}
use threshold_password_authe.System.Account.{
  attempt_account_write, retry_inflight_account_write, run_account_write, plan_account_write,
  is_kind,
}
use threshold_password_authe.System.Account.Invariant.{AccountsSound, retry-AccountsSound}
use threshold_password_authe.System.Account.Deliver.{acknowledged_set}

-- The result `ready` comes with an acknowledgement set of a quorum's size.
abbrev pub ReadyState : ℕ → Result PhaseError PhaseResult → InFlightOperation → Type 0
ReadyState qsp (ok (PhaseResult.ready_for_terminal_store n required digest trace)) state =
    (ids : IdSet) × (acknowledged_set state ≡ ok ids) × (length ids ≡ n) × (qsp ≤ n)
ReadyState qsp (ok (PhaseResult.completed n digest decision trace)) state = ⊥
ReadyState qsp (ok (PhaseResult.aborted error trace)) state = ⊥
ReadyState qsp (ok (PhaseResult.unresolved n required digest trace)) state = Unit {0}
ReadyState qsp (err e) state = Unit {0}

pub written-ReadyState :
    (qsp : ℕ) (exact digest : Bytes) (trace : ProtocolTrace) (accepted : IdSet)
    → ReadyState qsp
        (ok (written_result qsp (length accepted) digest trace))
        (written_state qsp exact accepted)
unfolding written_result written_state acknowledged_set
written-ReadyState qsp exact digest trace accepted = elim (Bool-cases (leb qsp (length accepted))) [
  | inl e ↦ rw (e, written_result, written_state) (accepted, refl, refl, ground arith)
  | inr e ↦ rw (e, written_result, written_state) tt
]

module _ (P : Primitives) (s : RoUpSpaSystem P) (key : AccountFamilyKey)
    (context : AccountOperationContext P) where
  pub record Attempted (out : Outcome P PhaseResult) : Type 0 where
    pub server : out.1.login_server ≡ s.login_server
    pub uid : out.1.uid ≡ s.uid
    pub lsj : out.1.lsj ≡ s.lsj
    pub qsp : out.1.qsp ≡ s.qsp
    pub after : AccountOperationContext P
    pub present : out.1.account_operations key ≡ some after
    pub operation : after.ls_operation ≡ context.ls_operation
    pub account : after.account ≡ context.account
    pub ready : ReadyState s.qsp out.0 after.state

  run-Attempted :
      (targets before : IdSet) → Attempted (run_account_write P s key context targets before)
  unfolding run_account_write
  run-Attempted targets before = record {
    server = refl;
    uid = refl;
    lsj = refl;
    qsp = refl;
    after = _;
    present = insert_self s.account_operations key _;
    operation = refl;
    account = refl;
    ready = written-ReadyState s.qsp _ _ _ _;
  }

  refused-Attempted :
      (e : PhaseError) → s.account_operations key ≡ some context → Attempted (err e, s)
  refused-Attempted e present = record {
    server = refl;
    uid = refl;
    lsj = refl;
    qsp = refl;
    after = context;
    present = present;
    operation = refl;
    account = refl;
    ready = tt;
  }

  retry-Attempted :
      (indices : List ℕ)
      → s.account_operations key ≡ some context
      → Attempted (retry_inflight_account_write P s key indices)
  unfolding retry_inflight_account_write
  retry-Attempted indices present = elim (Result-cases (plan_account_write P s context indices)) [
    | inr (e, f) ↦ rw (present, retry_inflight_account_write, f) (refused-Attempted e present)
    | inl ((targets, before), f) ↦
        rw (present, retry_inflight_account_write, f) (run-Attempted targets before)
  ]

  -- Whatever an attempt does, the login server is untouched, and the operation stays in flight.
  pub attempt-Attempted :
      (kind : AccountWriteKind) (indices : List ℕ)
      → s.account_operations key ≡ some context
      → Attempted (attempt_account_write P kind s key indices)
  unfolding attempt_account_write
  attempt-Attempted kind indices present = elim (Bool-cases (is_kind P context.kind kind)) [
    | inr other ↦ rw (present, attempt_account_write, other) (refused-Attempted _ present)
    | inl same ↦ rw (present, attempt_account_write, same) (retry-Attempted indices present)
  ]

  -- The invariant of the operations in flight survives an attempt.
  pub attempt-AccountsSound :
      (kind : AccountWriteKind) (indices : List ℕ)
      → s.account_operations key ≡ some context
      → AccountsSound P s
      → AccountsSound P (attempt_account_write P kind s key indices).1
  unfolding attempt_account_write
  attempt-AccountsSound kind indices present v = elim (Bool-cases (is_kind P context.kind kind)) [
    | inr other ↦ rw (present, attempt_account_write, other) v
    | inl same ↦ rw (present, attempt_account_write, same) (retry-AccountsSound P s key indices v)
  ]
