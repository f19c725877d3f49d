-- ===== src/UpSpa/System/Finalization.antt =====
-- crates/upspa/src/protocols/system.rs: the terminal step of a phase, its retained tuple and its
-- retry.
pub mod Positions
pub mod Settled
pub mod Attempts
pub mod Recovery
pub mod Progress
pub mod Measure
use threshold_password_authe.Base.{
  ℕ, ◌+◌, Bytes, bytes_eq, ok, err, is_ok, insert, remove, List, [], ◌∷◌, length, keep, set,
  get_elem?, eqb, Bool, true, false, not, ◌&&◌, ◌||◌, Option, none, some, if◌then◌else◌,
}
use threshold_password_authe.Base.IdSet
use threshold_password_authe.Base.IdSet.{IdSet, mem}
use threshold_password_authe.Primitives.{Primitives}
use threshold_password_authe.Crypto.{CtBlob}
use threshold_password_authe.UpSpa.Messages.{UpSpaPasswordUpdateRequest, update_encoded_len}
use threshold_password_authe.UpSpa.Messages.Trace.{ProtocolTrace}
use threshold_password_authe.UpSpa.LoginServer
use threshold_password_authe.UpSpa.LoginServer.{LoginServer, PendingLsOperation}
use threshold_password_authe.UpSpa.Provider.{
  UpSpaProvider, no_matching_pending, WriteDisposition, Answer, store_account, discard_account,
  store_password_update, discard_password_update,
}
use threshold_password_authe.UpSpa.System.Types.{
  TerminalAction, store, discard, FinalizationPayload, account, password_update,
  PendingFinalization, PhaseOutcome, no_finalization_pending, finalization_incomplete, UpSpaSystem,
  Outcome, release_if_resolved, finish,
}
use threshold_password_authe.UpSpa.System.Events.{
  push_parallel_terminal_attempt, push_password_terminal_attempt,
}

unfoldable pub login_server_handler :
    TerminalAction → PendingLsOperation → LoginServer → Bytes → LoginServer.Answer
unfolding LoginServer.store LoginServer.discard
login_server_handler store operation server uid = LoginServer.store server uid operation
login_server_handler discard operation server uid = LoginServer.discard server uid operation

module _ (P : Primitives) where
  -- The arms of the `match` for an account and for a password update. The source indexes lists of
  -- `nsp` entries, and panics outside them.
  unfoldable pub account_handler :
      TerminalAction → CtBlob → Option Bytes → UpSpaProvider P → Answer P WriteDisposition
  unfolding store_account discard_account
  account_handler action blob none p = (err no_matching_pending, p)
  account_handler store blob (some suid) p = store_account P p suid blob
  account_handler discard blob (some suid) p = discard_account P p suid blob

  unfoldable pub password_handler :
      TerminalAction
      → Option (UpSpaPasswordUpdateRequest P)
      → UpSpaProvider P
      → Answer P WriteDisposition
  unfolding store_password_update discard_password_update
  password_handler action none p = (err no_matching_pending, p)
  password_handler store (some request) p = store_password_update P p request
  password_handler discard (some request) p = discard_password_update P p request

  -- The terminal handler of the provider at a position.
  unfoldable pub terminal_handler :
      TerminalAction → FinalizationPayload P → ℕ → UpSpaProvider P → Answer P WriteDisposition
  unfolding account_handler password_handler
  terminal_handler action (account suids blob operation secret_update) position p =
      account_handler action blob (get_elem? suids position) p
  terminal_handler action (password_update requests) position p =
      password_handler action (get_elem? requests position) p

  -- The providers, the acknowledged positions, and the acknowledgements of this attempt.
  abbrev pub Attempt : Type 0
  Attempt = List (UpSpaProvider P) × IdSet × ℕ

  abbrev pub Handler : Type 0
  Handler = ℕ → UpSpaProvider P → Answer P WriteDisposition

  unfoldable pub attempt_at : Handler → ℕ → Attempt → Attempt
  attempt_at handler position (providers, acknowledged, count) =
      elim (get_elem? providers position) [
        | none ↦ (providers, acknowledged, count)
        | some p ↦
            let reply = handler position p in
            if is_ok (reply.0)
            then (set providers position (reply.1), IdSet.insert position acknowledged, count + 1)
            else (set providers position (reply.1), acknowledged, count)
      ]

  -- The loop over the positions that have not acknowledged yet.
  unfoldable pub attempt_all : Handler → List ℕ → Attempt → Attempt
  unfolding attempt_at
  attempt_all handler [] attempt = attempt
  attempt_all handler (position ∷ positions) attempt =
      attempt_all handler positions (attempt_at handler position attempt)

  -- The terminal step of the login server, and whether it succeeded. A password update never has
  -- one; the source panics there.
  unfoldable pub terminal_login_server :
      TerminalAction → FinalizationPayload P → LoginServer → Bytes → Bool × LoginServer
  unfolding login_server_handler
  terminal_login_server action (account suids blob operation secret_update) server uid =
      let reply = login_server_handler action operation server uid in (is_ok (reply.0), reply.1)
  terminal_login_server action (password_update requests) server uid = (false, server)

  unfoldable pub request_size : List (UpSpaPasswordUpdateRequest P) → ℕ
  unfolding update_encoded_len
  request_size [] = 0
  request_size (request ∷ requests) = update_encoded_len P request

  unfoldable pub terminal_trace :
      PendingFinalization P → Bytes → ℕ → ℕ → Bool → FinalizationPayload P → ProtocolTrace
  unfolding push_parallel_terminal_attempt push_password_terminal_attempt request_size
  terminal_trace pending uid attempted acknowledged login_server_attempted
        (account suids blob operation secret_update) =
      push_parallel_terminal_attempt pending.trace pending.stage_id uid attempted acknowledged
        login_server_attempted secret_update
  terminal_trace pending uid attempted acknowledged login_server_attempted
        (password_update requests) =
      push_password_terminal_attempt pending.trace pending.stage_id attempted acknowledged
        (request_size requests)

  -- Whether all providers have acknowledged and the login server has nothing left to do.
  unfoldable pub is_resolved : PendingFinalization P → Bool
  is_resolved pending =
      eqb (length pending.acknowledged_positions) (length pending.provider_positions)
      && (not pending.login_server_required || pending.login_server_processed)

  -- The end of `run_finalization`, with the tuple that the attempt leaves.
  unfoldable pub conclude : UpSpaSystem P → Bytes → PendingFinalization P → Outcome P PhaseOutcome
  unfolding is_resolved finish
  conclude s uid pending =
      let traced = record s { last_trace = pending.trace } in
      if is_resolved pending
      then elim pending.original_error [
        | some error ↦ (err error, traced)
        | none ↦ let out = finish P traced pending.phase pending.trace in (ok (out.0), out.1)
      ]
      else (
        err (
            finalization_incomplete (length pending.acknowledged_positions)
              (length pending.provider_positions)
              (not pending.login_server_required || pending.login_server_processed)),
        record traced { pending_finalizations = insert s.pending_finalizations uid pending },
      )

  -- The positions that an attempt goes to.
  unfoldable pub unacknowledged : PendingFinalization P → List ℕ
  unacknowledged pending =
      keep (λ position. not (mem position pending.acknowledged_positions))
        pending.provider_positions

  unfoldable pub attempt_providers : UpSpaSystem P → PendingFinalization P → Attempt
  unfolding terminal_handler attempt_all unacknowledged
  attempt_providers s pending =
      attempt_all (terminal_handler pending.action pending.payload) (unacknowledged pending)
        (s.providers, pending.acknowledged_positions, 0)

  unfoldable pub attempt_login_server :
      UpSpaSystem P → Bytes → PendingFinalization P → Bool × LoginServer
  unfolding terminal_login_server
  attempt_login_server s uid pending =
      if pending.login_server_required && not pending.login_server_processed
      then terminal_login_server pending.action pending.payload s.login_server uid
      else (pending.login_server_processed, s.login_server)

  -- The tuple after an attempt.
  unfoldable pub attempted : UpSpaSystem P → Bytes → PendingFinalization P → PendingFinalization P
  unfolding attempt_providers attempt_login_server terminal_trace unacknowledged
  attempted s uid pending =
      let attempt = attempt_providers s pending in
      record pending {
        acknowledged_positions = attempt.1;
        login_server_processed = (attempt_login_server s uid pending).0;
        trace =
            terminal_trace pending uid (length (unacknowledged pending)) (attempt.2)
              (pending.login_server_required && not pending.login_server_processed) pending.payload;
      }

  unfoldable pub run_finalization :
      UpSpaSystem P → Bytes → PendingFinalization P → Outcome P PhaseOutcome
  unfolding attempt_providers attempt_login_server attempted conclude
  run_finalization s uid pending =
      conclude
        (record s {
          providers = (attempt_providers s pending).0;
          login_server = (attempt_login_server s uid pending).1;
        })
        uid (attempted s uid pending)

  unfoldable pub retry_finalization : UpSpaSystem P → Bytes → Outcome P PhaseOutcome
  unfolding run_finalization release_if_resolved
  retry_finalization s uid = elim (s.pending_finalizations uid) [
    | none ↦ (err no_finalization_pending, s)
    | some pending ↦
        let out =
          run_finalization (record s { pending_finalizations = remove s.pending_finalizations uid })
            uid pending in
        (out.0, release_if_resolved P (out.1) uid)
  ]
