-- ===== src/UpSpa/System/Finalization/Progress.antt =====
-- crates/upspa/src/protocols/system.rs: a finalization is over after one attempt when everyone can do
-- its part.
use threshold_password_authe.Base.{
  Bytes, bytes_eq, ◌≡◌, sym, ◌∙◌, is_ok, is_some, true, false, not, ◌||◌, none, some, arith,
  Bool-cases, inl, inr, remove, remove_self,
}
use mathlib.Core.Path.{subst}
use threshold_password_authe.Base.IdSet.{mem}
use threshold_password_authe.Primitives.{Primitives}
use threshold_password_authe.UpSpa.System.Types.{
  PendingFinalization, PhaseOutcome, UpSpaSystem, Outcome, release_if_resolved, release_operation,
}
use threshold_password_authe.UpSpa.System.Finalization.{
  terminal_handler, attempt_providers, attempt_login_server, attempted, is_resolved, unacknowledged,
  run_finalization, retry_finalization,
}
use threshold_password_authe.UpSpa.System.Finalization.Positions.{
  within-all, mem-keep, keep-IsSorted,
}
use threshold_password_authe.UpSpa.System.Finalization.Settled.{Settled}
use threshold_password_authe.UpSpa.System.Finalization.Attempts.{
  AllReady, attempt_all_complete, attempt_all_keeps,
}
use threshold_password_authe.UpSpa.System.Finalization.Recovery.{
  IsSound, attempted-IsSound, AllSettled, resolved_all, conclude_resolved, release_same,
}

module _ (P : Primitives) where
  -- Every provider whose acknowledgement is missing, and the login server, can do its part now.
  pub record CanFinish (s : UpSpaSystem P) (uid : Bytes) (pending : PendingFinalization P)
      : Type 0 where
    pub providers :
        AllReady P
          (terminal_handler P pending.action pending.payload)
          (Settled P pending.action pending.payload)
          (unacknowledged P pending)
          s.providers
    pub login_server :
        (not pending.login_server_required || (attempt_login_server P s uid pending).0) ≡ true

  pub attempted_resolved :
      (s : UpSpaSystem P) (uid : Bytes) (pending : PendingFinalization P)
      → IsSound P s.providers pending
      → CanFinish s uid pending
      → is_resolved P (attempted P s uid pending) ≡ true
  unfolding is_resolved attempted attempt_providers unacknowledged
  attempted_resolved s uid pending v c =
      let handler = terminal_handler P pending.action pending.payload in
      let S = Settled P pending.action pending.payload in
      let acknowledged = pending.acknowledged_positions in
      let after = attempted-IsSound P s uid pending v in
      let same =
        within-all (attempted P s uid pending).acknowledged_positions pending.provider_positions
          after.acknowledged v.positions after.within
          (λ i m. elim (Bool-cases (mem i acknowledged)) [
            | inl h ↦
                attempt_all_keeps P handler S (unacknowledged P pending) i s.providers acknowledged
                  0 h
            | inr h ↦
                attempt_all_complete P handler S (unacknowledged P pending) i s.providers
                  acknowledged 0
                  (keep-IsSorted (λ j. not (mem j acknowledged)) pending.provider_positions
                    v.positions)
                  c.providers
                  (ground
                    (arith, mem-keep (λ j. not (mem j acknowledged)) i pending.provider_positions))
          ]) in
      ground (arith, same, c.login_server)

  -- What a finalization that is over leaves.
  abbrev pub IsOver :
      UpSpaSystem P → Bytes → PendingFinalization P → Outcome P PhaseOutcome → Type 0
  IsOver s uid pending out =
      AllSettled P pending (out.1.providers) pending.provider_positions
      × (is_ok (out.0) ≡ not (is_some pending.original_error))
      × (out.1.pending_finalizations uid ≡ none)
      × (out.1.login_server ≡ (attempt_login_server P s uid pending).1)

  pub run_finalization-IsOver :
      (s : UpSpaSystem P) (uid : Bytes) (pending : PendingFinalization P)
      → IsSound P s.providers pending
      → s.pending_finalizations uid ≡ none
      → CanFinish s uid pending
      → IsOver s uid pending (run_finalization P s uid pending)
  unfolding run_finalization attempted
  run_finalization-IsOver s uid pending v free c =
      let after = record s {
        providers = (attempt_providers P s pending).0;
        login_server = (attempt_login_server P s uid pending).1;
      } in
      let resolved = attempted_resolved s uid pending v c in
      let (answer, providers, left, server) =
        conclude_resolved P after uid (attempted P s uid pending) resolved in
      (
        subst (λ ps. AllSettled P pending ps pending.provider_positions) (sym providers)
            (resolved_all P after.providers (attempted P s uid pending)
              (attempted-IsSound P s uid pending v) resolved),
        answer,
        left ∙ free,
        server,
      )

  pub release_free :
      (s : UpSpaSystem P) (uid : Bytes)
      → s.pending_finalizations uid ≡ none
      → (release_if_resolved P s uid).active_operations uid ≡ false
  unfolding release_if_resolved release_operation
  release_free s uid h = ground (arith, h)

  -- Let UpSPA's client retain a sound finalization of a user, and let every provider whose
  -- acknowledgement is missing, and the login server where it is needed, be able to do its part
  -- now. Then one retry ends it: every position has done its part, the answer is a success unless
  -- there was an original error, nothing is retained, and the user's lock is free.
  pub retry_finalization-IsOver :
      (s : UpSpaSystem P) (uid : Bytes) (pending : PendingFinalization P)
      → s.pending_finalizations uid ≡ some pending
      → IsSound P s.providers pending
      → CanFinish s uid pending
      → IsOver s uid pending (retry_finalization P s uid)
        × ((retry_finalization P s uid).1.active_operations uid ≡ false)
  unfolding retry_finalization attempt_login_server
  retry_finalization-IsOver s uid pending e v c =
      let removed = record s { pending_finalizations = remove s.pending_finalizations uid } in
      let out = run_finalization P removed uid pending in
      let same = release_same P (out.1) uid in
      let over =
        run_finalization-IsOver removed uid pending v (remove_self s.pending_finalizations uid)
          (record { providers = c.providers; login_server = c.login_server }) in
      rw (e, retry_finalization)
        (
          (
            subst (λ ps. AllSettled P pending ps pending.provider_positions) (sym (same.0))
                (over.0),
            over.1,
            (λ i. same.1 i uid) ∙ over.2,
            same.2 ∙ over.3,
          ),
          release_free (out.1) uid (over.2),
        )
