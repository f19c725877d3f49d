-- ===== src/UpSpa/System/Finalization/Recovery.antt =====
-- crates/upspa/src/protocols/system.rs: a finalization is retained until every provider has done its
-- part, and then it is over.
use threshold_password_authe.Base.{
  Bytes, bytes_eq, ◌≡◌, refl, sym, ◌∙◌, List, is_ok, is_some, true, false, not, Option, none, some,
  Result, err, ◌||◌, insert_self, arith, Bool-cases, Option-cases, inl, inr,
}
use mathlib.Core.Path.{subst}
use threshold_password_authe.Base.IdSet.{IdSet, mem, IsSorted}
use threshold_password_authe.Primitives.{Primitives}
use threshold_password_authe.UpSpa.Provider.{UpSpaProvider}
use threshold_password_authe.UpSpa.System.Types.{
  PendingFinalization, PhaseError, PhaseOutcome, UpSpaSystem, Outcome, finish, release_if_resolved,
  release_operation,
}
use threshold_password_authe.UpSpa.System.Finalization.{
  terminal_handler, attempt_providers, attempt_login_server, attempted, is_resolved, unacknowledged,
  conclude, run_finalization,
}
use threshold_password_authe.UpSpa.System.Finalization.Positions.{
  IsWithin, within-same, mem-keep, keep-IsSorted, fresh_positions,
}
use threshold_password_authe.UpSpa.System.Finalization.Settled.{Settled, terminal_handler-Settled}
use threshold_password_authe.UpSpa.System.Finalization.Attempts.{
  AllHold, attempt_all-AllHold, attempt_all-IsSorted, mem-attempt_all,
}

module _ (P : Primitives) where
  -- The positions of a set have done what the terminal step asks of them.
  abbrev pub AllSettled : PendingFinalization P → List (UpSpaProvider P) → IdSet → Type 0
  AllSettled pending ps positions =
      AllHold P (terminal_handler P pending.action pending.payload)
        (Settled P pending.action pending.payload) ps positions

  pub record IsSound (ps : List (UpSpaProvider P)) (pending : PendingFinalization P) : Type 0 where
    pub positions : IsSorted pending.provider_positions
    pub acknowledged : IsSorted pending.acknowledged_positions
    pub within : IsWithin pending.acknowledged_positions pending.provider_positions
    pub settled : AllSettled pending ps pending.acknowledged_positions

  pub attempted-IsSound :
      (s : UpSpaSystem P) (uid : Bytes) (pending : PendingFinalization P)
      → IsSound s.providers pending
      → IsSound ((attempt_providers P s pending).0) (attempted P s uid pending)
  unfolding attempt_providers attempted unacknowledged
  attempted-IsSound s uid pending v =
      let handler = terminal_handler P pending.action pending.payload in
      let S = Settled P pending.action pending.payload in
      let acknowledged = pending.acknowledged_positions in
      let positions = unacknowledged P pending in
      record {
        positions = v.positions;
        acknowledged =
            attempt_all-IsSorted P handler S positions s.providers acknowledged 0 v.acknowledged;
        within = λ i m. ground (
          arith,
          mem-attempt_all P handler S positions i s.providers acknowledged 0 m,
          mem-keep (λ j. not (mem j acknowledged)) i pending.provider_positions,
          v.within i,
        );
        settled =
            attempt_all-AllHold P handler S
              (terminal_handler-Settled P pending.action pending.payload) positions s.providers
              acknowledged 0
              (keep-IsSorted (λ j. not (mem j acknowledged)) pending.provider_positions v.positions)
              (fresh_positions pending.provider_positions acknowledged) v.settled;
      }

  pub resolved_all :
      (ps : List (UpSpaProvider P)) (pending : PendingFinalization P)
      → IsSound ps pending
      → is_resolved P pending ≡ true
      → AllSettled pending ps pending.provider_positions
  unfolding is_resolved
  resolved_all ps pending v h =
      subst (AllSettled pending ps)
        (within-same pending.acknowledged_positions pending.provider_positions v.acknowledged
          v.positions v.within (ground (arith, h)))
        v.settled

  -- The answer at the end of a finalization: the original error, or a success where there is none.
  abbrev pub IsAnswer : Option PhaseError → Result PhaseError PhaseOutcome → Type 0
  IsAnswer none answer = is_ok answer ≡ true
  IsAnswer (some error) answer = answer ≡ err error

  -- The login server's part is not needed, was done before, or is done by this attempt.
  abbrev pub ServerDone : UpSpaSystem P → Bytes → PendingFinalization P → Type 0
  ServerDone s uid pending =
      (not pending.login_server_required || (attempt_login_server P s uid pending).0) ≡ true

  -- Where nothing is left, all is done; else what is left is sound, for the same terminal step.
  abbrev pub IsFinalized :
      UpSpaSystem P
      → Bytes
      → PendingFinalization P
      → Outcome P PhaseOutcome
      → Option (PendingFinalization P)
      → Type 0
  IsFinalized s uid pending out none =
      AllSettled pending out.1.providers pending.provider_positions
      × IsAnswer pending.original_error (out.0)
      × ServerDone s uid pending
  IsFinalized s uid pending out (some left) =
      IsSound out.1.providers left
      × (is_ok (out.0) ≡ false)
      × (left.login_server_processed ≡ (attempt_login_server P s uid pending).0)
      × (left.original_error ≡ pending.original_error)
      × (left.payload ≡ pending.payload)
      × (left.action ≡ pending.action)
      × (left.provider_positions ≡ pending.provider_positions)

  pub conclude_resolved :
      (s : UpSpaSystem P) (uid : Bytes) (pending : PendingFinalization P)
      → is_resolved P pending ≡ true
      → (is_ok ((conclude P s uid pending).0) ≡ not (is_some pending.original_error))
        × ((conclude P s uid pending).1.providers ≡ s.providers)
        × ((conclude P s uid pending).1.pending_finalizations uid ≡ s.pending_finalizations uid)
        × ((conclude P s uid pending).1.login_server ≡ s.login_server)
  unfolding conclude finish
  conclude_resolved s uid pending h = elim (Option-cases pending.original_error) [
    | inl e ↦ rw (h, e, conclude) (refl, refl, refl, refl)
    | inr (error, e) ↦ rw (h, e, conclude) (refl, refl, refl, refl)
  ]

  conclude-IsAnswer :
      (s : UpSpaSystem P) (uid : Bytes) (pending : PendingFinalization P)
      → is_resolved P pending ≡ true
      → IsAnswer pending.original_error ((conclude P s uid pending).0)
  unfolding conclude finish
  conclude-IsAnswer s uid pending h = elim (Option-cases pending.original_error) [
    | inl e ↦ rw (h, e, conclude) refl
    | inr (error, e) ↦ rw (h, e, conclude) refl
  ]

  resolved-ServerDone :
      (s : UpSpaSystem P) (uid : Bytes) (pending : PendingFinalization P)
      → is_resolved P (attempted P s uid pending) ≡ true
      → ServerDone s uid pending
  unfolding is_resolved attempted
  resolved-ServerDone s uid pending h = ground (arith, h)

  conclude_retained :
      (s : UpSpaSystem P) (uid : Bytes) (pending : PendingFinalization P)
      → is_resolved P pending ≡ false
      → (is_ok ((conclude P s uid pending).0) ≡ false)
        × ((conclude P s uid pending).1.providers ≡ s.providers)
        × ((conclude P s uid pending).1.pending_finalizations uid ≡ some pending)
  unfolding conclude
  conclude_retained s uid pending h =
      rw (h, conclude) (refl, refl, insert_self s.pending_finalizations uid pending)

  -- Once more for the terminal step that is left.
  pub run_finalization-IsFinalized :
      (s : UpSpaSystem P) (uid : Bytes) (pending : PendingFinalization P)
      → IsSound s.providers pending
      → s.pending_finalizations uid ≡ none
      → IsFinalized s uid pending
          (run_finalization P s uid pending)
          ((run_finalization P s uid pending).1.pending_finalizations uid)
  unfolding run_finalization attempted
  run_finalization-IsFinalized s uid pending v free =
      let after = record s {
        providers = (attempt_providers P s pending).0;
        login_server = (attempt_login_server P s uid pending).1;
      } in
      let tuple = attempted P s uid pending in
      let sound = attempted-IsSound s uid pending v in
      elim (Bool-cases (is_resolved P tuple)) [
        | inl h ↦
            let (answer, providers, left, server) = conclude_resolved after uid tuple h in
            subst (IsFinalized s uid pending (conclude P after uid tuple)) (sym (left ∙ free)) (
              subst (λ ps. AllSettled pending ps pending.provider_positions) (sym providers)
                  (resolved_all after.providers tuple sound h),
              conclude-IsAnswer after uid tuple h,
              resolved-ServerDone s uid pending h,
            )
        | inr h ↦
            let (answer, providers, left) = conclude_retained after uid tuple h in
            subst (IsFinalized s uid pending (conclude P after uid tuple)) (sym left) (
              subst (λ ps. IsSound ps tuple) (sym providers) sound,
              answer,
              refl,
              refl,
              refl,
              refl,
              refl,
            )
      ]

  pub release_same :
      (s : UpSpaSystem P) (uid : Bytes)
      → ((release_if_resolved P s uid).providers ≡ s.providers)
        × ((release_if_resolved P s uid).pending_finalizations ≡ s.pending_finalizations)
        × ((release_if_resolved P s uid).login_server ≡ s.login_server)
  unfolding release_if_resolved release_operation
  release_same s uid = ground arith
