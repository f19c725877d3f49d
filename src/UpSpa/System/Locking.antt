-- ===== src/UpSpa/System/Locking.antt =====
-- crates/upspa/src/protocols/system.rs: the user's lock. What a phase may change of the locks and of
-- the retained finalizations.
pub mod Identification
pub mod Phases
pub mod History
use threshold_password_authe.Base.{
  Bytes, bytes_eq, ◌≡◌, ◌≢◌, refl, ◌∙◌, sym, contains_key, true, false, Result, ok, err, and_then,
  arith, inl, inr, Bool-cases, Option-cases, remove, List, [], ◌∷◌, ℕ, add_member,
}
use mathlib.Core.Path.{subst}
use threshold_password_authe.Primitives.{Primitives}
use threshold_password_authe.UpSpa.Messages.Trace.{ProtocolTrace}
use threshold_password_authe.UpSpa.LoginServer.{LoginServer}
use threshold_password_authe.UpSpa.Provider.Records.{UpSpaProvider}
use threshold_password_authe.UpSpa.System.Types.{
  PhaseKind, PhaseOutcome, operation_in_progress, PhaseError, PendingFinalization, UpSpaSystem,
  Outcome, IdentificationRequirement, IdentifiedState, release_if_resolved, release_operation,
}
use threshold_password_authe.UpSpa.System.Setup.{locked}
use threshold_password_authe.UpSpa.System.Finalization.{run_finalization, retry_finalization}

module _ (P : Primitives) where
  -- Whoever has a retained finalization is locked.
  abbrev pub IsLocked : UpSpaSystem P → Type 0
  IsLocked s =
      (uid : Bytes)
      → contains_key s.pending_finalizations uid ≡ true
      → s.active_operations uid ≡ true

  -- From `s` to `t` the locks are the same, and the retained finalizations of all but `uid`.
  pub record Keeps (uid : Bytes) (s t : UpSpaSystem P) : Type 0 where
    pub active : (j : Bytes) → t.active_operations j ≡ s.active_operations j
    pub pending : (j : Bytes) → j ≢ uid → t.pending_finalizations j ≡ s.pending_finalizations j

  pub Keeps-refl : (uid : Bytes) (s : UpSpaSystem P) → Keeps uid s s
  Keeps-refl uid s = record { active = λ j. refl; pending = λ j n. refl }

  pub Keeps-trans :
      (uid : Bytes) (s t u : UpSpaSystem P) → Keeps uid s t → Keeps uid t u → Keeps uid s u
  Keeps-trans uid s t u h k = record {
    active = λ j. k.active j ∙ h.active j;
    pending = λ j n. k.pending j n ∙ h.pending j n;
  }

  pub run_finalization-Keeps :
      (s : UpSpaSystem P) (uid : Bytes) (pending : PendingFinalization P)
      → Keeps uid s ((run_finalization P s uid pending).1)
  unfolding run_finalization
  run_finalization-Keeps s uid pending = record {
    active = λ j. ground arith;
    pending = λ j n. ground arith;
  }

  -- The finalization of a phase whose prepares left other providers and another login server.
  pub prepared-Keeps :
      (s t : UpSpaSystem P) (uid : Bytes) (pending : PendingFinalization P)
      → ((j : Bytes) → t.active_operations j ≡ s.active_operations j)
      → ((j : Bytes) → t.pending_finalizations j ≡ s.pending_finalizations j)
      → Keeps uid s ((run_finalization P t uid pending).1)
  prepared-Keeps s t uid pending a p =
      Keeps-trans uid s t ((run_finalization P t uid pending).1)
        (record { active = a; pending = λ j n. p j }) (run_finalization-Keeps t uid pending)

  -- A phase that keeps the locks of others leaves them so when it releases its own.
  release-IsLocked :
      (s t : UpSpaSystem P) (uid : Bytes)
      → IsLocked s
      → Keeps uid (record s { active_operations = add_member s.active_operations uid }) t
      → IsLocked (release_if_resolved P t uid)
  unfolding release_if_resolved release_operation
  release-IsLocked s t uid l k j h = ground (arith, l j, k.active j, k.pending j)

  pub locked-IsLocked :
      {A : Type 0} (s : UpSpaSystem P) (uid : Bytes) (inner : UpSpaSystem P → Outcome P A)
      → ((held : UpSpaSystem P) → Keeps uid held ((inner held).1))
      → IsLocked s
      → IsLocked ((locked P s uid inner).1)
  unfolding locked
  locked-IsLocked s uid inner keeps l = elim (Bool-cases (s.active_operations uid)) [
    | inl busy ↦ rw busy l
    | inr free ↦
        let held = record s { active_operations = add_member s.active_operations uid } in
        rw free (release-IsLocked s ((inner held).1) uid l (keeps held))
  ]

  pub locked_refused :
      {A : Type 0} (s : UpSpaSystem P) (uid : Bytes) (inner : UpSpaSystem P → Outcome P A)
      → s.active_operations uid ≡ true
      → locked P s uid inner ≡ (err operation_in_progress, s)
  unfolding locked
  locked_refused s uid inner busy = rw busy refl

  pub locked_free :
      {A : Type 0} (s : UpSpaSystem P) (uid : Bytes) (inner : UpSpaSystem P → Outcome P A)
      → s.active_operations uid ≡ false
      → locked P s uid inner ≡ (
          let out = inner (record s { active_operations = add_member s.active_operations uid }) in
          (out.0, release_if_resolved P (out.1) uid))
  unfolding locked
  locked_free s uid inner free = rw (free, locked) refl

  pub and_then-Keeps :
      {A B : Type 0} (uid : Bytes) (s : UpSpaSystem P) (out : Outcome P A)
      (f : A → UpSpaSystem P → Outcome P B)
      → Keeps uid s (out.1)
      → ((a : A) (t : UpSpaSystem P) → Keeps uid t ((f a t).1))
      → Keeps uid s ((and_then out f).1)
  and_then-Keeps uid s (ok a, t) f h k = Keeps-trans uid s t ((f a t).1) h (k a t)
  and_then-Keeps uid s (err e, t) f h k = h

  retained-IsLocked :
      (s t : UpSpaSystem P) (uid : Bytes)
      → IsLocked s
      → s.active_operations uid ≡ true
      → Keeps uid (record s { pending_finalizations = remove s.pending_finalizations uid }) t
      → IsLocked (release_if_resolved P t uid)
  unfolding release_if_resolved release_operation
  retained-IsLocked s t uid l a k j h = ground (arith, l j, k.active j, k.pending j)

  pub retry-IsLocked :
      (s : UpSpaSystem P) (uid : Bytes) → IsLocked s → IsLocked ((retry_finalization P s uid).1)
  unfolding retry_finalization
  retry-IsLocked s uid l = elim (Option-cases (s.pending_finalizations uid)) [
    | inl e ↦ rw (e, retry_finalization) l
    | inr (pending, e) ↦
        let removed = record s { pending_finalizations = remove s.pending_finalizations uid } in
        rw (e, retry_finalization)
          (retained-IsLocked s ((run_finalization P removed uid pending).1) uid l
            (l uid (rw e refl)) (run_finalization-Keeps removed uid pending))
  ]
