-- ===== src/UpSpa/System/Locking/Phases.antt =====
-- crates/upspa/src/protocols/system.rs: what each phase may change of the locks and of the
-- retained finalizations, and what reading leaves.
use threshold_password_authe.Base.{
  Bytes, bytes_eq, ◌≡◌, refl, ◌∙◌, List, [], ok, err, arith, ◌>>=◌, and_then, Bool-cases,
  Result-cases, inl, inr,
}
use threshold_password_authe.Primitives.{Primitives}
use threshold_password_authe.UpSpa.Messages.Trace.{ProtocolTrace}
use threshold_password_authe.UpSpa.System.Types.{
  UpSpaSystem, PendingFinalization, Outcome, IdentificationRequirement, IdentifiedState, finish,
  fail_with_trace, all_providers,
}
use threshold_password_authe.UpSpa.System.Setup.{SetupDraws, setup_inner}
use threshold_password_authe.UpSpa.System.Identification.{
  identify_into_trace, identify, identification_trace,
}
use threshold_password_authe.UpSpa.System.Accounts.{
  AccountDraws, registration_inner, secret_update_inner, finalize, plan_registration, plan_update,
  read_all,
}
use threshold_password_authe.UpSpa.System.Authentication.{
  authentication, authenticate_with, candidates, log_in,
}
use threshold_password_authe.UpSpa.System.Entries.{Entry, newest_entry}
use threshold_password_authe.UpSpa.System.Passwords.{
  PasswordDraws, password_update_inner, plan_password,
}
use threshold_password_authe.UpSpa.System.Locking.{
  Keeps, Keeps-refl, and_then-Keeps, prepared-Keeps,
}
use threshold_password_authe.UpSpa.System.Locking.Identification.{
  SameButTrace, identify_into_trace-SameButTrace, SameButTrace-Keeps,
}

module _ (P : Primitives) where
  pub setup_inner-Keeps :
      (s : UpSpaSystem P) (uid password : Bytes) (d : SetupDraws P)
      → Keeps P uid s ((setup_inner P s uid password d).1)
  unfolding setup_inner finish
  setup_inner-Keeps s uid password d = record {
    active = λ j. ground arith;
    pending = λ j n. ground arith;
  }

  -- A phase that identifies the user first.
  identified-Keeps :
      {B : Type 0} (s : UpSpaSystem P) (uid password : Bytes)
      (requirement : IdentificationRequirement) (r : P.Scalar)
      (f : IdentifiedState P → UpSpaSystem P → Outcome P B)
      → ((state : IdentifiedState P) (t : UpSpaSystem P) → Keeps P uid t ((f state t).1))
      → Keeps P uid s ((and_then (identify_into_trace P s uid password requirement [] 1 r) f).1)
  identified-Keeps s uid password requirement r f k =
      and_then-Keeps P uid s (identify_into_trace P s uid password requirement [] 1 r) f
        (SameButTrace-Keeps P uid s _
          (identify_into_trace-SameButTrace P s uid password requirement [] 1 r))
        k

  planned-Keeps :
      (s : UpSpaSystem P) (planned : UpSpaSystem P × PendingFinalization P) (uid : Bytes)
      → ((j : Bytes) → planned.0.active_operations j ≡ s.active_operations j)
      → ((j : Bytes) → planned.0.pending_finalizations j ≡ s.pending_finalizations j)
      → Keeps P uid s ((finalize P planned uid).1)
  unfolding finalize
  planned-Keeps s planned uid a p = prepared-Keeps P s (planned.0) uid (planned.1) a p

  pub registration_inner-Keeps :
      (s : UpSpaSystem P) (uid password lsj : Bytes) (d : AccountDraws P)
      → Keeps P uid s ((registration_inner P s uid password lsj d).1)
  unfolding registration_inner plan_registration
  registration_inner-Keeps s uid password lsj d =
      identified-Keeps s uid password all_providers d.blinding
        (λ state t. finalize P (plan_registration P t uid lsj d state _) uid)
        (λ state t.
          planned-Keeps t (plan_registration P t uid lsj d state _) uid (λ j. refl) (λ j. refl))

  pub secret_update_inner-Keeps :
      (s : UpSpaSystem P) (uid password lsj : Bytes) (d : AccountDraws P)
      → Keeps P uid s ((secret_update_inner P s uid password lsj d).1)
  unfolding secret_update_inner plan_update
  secret_update_inner-Keeps s uid password lsj d =
      identified-Keeps s uid password all_providers d.blinding _ (λ state t.
        elim (Result-cases (
          read_all P t.providers uid lsj state 0 t.nsp >>= λ entries. newest_entry entries t.nsp)) [
            | inl (found, e) ↦ rw e (
                planned-Keeps t (plan_update P t uid lsj d state _ (found.0) (found.1)) uid
                  (λ j. refl) (λ j. refl))
            | inr (error, e) ↦ rw e (Keeps-refl P uid t)
          ])

  pub password_update_inner-Keeps :
      (s : UpSpaSystem P) (uid old_password new_password : Bytes) (d : PasswordDraws P)
      → Keeps P uid s ((password_update_inner P s uid old_password new_password d).1)
  unfolding password_update_inner plan_password
  password_update_inner-Keeps s uid old_password new_password d =
      identified-Keeps s uid old_password all_providers d.blinding
        (λ state t. finalize P (plan_password P t uid new_password d state _) uid)
        (λ state t.
          planned-Keeps t (plan_password P t uid new_password d state _) uid (λ j. refl)
            (λ j. refl))

  authenticate_with-SameButTrace :
      (s : UpSpaSystem P) (uid lsj : Bytes) (trace : ProtocolTrace) (entries : List Entry)
      → SameButTrace P s ((authenticate_with P s uid lsj trace entries).1)
  unfolding authenticate_with fail_with_trace log_in
  authenticate_with-SameButTrace s uid lsj trace entries = ground arith

  SameButTrace-trans :
      (s t u : UpSpaSystem P) → SameButTrace P s t → SameButTrace P t u → SameButTrace P s u
  SameButTrace-trans s t u h k = (λ i. record (h i) { last_trace = u.last_trace }) ∙ k

  and_then-SameButTrace :
      {A B : Type 0} (s : UpSpaSystem P) (out : Outcome P A) (f : A → UpSpaSystem P → Outcome P B)
      → SameButTrace P s (out.1)
      → ((a : A) (t : UpSpaSystem P) → SameButTrace P t ((f a t).1))
      → SameButTrace P s ((and_then out f).1)
  and_then-SameButTrace s (ok a, t) f h k = SameButTrace-trans s t ((f a t).1) h (k a t)
  and_then-SameButTrace s (err e, t) f h k = h

  pub authentication_same :
      (s : UpSpaSystem P) (uid password lsj : Bytes) (r : P.Scalar)
      → SameButTrace P s ((authentication P s uid password lsj r).1)
  unfolding authentication
  authentication_same s uid password lsj r = elim (Bool-cases (s.active_operations uid)) [
    | inl busy ↦ rw (busy, authentication) refl
    | inr free ↦
        rw (free, authentication)
          (and_then-SameButTrace s
            (identify_into_trace P s uid password IdentificationRequirement.threshold [] 1 r) _
            (identify_into_trace-SameButTrace P s uid password IdentificationRequirement.threshold
              [] 1 r)
            (λ state t.
              authenticate_with-SameButTrace t uid lsj _ (candidates P t.providers uid lsj state)))
  ]

  pub identify_same :
      (s : UpSpaSystem P) (uid password : Bytes) (requirement : IdentificationRequirement)
      (r : P.Scalar)
      → SameButTrace P s ((identify P s uid password requirement r).1)
  unfolding identify
  identify_same s uid password requirement r =
      let same = identify_into_trace-SameButTrace P s uid password requirement [] 1 r in
      elim (Bool-cases (s.active_operations uid)) [
        | inl busy ↦ rw (busy, identify) refl
        | inr free ↦
            elim (Result-cases ((identify_into_trace P s uid password requirement [] 1 r).0)) [
              | inr (e, h) ↦ rw (free, h, identify) same
              | inl (state, h) ↦
                  rw (free, h, identify)
                    (λ i. record (same i) {
                      last_trace = identification_trace P s uid requirement [] 1;
                    })
            ]
      ]
