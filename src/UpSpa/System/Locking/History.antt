-- ===== src/UpSpa/System/Locking/History.antt =====
-- crates/upspa/src/protocols/system.rs: what any sequence of calls of the client keeps, while other
-- code may change its providers and its login server between the calls.
use threshold_password_authe.Base.{
  ℕ, Bytes, bytes_eq, ◌≡◌, refl, List, [], ◌∷◌, true, contains_key, ok, err, arith,
}
use mathlib.Core.Path.{subst}
use threshold_password_authe.Primitives.{Primitives}
use threshold_password_authe.UpSpa.LoginServer.{LoginServer}
use threshold_password_authe.UpSpa.Provider.Records.{UpSpaProvider}
use threshold_password_authe.UpSpa.System.Types.{
  UpSpaSystem, IdentificationRequirement, operation_in_progress, with_seed_and_clock,
}
use threshold_password_authe.UpSpa.System.Setup.{SetupDraws, setup_inner, setup}
use threshold_password_authe.UpSpa.System.Identification.{identify}
use threshold_password_authe.UpSpa.System.Finalization.{retry_finalization}
use threshold_password_authe.UpSpa.System.Accounts.{
  AccountDraws, registration_inner, registration, secret_update_inner, secret_update,
}
use threshold_password_authe.UpSpa.System.Authentication.{authentication}
use threshold_password_authe.UpSpa.System.Passwords.{
  PasswordDraws, password_update_inner, update_password,
}
use threshold_password_authe.UpSpa.System.Locking.{
  IsLocked, locked-IsLocked, locked_refused, retry-IsLocked,
}
use threshold_password_authe.UpSpa.System.Locking.Identification.{SameButTrace}
use threshold_password_authe.UpSpa.System.Locking.Phases.{
  setup_inner-Keeps, registration_inner-Keeps, secret_update_inner-Keeps,
  password_update_inner-Keeps, authentication_same, identify_same,
}

module _ (P : Primitives) where
  -- A call of the client, or a change of its public parts between calls.
  pub data Call : Type 0 where
    sets_up : Bytes → Bytes → SetupDraws P → Call
    registers : Bytes → Bytes → Bytes → AccountDraws P → Call
    updates_secret : Bytes → Bytes → Bytes → AccountDraws P → Call
    updates_password : Bytes → Bytes → Bytes → PasswordDraws P → Call
    retries : Bytes → Call
    identifies : Bytes → Bytes → IdentificationRequirement → P.Scalar → Call
    authenticates : Bytes → Bytes → Bytes → P.Scalar → Call
    environment : List (UpSpaProvider P) → LoginServer → Call

  unfoldable pub step : UpSpaSystem P → Call → UpSpaSystem P
  step s (sets_up uid password d) = (setup P s uid password d).1
  step s (registers uid password lsj d) = (registration P s uid password lsj d).1
  step s (updates_secret uid password lsj d) = (secret_update P s uid password lsj d).1
  step s (updates_password uid old_password new_password d) =
      (update_password P s uid old_password new_password d).1
  step s (retries uid) = (retry_finalization P s uid).1
  step s (identifies uid password requirement r) = (identify P s uid password requirement r).1
  step s (authenticates uid password lsj r) = (authentication P s uid password lsj r).1
  step s (environment ps server) = record s { providers = ps; login_server = server }

  unfoldable pub run : UpSpaSystem P → List Call → UpSpaSystem P
  unfolding step
  run s [] = s
  run s (c ∷ cs) = run (step s c) cs

  Same-IsLocked : (s t : UpSpaSystem P) → SameButTrace P s t → IsLocked P s → IsLocked P t
  Same-IsLocked s t same l = subst (IsLocked P) same l

  pub step-IsLocked : (s : UpSpaSystem P) (c : Call) → IsLocked P s → IsLocked P (step s c)
  unfolding step setup registration secret_update update_password
  step-IsLocked s (sets_up uid password d) l =
      locked-IsLocked P s uid (λ held. setup_inner P held uid password d)
        (λ held. setup_inner-Keeps P held uid password d) l
  step-IsLocked s (registers uid password lsj d) l =
      locked-IsLocked P s uid (λ held. registration_inner P held uid password lsj d)
        (λ held. registration_inner-Keeps P held uid password lsj d) l
  step-IsLocked s (updates_secret uid password lsj d) l =
      locked-IsLocked P s uid (λ held. secret_update_inner P held uid password lsj d)
        (λ held. secret_update_inner-Keeps P held uid password lsj d) l
  step-IsLocked s (updates_password uid old_password new_password d) l =
      locked-IsLocked P s uid (λ held. password_update_inner P held uid old_password new_password d)
        (λ held. password_update_inner-Keeps P held uid old_password new_password d) l
  step-IsLocked s (retries uid) l = retry-IsLocked P s uid l
  step-IsLocked s (identifies uid password requirement r) l =
      Same-IsLocked s ((identify P s uid password requirement r).1)
        (identify_same P s uid password requirement r) l
  step-IsLocked s (authenticates uid password lsj r) l =
      Same-IsLocked s ((authentication P s uid password lsj r).1)
        (authentication_same P s uid password lsj r) l
  step-IsLocked s (environment ps server) l = l

  -- In UpSPA's client, let every user with a retained finalization be locked. The same holds after
  -- any calls in any order, whether they fail or not, while other code changes the providers and
  -- the login server between them.
  pub run-IsLocked : (s : UpSpaSystem P) (cs : List Call) → IsLocked P s → IsLocked P (run s cs)
  unfolding run
  run-IsLocked s [] l = l
  run-IsLocked s (c ∷ cs) l = run-IsLocked (step s c) cs (step-IsLocked s c l)

  pub with_seed_and_clock-IsLocked :
      (nsp tsp : ℕ) (s : UpSpaSystem P) → with_seed_and_clock P nsp tsp ≡ ok s → IsLocked P s
  unfolding with_seed_and_clock
  with_seed_and_clock-IsLocked nsp tsp s h uid k = ground arith

  -- In UpSPA's client, let every user with a retained finalization be locked. Then each phase of a
  -- user who has one, and its identification, is refused as an operation in progress, and changes
  -- nothing.
  pub retained_refused :
      (s : UpSpaSystem P) (uid password other lsj : Bytes) (requirement : IdentificationRequirement)
      (r : P.Scalar) (sd : SetupDraws P) (ad : AccountDraws P) (pd : PasswordDraws P)
      → IsLocked P s
      → contains_key s.pending_finalizations uid ≡ true
      → (setup P s uid password sd ≡ (err operation_in_progress, s))
        × (registration P s uid password lsj ad ≡ (err operation_in_progress, s))
        × (secret_update P s uid password lsj ad ≡ (err operation_in_progress, s))
        × (update_password P s uid password other pd ≡ (err operation_in_progress, s))
        × (identify P s uid password requirement r ≡ (err operation_in_progress, s))
        × (authentication P s uid password lsj r ≡ (err operation_in_progress, s))
  unfolding setup registration secret_update update_password identify authentication
  retained_refused s uid password other lsj requirement r sd ad pd l h =
      let busy = l uid h in
      (
        locked_refused P s uid (λ held. setup_inner P held uid password sd) busy,
        locked_refused P s uid (λ held. registration_inner P held uid password lsj ad) busy,
        locked_refused P s uid (λ held. secret_update_inner P held uid password lsj ad) busy,
        locked_refused P s uid (λ held. password_update_inner P held uid password other pd) busy,
        rw (busy, identify) refl,
        rw (busy, authentication) refl,
      )
