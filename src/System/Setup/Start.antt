-- ===== src/System/Setup/Start.antt =====
-- roupspa.rs: a new client, and its first set-up.
use threshold_password_authe.Base.{
  ℕ, zero, suc, ◌+◌, ◌≤◌, ◌<◌, ◌≡◌, refl, ap, sym, ◌∙◌, Map, Bytes, bytes_eq, ok, contains_key,
  false, not, ◌||◌, length, any, none, arith, inl, inr, Result-cases,
}
use mathlib.Core.Path.{subst}
use threshold_password_authe.Primitives.{Primitives}
use threshold_password_authe.LoginServer.Consistency.{IsConsistent, new-IsConsistent}
use threshold_password_authe.Provider.{AccountFamilyKey}
use threshold_password_authe.Thresholds.{validate_thresholds}
use threshold_password_authe.System.Types.{
  PhaseResult, completed, aborted, AccountOperationContext, RoUpSpaSystem,
}
use threshold_password_authe.System.Setup.{
  SetupDraws, setup_refusal, setup_with_rng, new_providers, new_client, with_identity,
}
use threshold_password_authe.System.Setup.Completion.{IsCompleted, setup_ready-IsCompleted}
use threshold_password_authe.System.Writes.Counting.{Numbered}
use threshold_password_authe.System.Account.Invariant.{AccountsSound, OperationSound}

module _ (P : Primitives) where
  length-new_providers : (n id : ℕ) → length (new_providers P n id) ≡ n
  unfolding new_providers
  length-new_providers zero id = refl
  length-new_providers (suc n) id = ap suc (length-new_providers n (id + 1))

  new_providers-Numbered : (n id : ℕ) → id + n ≤ 4294967296 → Numbered P id (new_providers P n id)
  unfolding new_providers
  new_providers-Numbered zero id h = tt
  new_providers-Numbered (suc n) id h =
      (omega arith, new_providers-Numbered n (id + 1) (omega arith))

  new_providers_blank :
      (uid : Bytes) (n id : ℕ)
      → (any
            (λ p. contains_key p.identifications uid || contains_key p.shares uid)
            (new_providers P n id)
          ≡ false)
        × (any (λ p. not p.reachable) (new_providers P n id) ≡ false)
  unfolding new_providers
  new_providers_blank uid zero id = (refl, refl)
  new_providers_blank uid (suc n) id = new_providers_blank uid n (id + 1)

  with_identity-nsp :
      (nsp tsp qsp : ℕ) (uid lsj password new_password seed : Bytes) (s : RoUpSpaSystem P)
      → with_identity P nsp tsp qsp uid lsj password new_password seed ≡ ok s
      → nsp ≡ s.nsp
  unfolding with_identity
  with_identity-nsp nsp tsp qsp uid lsj password new_password seed s h = ground arith

  -- A client that can be set up, with the invariants that its phases keep.
  pub record IsNew (s : RoUpSpaSystem P) : Type 0 where
    pub size : length s.providers ≡ s.nsp
    pub validated : validate_thresholds s.nsp s.tsp s.qsp ≡ ok tt
    pub sound : AccountsSound P s
    pub consistent : IsConsistent s.login_server
    pub ready : setup_refusal P s ≡ none

  -- Whenever a client is created, for fewer than 2^32 providers, it has `nsp` providers numbered
  -- from one, valid thresholds, sound operations, a consistent login server, and can be set up.
  pub with_identity-IsNew :
      (nsp tsp qsp : ℕ) (uid lsj password new_password seed : Bytes) (s : RoUpSpaSystem P)
      → nsp < 4294967296
      → with_identity P nsp tsp qsp uid lsj password new_password seed ≡ ok s
      → IsNew s
  unfolding with_identity setup_refusal
  with_identity-IsNew nsp tsp qsp uid lsj password new_password seed s small h =
      elim (Result-cases (validate_thresholds nsp tsp qsp)) [
        | inr (e, bad) ↦ absurd (ground (arith, bad))
        | inl (u, good) ↦
            subst IsNew {x = new_client P nsp tsp qsp uid lsj password new_password seed}
              (ground (arith, good))
              (record {
                size = length-new_providers nsp 1;
                validated = good;
                sound = record {
                  numbered = new_providers-Numbered nsp 1 (omega arith);
                  operations = λ key. tt;
                };
                consistent = new-IsConsistent;
                ready =
                    rw ((new_providers_blank uid nsp 1).0, (new_providers_blank uid nsp 1).1) refl;
              })
      ]

  -- Let a client be created for fewer than 2^32 providers. Then its first set-up completes at all
  -- of them, and each is enrolled.
  pub first_setup-IsCompleted :
      (nsp tsp qsp : ℕ) (uid lsj password new_password seed : Bytes) (s : RoUpSpaSystem P)
      (d : SetupDraws P)
      → nsp < 4294967296
      → with_identity P nsp tsp qsp uid lsj password new_password seed ≡ ok s
      → IsCompleted P s d (setup_with_rng P s d)
  first_setup-IsCompleted nsp tsp qsp uid lsj password new_password seed s d small h =
      let fresh = with_identity-IsNew nsp tsp qsp uid lsj password new_password seed s small h in
      setup_ready-IsCompleted P s d fresh.size
        (subst (λ n. n < 4294967296)
          (with_identity-nsp nsp tsp qsp uid lsj password new_password seed s h) small)
        fresh.sound.numbered fresh.ready

  IsCompleted-sound :
      (s : RoUpSpaSystem P) (d : SetupDraws P) (out : PhaseResult × RoUpSpaSystem P)
      → ((key : AccountFamilyKey) → s.account_operations key ≡ none)
      → IsConsistent s.login_server
      → IsCompleted P s d out
      → AccountsSound P out.1 × IsConsistent out.1.login_server
  IsCompleted-sound s d (completed n digest decision trace, t) idle consistent (size, done) = (
    record {
      numbered = done.numbered;
      operations = λ key.
          subst (OperationSound P t.qsp t.providers key)
            (sym (
              ap (λ (m : Map AccountFamilyKey (AccountOperationContext P)). m key) done.operations
              ∙ idle key))
            tt;
    },
    subst IsConsistent (sym done.server) consistent,
  )
  IsCompleted-sound s d (aborted error trace, t) idle consistent h = absurd h
  IsCompleted-sound s d (PhaseResult.ready_for_terminal_store n q digest trace, t) idle consistent
        h =
      absurd h
  IsCompleted-sound s d (PhaseResult.unresolved n q digest trace, t) idle consistent h = absurd h

  with_identity_idle :
      (nsp tsp qsp : ℕ) (uid lsj password new_password seed : Bytes) (s : RoUpSpaSystem P)
      (key : AccountFamilyKey)
      → with_identity P nsp tsp qsp uid lsj password new_password seed ≡ ok s
      → s.account_operations key ≡ none
  unfolding with_identity
  with_identity_idle nsp tsp qsp uid lsj password new_password seed s key h = ground arith

  -- Let a client be created for fewer than 2^32 providers. Then after its first set-up its operations
  -- in flight are sound and the login server is consistent, as its later phases want them.
  pub first_setup_sound :
      (nsp tsp qsp : ℕ) (uid lsj password new_password seed : Bytes) (s : RoUpSpaSystem P)
      (d : SetupDraws P)
      → nsp < 4294967296
      → with_identity P nsp tsp qsp uid lsj password new_password seed ≡ ok s
      → AccountsSound P (setup_with_rng P s d).1
        × IsConsistent (setup_with_rng P s d).1.login_server
  first_setup_sound nsp tsp qsp uid lsj password new_password seed s d small h =
      IsCompleted-sound s d (setup_with_rng P s d)
        (λ key. with_identity_idle nsp tsp qsp uid lsj password new_password seed s key h)
        (with_identity-IsNew nsp tsp qsp uid lsj password new_password seed s small h).consistent
        (first_setup-IsCompleted nsp tsp qsp uid lsj password new_password seed s d small h)
