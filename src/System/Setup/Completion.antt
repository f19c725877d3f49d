-- ===== src/System/Setup/Completion.antt =====
-- roupspa.rs: a set-up happens at every provider or at none.
use threshold_password_authe.Base.{
  ℕ, ◌<◌, ◌≡◌, refl, ◌⊎◌, inl, inr, Bytes, bytes_eq, Map, contains_key, Bool, true, false, not,
  ◌||◌, List, [], ◌∷◌, length, any, All, Option, none, some, arith, Option-cases,
}
use mathlib.Core.Path.{subst}
use threshold_password_authe.Primitives.{Primitives}
use threshold_password_authe.Crypto.{toprf_gen, shares_from}
use threshold_password_authe.Messages.Trace.{ProtocolTrace}
use threshold_password_authe.Provider.{RoUpSpaProvider, ProviderError}
use threshold_password_authe.Thresholds.Errors.{
  PhaseError, duplicate_setup, setup_requires_all_providers,
}
use threshold_password_authe.System.Types.{PhaseResult, completed, aborted, RoUpSpaSystem}
use threshold_password_authe.System.Setup.{
  SetupDraws, setup_record, install_all, finish_setup, run_setup, setup_refusal, setup_with_rng,
}
use threshold_password_authe.System.Setup.Install.{
  IsFresh, IsEnrolled, Installed, install_all-Installed,
}
use threshold_password_authe.System.Writes.Counting.{Numbered}

any_none : {A : Type 0} (p : A → Bool) (xs : List A) → any p xs ≡ false → All (λ x. p x ≡ false) xs
any_none p [] h = tt
any_none p (x ∷ xs) h = (ground arith, any_none p xs (ground arith))

module _ (P : Primitives) (s : RoUpSpaSystem P) (d : SetupDraws P) where
  -- Every provider of the client after a set-up is enrolled with one root record and key.
  pub record IsSetUp (t : RoUpSpaSystem P) : Type 0 where
    pub initialized : t.initialized ≡ true
    pub numbered : Numbered P 1 t.providers
    pub server : t.login_server ≡ s.login_server
    pub operations : t.account_operations ≡ s.account_operations
    pub root_operations : t.identification_operations ≡ s.identification_operations
    pub uid : t.uid ≡ s.uid
    pub lsj : t.lsj ≡ s.lsj
    pub password : t.password ≡ s.password
    pub tsp : t.tsp ≡ s.tsp
    pub qsp : t.qsp ≡ s.qsp
    pub size : length t.providers ≡ length s.providers
    pub enrolled :
        All
          (IsEnrolled P s.uid
            (P.verifying_key d.ssk)
            (setup_record P s d)
            (d.a0 ∷ d.coeffs)
            t.toprf_share_commitments)
          t.providers

  -- The phase is completed at all providers.
  abbrev pub IsCompleted : PhaseResult × RoUpSpaSystem P → Type 0
  IsCompleted (completed n digest decision trace, t) = (n ≡ s.nsp) × IsSetUp t
  IsCompleted (aborted error trace, t) = ⊥
  IsCompleted (PhaseResult.ready_for_terminal_store n required digest trace, t) = ⊥
  IsCompleted (PhaseResult.unresolved n required digest trace, t) = ⊥

  -- A set-up is refused before anything is written, or it is completed everywhere.
  abbrev pub AllOrNone : PhaseResult × RoUpSpaSystem P → Type 0
  AllOrNone (aborted error trace, t) =
      ((error ≡ duplicate_setup) ⊎ (error ≡ setup_requires_all_providers))
      × (t ≡ record s { last_trace = trace })
  AllOrNone (completed n digest decision trace, t) = (n ≡ s.nsp) × IsSetUp t
  AllOrNone (PhaseResult.ready_for_terminal_store n required digest trace, t) = ⊥
  AllOrNone (PhaseResult.unresolved n required digest trace, t) = ⊥

  IsCompleted-AllOrNone : (out : PhaseResult × RoUpSpaSystem P) → IsCompleted out → AllOrNone out
  IsCompleted-AllOrNone (completed n digest decision trace, t) h = h
  IsCompleted-AllOrNone (aborted error trace, t) h = absurd h
  IsCompleted-AllOrNone (PhaseResult.ready_for_terminal_store n q digest trace, t) h = h
  IsCompleted-AllOrNone (PhaseResult.unresolved n required digest trace, t) h = h

  all-IsFresh :
      (ps : List (RoUpSpaProvider P))
      → All (λ p. (contains_key p.identifications s.uid || contains_key p.shares s.uid) ≡ false) ps
      → All (λ p. not p.reachable ≡ false) ps
      → All (IsFresh P s.uid (P.verifying_key d.ssk) (setup_record P s d) (d.a0 ∷ d.coeffs)) ps
  all-IsFresh [] h k = tt
  all-IsFresh (p ∷ ps) h k = ((ground arith, h.0), all-IsFresh ps h.1 k.1)

  finish_setup-IsCompleted :
      (trace : ProtocolTrace) (key : P.Scalar)
      (out : Option ProviderError × List (RoUpSpaProvider P) × Map ℕ Bytes)
      → Installed P s.uid
          (P.verifying_key d.ssk)
          (setup_record P s d)
          (d.a0 ∷ d.coeffs)
          (length s.providers)
          1
          s.toprf_share_commitments
          out
      → IsCompleted (finish_setup P s trace key (setup_record P s d) out)
  unfolding finish_setup
  finish_setup-IsCompleted trace key (some e, ps, commitments) w = absurd (cc (w.succeeds))
  finish_setup-IsCompleted trace key (none, ps, commitments) w = (
    refl,
    record {
      initialized = refl;
      numbered = w.numbered;
      server = refl;
      operations = refl;
      root_operations = refl;
      uid = refl;
      lsj = refl;
      password = refl;
      tsp = refl;
      qsp = refl;
      size = w.size;
      enrolled = w.everywhere;
    },
  )

  run_setup-IsCompleted :
      (trace : ProtocolTrace)
      → length s.providers ≡ s.nsp
      → s.nsp < 4294967296
      → Numbered P 1 s.providers
      → All
          (IsFresh P s.uid (P.verifying_key d.ssk) (setup_record P s d) (d.a0 ∷ d.coeffs))
          s.providers
      → IsCompleted (run_setup P s d trace)
  unfolding run_setup toprf_gen
  run_setup-IsCompleted trace size small numbered ready =
      let fresh = setup_record P s d in
      subst
        (λ n. IsCompleted (
          finish_setup P s trace d.a0 fresh (
            install_all P s.uid (P.verifying_key d.ssk) fresh (shares_from P (d.a0 ∷ d.coeffs) n 1)
              s.providers s.toprf_share_commitments)))
        size
        (finish_setup-IsCompleted trace d.a0 _ (
          install_all-Installed P s.uid (P.verifying_key d.ssk) fresh (d.a0 ∷ d.coeffs)
            (unfold setup_record in refl) (unfold setup_record in refl) 1 s.providers
            s.toprf_share_commitments (omega arith) numbered ready))

  setup_refusal-some :
      (e : PhaseError)
      → setup_refusal P s ≡ some e
      → (e ≡ duplicate_setup) ⊎ (e ≡ setup_requires_all_providers)
  unfolding setup_refusal
  setup_refusal-some e h = ground arith

  setup_refusal-none :
      setup_refusal P s ≡ none
      → All
          (IsFresh P s.uid (P.verifying_key d.ssk) (setup_record P s d) (d.a0 ∷ d.coeffs))
          s.providers
  unfolding setup_refusal
  setup_refusal-none h =
      all-IsFresh s.providers
        (any_none (λ p. contains_key p.identifications s.uid || contains_key p.shares s.uid)
          s.providers (ground arith))
        (any_none (λ p. not p.reachable) s.providers (ground arith))

  pub setup_ready-IsCompleted :
      length s.providers ≡ s.nsp
      → s.nsp < 4294967296
      → Numbered P 1 s.providers
      → setup_refusal P s ≡ none
      → IsCompleted (setup_with_rng P s d)
  unfolding setup_with_rng
  setup_ready-IsCompleted size small numbered none_found =
      rw (none_found, setup_with_rng)
        (run_setup-IsCompleted _ size small numbered (setup_refusal-none none_found))

  -- Let the client have `nsp` providers, fewer than 2^32, numbered from one. Then a set-up either
  -- is refused, as a duplicate or for an unreachable provider, and changes nothing but the last
  -- trace; or it completes at all `nsp` providers, and each keeps the same root record as its
  -- active one and a share that the client has committed to.
  pub setup-AllOrNone :
      length s.providers ≡ s.nsp
      → s.nsp < 4294967296
      → Numbered P 1 s.providers
      → AllOrNone (setup_with_rng P s d)
  unfolding setup_with_rng
  setup-AllOrNone size small numbered = elim (Option-cases (setup_refusal P s)) [
    | inl none_found ↦
        IsCompleted-AllOrNone _ (setup_ready-IsCompleted size small numbered none_found)
    | inr (e, found) ↦ rw (found, setup_with_rng) (setup_refusal-some e found, refl)
  ]
