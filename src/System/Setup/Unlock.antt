-- ===== src/System/Setup/Unlock.antt =====
-- roupspa.rs: after a completed set-up the client's password gives back what was drawn.
use threshold_password_authe.Base.{
  ℕ, ◌≤◌, ◌<◌, ◌≡◌, ◌≢◌, refl, sym, ◌∙◌, Bytes, bytes_eq, Map, ok, true, List, [], ◌∷◌, map, length,
  keep, All, none, arith,
}
use mathlib.Core.Path.{subst}
use threshold_password_authe.Primitives.{Primitives, IsField, IsAction, IsLawful}
use threshold_password_authe.Crypto.Weights.{AreDistinct}
use threshold_password_authe.Messages.Trace.{ProtocolTrace, ProtocolStage}
use threshold_password_authe.Provider.{RoUpSpaProvider, SignedIdentificationRecord}
use threshold_password_authe.System.Types.{
  RoUpSpaSystem, RecoveredIdentification, PhaseResult, completed, aborted, cipherid_aad, idle,
}
use threshold_password_authe.System.Reads.{
  common_identification, root_operation_state, contacted, validate_identification_record,
}
use threshold_password_authe.System.Reads.Identification.{IsRooted, Seals}
use threshold_password_authe.System.Reads.Unlock.{common_identification-Seals}
use threshold_password_authe.System.Setup.{SetupDraws, setup_record, setup_with_rng, with_identity}
use threshold_password_authe.Thresholds.{validate_thresholds}
use threshold_password_authe.System.Setup.Install.{IsEnrolled}
use threshold_password_authe.System.Setup.Completion.{IsSetUp, IsCompleted}
use threshold_password_authe.System.Setup.Start.{with_identity-IsNew, first_setup-IsCompleted}

module _ (P : Primitives) where
  enrolled-IsRooted :
      (uid : Bytes) (svk : P.VerifyingKey) (r : SignedIdentificationRecord P)
      (coeffs : List P.Scalar) (commitments : Map ℕ Bytes) (ps : List (RoUpSpaProvider P))
      → All (IsEnrolled P uid svk r coeffs commitments) ps
      → All (IsRooted P uid svk r coeffs commitments) ps
  enrolled-IsRooted uid svk r coeffs commitments [] h = tt
  enrolled-IsRooted uid svk r coeffs commitments (p ∷ ps)
        ((share, held, origin, known, root, up), h) =
      (
        (share, _, held, origin, known, root, refl, refl, refl),
        enrolled-IsRooted uid svk r coeffs commitments ps h,
      )

  keep_enrolled :
      (uid : Bytes) (svk : P.VerifyingKey) (r : SignedIdentificationRecord P)
      (coeffs : List P.Scalar) (commitments : Map ℕ Bytes) (ps : List (RoUpSpaProvider P))
      → All (IsEnrolled P uid svk r coeffs commitments) ps
      → keep (λ p. p.reachable) ps ≡ ps
  keep_enrolled uid svk r coeffs commitments [] h = refl
  keep_enrolled uid svk r coeffs commitments (p ∷ ps) ((share, held, origin, known, root, up), h) =
      ground (arith, keep_enrolled uid svk r coeffs commitments ps h)

module _ (P : Primitives) (laws : IsLawful P) (field : IsField P) (action : IsAction P)
    (s : RoUpSpaSystem P) (d : SetupDraws P) where
  -- What the set-up sealed.
  abbrev pub drawn : RecoveredIdentification P
  drawn = record { ssk = d.ssk; svk = P.verifying_key d.ssk; rsp = d.rsp; k0 = d.k0; ctrid = 0 }

  pub setup_record-Seals :
      (t : RoUpSpaSystem P)
      → t.uid ≡ s.uid
      → length d.rsp ≡ 32
      → length d.k0 ≡ 32
      → Seals P laws field action
          (P.verifying_key d.ssk)
          (setup_record P s d)
          (d.a0 ∷ d.coeffs)
          t
          s.password
          drawn
  unfolding setup_record cipherid_aad
  setup_record-Seals t same rsp_size k0_size = record {
    nonce = d.nonce;
    sealed = rw (same, cipherid_aad) refl;
    counter = refl;
    key = refl;
    signs = refl;
    rsp_size = rsp_size;
    k0_size = k0_size;
    counter_fits = omega arith;
  }

  setup_record_valid :
      validate_identification_record P s.uid (P.verifying_key d.ssk) (setup_record P s d) ≡ true
  unfolding setup_record validate_identification_record
  setup_record_valid = refl

  quiet_root :
      (t : RoUpSpaSystem P)
      → t.identification_operations t.uid ≡ none
      → root_operation_state P t ≡ idle
  unfolding root_operation_state
  quiet_root t e = rw (e, root_operation_state) refl

  IsSetUp-unlocks :
      (t : RoUpSpaSystem P) (stage : ProtocolStage) (trace : ProtocolTrace) (blind : P.Scalar)
      → IsSetUp P s d t
      → s.identification_operations s.uid ≡ none
      → AreDistinct P (map P.scalar_from (map (λ p. p.id) t.providers))
      → length d.coeffs < s.tsp
      → s.tsp ≤ length s.providers
      → blind ≢ P.scalar_zero
      → length d.rsp ≡ 32
      → length d.k0 ≡ 32
      → (after : ProtocolTrace) × (common_identification P t s.password stage trace blind
          ≡ ok (drawn, after))
  IsSetUp-unlocks t stage trace blind done quiet distinct small enough h rsp_size k0_size =
      let svk = P.verifying_key d.ssk in
      let r = setup_record P s d in
      let coeffs = d.a0 ∷ d.coeffs in
      let reached : contacted P t ≡ t.providers =
        keep_enrolled P s.uid svk r coeffs t.toprf_share_commitments t.providers done.enrolled in
      common_identification-Seals P laws field action svk r coeffs t s.password stage trace blind
        drawn done.initialized (quiet_root t ((λ i. done.root_operations i (done.uid i)) ∙ quiet))
        (subst (λ u. All (IsRooted P u svk r coeffs t.toprf_share_commitments) t.providers)
          (sym done.uid)
          (enrolled-IsRooted P s.uid svk r coeffs t.toprf_share_commitments t.providers
            done.enrolled))
        (subst (λ u. validate_identification_record P u svk r ≡ true) (sym done.uid)
          setup_record_valid)
        (subst (λ ps. AreDistinct P (map P.scalar_from (map (λ p. p.id) ps))) (sym reached)
          distinct)
        (omega (arith, done.tsp)) (omega (arith, done.tsp))
        (subst (λ ps. t.tsp ≤ length ps) (sym reached) (omega (arith, done.tsp, done.size))) h
        (setup_record-Seals t done.uid rsp_size k0_size)

  IsCompleted-IsSetUp :
      (out : PhaseResult × RoUpSpaSystem P) → IsCompleted P s d out → IsSetUp P s d out.1
  IsCompleted-IsSetUp (completed n digest decision trace, t) h = h.1
  IsCompleted-IsSetUp (aborted error trace, t) h = absurd h
  IsCompleted-IsSetUp (PhaseResult.ready_for_terminal_store n q digest trace, t) h = absurd h
  IsCompleted-IsSetUp (PhaseResult.unresolved n q digest trace, t) h = absurd h

  created_quiet :
      (nsp tsp qsp : ℕ) (uid lsj password new_password seed : Bytes)
      → with_identity P nsp tsp qsp uid lsj password new_password seed ≡ ok s
      → s.identification_operations s.uid ≡ none
  unfolding with_identity
  created_quiet nsp tsp qsp uid lsj password new_password seed h = ground arith

  threshold_met : (nsp tsp qsp : ℕ) → validate_thresholds nsp tsp qsp ≡ ok tt → tsp ≤ nsp
  unfolding validate_thresholds
  threshold_met nsp tsp qsp h = ground arith

  -- Let the primitives be lawful, and let a client be created for fewer than 2^32 providers whose
  -- numbers are distinct scalars, with a polynomial of at most `tsp` coefficients, 32-byte secrets
  -- and a blinding that is not zero. Then after its first set-up an identification with its
  -- password succeeds and returns the signing key, the user's random strings and the counter zero
  -- that the set-up drew and sealed.
  pub first_setup_unlocks :
      (nsp tsp qsp : ℕ) (uid lsj password new_password seed : Bytes) (stage : ProtocolStage)
      (trace : ProtocolTrace) (blind : P.Scalar)
      → nsp < 4294967296
      → with_identity P nsp tsp qsp uid lsj password new_password seed ≡ ok s
      → AreDistinct P (map P.scalar_from (map (λ p. p.id) (setup_with_rng P s d).1.providers))
      → length d.coeffs < s.tsp
      → blind ≢ P.scalar_zero
      → length d.rsp ≡ 32
      → length d.k0 ≡ 32
      → (after : ProtocolTrace) × (common_identification P
            (setup_with_rng P s d).1
            s.password
            stage
            trace
            blind
          ≡ ok (drawn, after))
  first_setup_unlocks nsp tsp qsp uid lsj password new_password seed stage trace blind few h
        distinct small unit rsp_size k0_size =
      let new = with_identity-IsNew P nsp tsp qsp uid lsj password new_password seed s few h in
      IsSetUp-unlocks (setup_with_rng P s d).1 stage trace blind
        (IsCompleted-IsSetUp (setup_with_rng P s d)
          (first_setup-IsCompleted P nsp tsp qsp uid lsj password new_password seed s d few h))
        (created_quiet nsp tsp qsp uid lsj password new_password seed h) distinct small
        (omega (arith, threshold_met s.nsp s.tsp s.qsp new.validated, new.size)) unit rsp_size
        k0_size
