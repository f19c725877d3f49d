-- ===== src/System/Reads/Identification.antt =====
-- roupspa.rs: `common_identification` with providers that all keep the same root. Whichever of them
-- are reached, enough of them give back what is sealed in it.
use threshold_password_authe.Base.{
  ℕ, ◌≤◌, ◌<◌, ◌≡◌, ◌≢◌, refl, sym, ap, ◌∙◌, inl, inr, Bytes, bytes_eq, Map, ok, true, false, List,
  [], ◌∷◌, map, length, keep, All, width, ok_or, ◌>>=◌, if◌then◌else◌, eqb, err, not, Result, some,
  arith, Bool-cases,
}
use mathlib.Core.Path.{subst}
use mathlib.Core.Logic.{ite}
use threshold_password_authe.Thresholds.Errors.{
  PhaseError, decrypt_failed, external_internal_counter_mismatch, inconsistent_verifying_keys,
}
use threshold_password_authe.Base.{length-map}
use threshold_password_authe.Primitives.{Primitives, IsField, IsAction, IsLawful}
use threshold_password_authe.Crypto.{
  eval, lagrange_coeffs_at_zero, toprf_client_eval_from_partials, hash_to_point, oprf_finalize,
  xchacha_encrypt_detached, xchacha_decrypt_detached,
}
use threshold_password_authe.Crypto.Weights.{AreDistinct}
use threshold_password_authe.Crypto.Interpolation.{constant_term}
use threshold_password_authe.Crypto.Oprf.{IsShare, eval-horner, toprf_client_eval-shares}
use threshold_password_authe.Provider.{
  RoUpSpaProvider, SignedIdentificationRecord, IdentificationResponse, IdentificationReplica,
  active, identification_response,
}
use threshold_password_authe.System.Types.{RoUpSpaSystem, RecoveredIdentification, cipherid_aad}
use threshold_password_authe.System.Plaintext.{
  make_identification_plaintext, parse_identification_plaintext,
  parse-make_identification_plaintext,
}
use threshold_password_authe.System.Selection.{unique_maximum}
use threshold_password_authe.System.Selection.Maximum.{IsTop, unique_maximum_complete}
use threshold_password_authe.System.Reads.{
  choose, same_identification, validate_identification_record, share_is_valid, valid_response,
  recover_key, open_identification,
}

-- The share of a provider, with its number.
module _ (P : Primitives) (coeffs : List P.Scalar) where
  abbrev pub share_of : ℕ → ℕ × P.Scalar
  share_of i = (i, eval P coeffs (P.scalar_from i))

  share_ids : (ids : List ℕ) → map (λ t. t.0) (map share_of ids) ≡ ids
  share_ids [] = refl
  share_ids (i ∷ ids) = ap (◌∷◌ i) (share_ids ids)

  share_of-IsShare :
      (field : IsField P) (ids : List ℕ) → All (IsShare P field coeffs) (map share_of ids)
  share_of-IsShare field [] = tt
  share_of-IsShare field (i ∷ ids) =
      (eval-horner P field coeffs (P.scalar_from i), share_of-IsShare field ids)

module _ (P : Primitives) (uid : Bytes) (svk : P.VerifyingKey) (r : SignedIdentificationRecord P)
    (coeffs : List P.Scalar) where
  -- The provider keeps the root as its active one, and the committed share of the polynomial.
  abbrev pub IsRooted : Map ℕ Bytes → RoUpSpaProvider P → Type 0
  IsRooted commitments p =
      (share : P.Scalar) × (replica : IdentificationReplica P) × (p.shares uid ≡ some share)
      × (share ≡ eval P coeffs (P.scalar_from p.id))
      × (commitments p.id ≡ some (P.scalar_bytes share))
      × (p.identifications uid ≡ some replica)
      × (replica.svk ≡ svk)
      × (replica.current ≡ r)
      × (replica.status ≡ active)

  -- What the provider with a number answers.
  abbrev pub answer : P.Point → ℕ → IdentificationResponse P
  answer blinded id = record {
    provider_id = id;
    svk = svk;
    current = r;
    toprf_response = some (P.point_mul blinded (eval P coeffs (P.scalar_from id)));
  }

  module _ (s : RoUpSpaSystem P) (user : s.uid ≡ uid)
      (valid : validate_identification_record P uid svk r ≡ true) where
    valid_response-IsRooted :
        (blinded : P.Point) (p : RoUpSpaProvider P)
        → IsRooted s.toprf_share_commitments p
        → p.reachable ≡ true
        → valid_response P s blinded p ≡ some (answer blinded p.id)
    unfolding valid_response identification_response share_is_valid
    valid_response-IsRooted blinded p h reached = ground arith

    pub choose-IsRooted :
        (blinded : P.Point) (ps : List (RoUpSpaProvider P))
        → All (IsRooted s.toprf_share_commitments) ps
        → choose (valid_response P s blinded) (keep (λ p. p.reachable) ps)
          ≡ map (answer blinded) (map (λ p. p.id) (keep (λ p. p.reachable) ps))
    choose-IsRooted blinded [] h = refl
    choose-IsRooted blinded (p ∷ ps) h = elim (Bool-cases p.reachable) [
      | inl reached ↦
          ground
            (arith, valid_response-IsRooted blinded p h.0 reached, choose-IsRooted blinded ps h.1)
      | inr away ↦ rw away (choose-IsRooted blinded ps h.1)
    ]

  pub answer_keys :
      (blinded : P.Point) (ids : List ℕ)
      → All
          (λ response. P.verifying_key_bytes response.svk ≡ P.verifying_key_bytes svk)
          (map (answer blinded) ids)
  answer_keys blinded [] = tt
  answer_keys blinded (i ∷ ids) = (refl, answer_keys blinded ids)

  pub answer_current :
      (blinded : P.Point) (ids : List ℕ)
      → map (λ response. response.current) (map (answer blinded) ids) ≡ map (λ i. r) ids
  answer_current blinded [] = refl
  answer_current blinded (i ∷ ids) = ap (◌∷◌ r) (answer_current blinded ids)

  pub answer_ids :
      (blinded : P.Point) (ids : List ℕ)
      → map (λ response. response.provider_id) (map (answer blinded) ids) ≡ ids
  answer_ids blinded [] = refl
  answer_ids blinded (i ∷ ids) = ap (◌∷◌ i) (answer_ids blinded ids)

  pub answer_partials :
      (blinded : P.Point) (ids : List ℕ)
      → choose (λ response. response.toprf_response) (map (answer blinded) ids)
        ≡ map (λ t. P.point_mul blinded t.1) (map (share_of P coeffs) ids)
  answer_partials blinded [] = refl
  answer_partials blinded (i ∷ ids) =
      ap (◌∷◌ (P.point_mul blinded (eval P coeffs (P.scalar_from i)))) (answer_partials blinded ids)

  -- Copies of one record have it as their maximum.
  copies-IsTop : (ids : List ℕ) → IsTop (λ t. t.ctrid) r (map (λ i. r) ids)
  copies-IsTop [] = tt
  copies-IsTop (i ∷ ids) = (inr refl, copies-IsTop ids)

  pub maximum_of_copies :
      (i : ℕ) (ids : List ℕ)
      → unique_maximum
          (same_identification P)
          (λ t. t.ctrid)
          "identification"
          (map (λ i. r) (i ∷ ids))
        ≡ ok r
  maximum_of_copies i ids =
      unique_maximum_complete (same_identification P) (λ t. t.ctrid) (λ a. ground arith)
        (λ a b h. ground arith) "identification" r (map (λ i. r) (i ∷ ids)) (copies-IsTop (i ∷ ids))
        (ground arith)

module _ (P : Primitives) (laws : IsLawful P) (field : IsField P) (action : IsAction P)
    (svk : P.VerifyingKey) (r : SignedIdentificationRecord P) (coeffs : List P.Scalar)
    (s : RoUpSpaSystem P) (password : Bytes) where
  -- The key that the password unlocks.
  abbrev pub state_key : Bytes
  state_key =
      oprf_finalize P password (P.point_mul (hash_to_point P password) (constant_term P coeffs))

  -- The record seals what was recovered, under that key.
  pub record Seals (found : RecoveredIdentification P) : Type 0 where
    pub nonce : Bytes
    pub sealed :
        r.cid
        ≡ xchacha_encrypt_detached P state_key
            (cipherid_aad P s)
            (make_identification_plaintext P found.ssk found.rsp found.k0 found.ctrid)
            nonce
    pub counter : r.ctrid ≡ found.ctrid
    pub key : found.svk ≡ svk
    pub signs : P.verifying_key found.ssk ≡ svk
    pub rsp_size : length found.rsp ≡ 32
    pub k0_size : length found.k0 ≡ 32
    pub counter_fits : found.ctrid < width 8

  decrypt-encrypt :
      (key aad plaintext nonce : Bytes)
      → xchacha_decrypt_detached P key aad (xchacha_encrypt_detached P key aad plaintext nonce)
        ≡ some plaintext
  unfolding xchacha_decrypt_detached xchacha_encrypt_detached
  decrypt-encrypt key aad plaintext nonce = laws.decrypt-encrypt key nonce aad plaintext

  -- The checks on what was parsed.
  abbrev verdict : P.SigningKey × Bytes × Bytes × ℕ → Result PhaseError (RecoveredIdentification P)
  verdict (ssk, rsp, k0, ctrid) =
      if not (eqb ctrid r.ctrid)
      then err (external_internal_counter_mismatch r.ctrid ctrid)
      else ok_or (P.verifying_key_from (P.verifying_key_bytes svk)) inconsistent_verifying_keys
        >>= λ k.
            if ite (P.verifying_key_dec (P.verifying_key ssk) k) true false
            then ok (record { ssk = ssk; svk = k; rsp = rsp; k0 = k0; ctrid = r.ctrid })
            else err inconsistent_verifying_keys

  verdict-Seals :
      (found : RecoveredIdentification P)
      → Seals found
      → verdict (found.ssk, found.rsp, found.k0, found.ctrid) ≡ ok found
  verdict-Seals found h = ground (arith, laws.verifying_key_from-bytes svk)

  pub open_identification-Seals :
      (found : RecoveredIdentification P)
      → Seals found
      → open_identification P s state_key svk r ≡ ok found
  unfolding open_identification
  open_identification-Seals found h =
      let plaintext = make_identification_plaintext P found.ssk found.rsp found.k0 found.ctrid in
      let opens : xchacha_decrypt_detached P state_key (cipherid_aad P s) r.cid ≡ some plaintext =
        ap (xchacha_decrypt_detached P state_key (cipherid_aad P s)) h.sealed
        ∙ decrypt-encrypt state_key (cipherid_aad P s) plaintext h.nonce in
      let parses : parse_identification_plaintext P plaintext
          ≡ (found.ssk, found.rsp, found.k0, found.ctrid) =
        parse-make_identification_plaintext P laws found.ssk found.rsp found.k0 found.ctrid
          h.rsp_size h.k0_size h.counter_fits in
      ap (λ o. ok_or o decrypt_failed >>= λ text. verdict (parse_identification_plaintext P text))
        opens
      ∙ ap verdict parses
      ∙ verdict-Seals found h

  pub recover_key-shares :
      (blind : P.Scalar) (ids : List ℕ)
      → AreDistinct P (map P.scalar_from ids)
      → length coeffs ≤ length ids
      → blind ≢ P.scalar_zero
      → recover_key P s password blind ids (
          map
            (λ t. P.point_mul (P.point_mul (hash_to_point P password) blind) t.1)
            (map (share_of P coeffs) ids))
        ≡ state_key
  unfolding recover_key
  recover_key-shares blind ids distinct enough h =
      let partials =
        map (λ t. P.point_mul (P.point_mul (hash_to_point P password) blind) t.1)
          (map (share_of P coeffs) ids) in
      ap
        (λ js.
          toprf_client_eval_from_partials P password blind partials (lagrange_coeffs_at_zero P js))
        (sym (share_ids P coeffs ids))
      ∙ toprf_client_eval-shares P field action password blind coeffs (map (share_of P coeffs) ids)
          (share_of-IsShare P coeffs field ids)
          (subst (λ js. AreDistinct P (map P.scalar_from js)) (sym (share_ids P coeffs ids))
            distinct)
          (omega (arith, length-map (share_of P coeffs) ids)) h
