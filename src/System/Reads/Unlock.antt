-- ===== src/System/Reads/Unlock.antt =====
-- roupspa.rs: `common_identification` succeeds with the right password, when enough providers that
-- keep the same root are reached.
use threshold_password_authe.Base.{
  ℕ, ◌≤◌, ◌≡◌, ◌≢◌, refl, ap, ◌∙◌, Bytes, bytes_eq, ok, true, List, [], ◌∷◌, map, length, take, All,
  arith,
}
use threshold_password_authe.Primitives.{Primitives, IsField, IsAction, IsLawful}
use threshold_password_authe.Crypto.{hash_to_point}
use threshold_password_authe.Crypto.Weights.{AreDistinct}
use threshold_password_authe.Base.{take-map, length-take, length-map}
use threshold_password_authe.Crypto.Subsets.{AreDistinct-take}
use threshold_password_authe.Messages.Trace.{ProtocolTrace, ProtocolStage}
use threshold_password_authe.Provider.{RoUpSpaProvider, SignedIdentificationRecord}
use threshold_password_authe.System.Types.{RoUpSpaSystem, RecoveredIdentification, idle}
use threshold_password_authe.System.Selection.{largest_group, unique_maximum}
use threshold_password_authe.System.Selection.Groups.{largest_group_all}
use threshold_password_authe.System.Reads.{
  choose, same_identification, validate_identification_record, valid_response, recover_key,
  common_identification, root_operation_state, contacted, first_svk, ensure_setup,
}
use threshold_password_authe.System.Reads.Identification.{
  IsRooted, answer, Seals, state_key, choose-IsRooted, answer_keys, answer_current, answer_ids,
  answer_partials, maximum_of_copies, open_identification-Seals, recover_key-shares,
}

module _ (P : Primitives) (laws : IsLawful P) (field : IsField P) (action : IsAction P)
    (svk : P.VerifyingKey) (r : SignedIdentificationRecord P) (coeffs : List P.Scalar)
    (s : RoUpSpaSystem P) (password : Bytes) where
  -- The answers that a list of numbers stands for, in every step of the selection.
  selected_from :
      (blinded : P.Point) (ids : List ℕ)
      → 1 ≤ length ids
      → (unique_maximum
            (same_identification P)
            (λ t. t.ctrid)
            "identification"
            (map (λ a. a.current) (map (answer P s.uid svk r coeffs blinded) ids))
          ≡ ok r)
        × (first_svk P (map (answer P s.uid svk r coeffs blinded) ids) ≡ ok svk)
  unfolding first_svk
  selected_from blinded [] h = absurd (omega arith)
  selected_from blinded (i ∷ ids) h = (
    ap (unique_maximum (same_identification P) (λ t. t.ctrid) "identification")
          (answer_current P s.uid svk r coeffs blinded (i ∷ ids))
        ∙ maximum_of_copies P s.uid svk r coeffs i ids,
    refl,
  )

  unlocked_key :
      (blind : P.Scalar) (ids : List ℕ)
      → AreDistinct P (map P.scalar_from ids)
      → length coeffs ≤ s.tsp
      → s.tsp ≤ length ids
      → blind ≢ P.scalar_zero
      → let blinded = P.point_mul (hash_to_point P password) blind in
        let chosen = take s.tsp (map (answer P s.uid svk r coeffs blinded) ids) in
        recover_key P s password blind
          (map (λ a. a.provider_id) chosen)
          (choose (λ a. a.toprf_response) chosen)
        ≡ state_key P laws field action svk r coeffs s password
  unlocked_key blind ids distinct small enough h =
      let blinded = P.point_mul (hash_to_point P password) blind in
      let reply = answer P s.uid svk r coeffs blinded in
      ap
        (λ chosen.
          recover_key P s password blind (map (λ a. a.provider_id) chosen)
            (choose (λ a. a.toprf_response) chosen))
        (take-map reply s.tsp ids)
      ∙ ap
          (λ js.
            recover_key P s password blind js
              (choose (λ a. a.toprf_response) (map reply (take s.tsp ids))))
          (answer_ids P s.uid svk r coeffs blinded (take s.tsp ids))
      ∙ ap (recover_key P s password blind (take s.tsp ids))
          (answer_partials P s.uid svk r coeffs blinded (take s.tsp ids))
      ∙ recover_key-shares P laws field action svk r coeffs s password blind (take s.tsp ids)
          (AreDistinct-take P P.scalar_from s.tsp ids distinct)
          (omega (arith, small, length-take s.tsp ids enough)) h

  -- Let the primitives be lawful, the client be set up with no root operation in flight, and every
  -- provider keep the same valid root record as its active one with its committed share of a
  -- polynomial of at most `tsp` coefficients. Let the record seal some secrets under the password's
  -- key, let `tsp` be positive, let at least `tsp` providers be reachable, their numbers distinct
  -- scalars, and the blinding not be zero. Then an identification with the password succeeds and
  -- returns exactly those secrets.
  pub common_identification-Seals :
      (stage : ProtocolStage) (trace : ProtocolTrace) (blind : P.Scalar)
      (found : RecoveredIdentification P)
      → s.initialized ≡ true
      → root_operation_state P s ≡ idle
      → All (IsRooted P s.uid svk r coeffs s.toprf_share_commitments) s.providers
      → validate_identification_record P s.uid svk r ≡ true
      → AreDistinct P (map P.scalar_from (map (λ p. p.id) (contacted P s)))
      → length coeffs ≤ s.tsp
      → 1 ≤ s.tsp
      → s.tsp ≤ length (contacted P s)
      → blind ≢ P.scalar_zero
      → Seals P laws field action svk r coeffs s password found
      → (after : ProtocolTrace) × (common_identification P s password stage trace blind
          ≡ ok (found, after))
  unfolding common_identification ensure_setup
  common_identification-Seals stage trace blind found ready quiet rooted valid distinct small one
        enough h seals =
      let blinded = P.point_mul (hash_to_point P password) blind in
      let ids = map (λ p. p.id) (contacted P s) in
      let responses = map (answer P s.uid svk r coeffs blinded) ids in
      let many : s.tsp ≤ length ids =
        omega (arith, length-map (λ (p : RoUpSpaProvider P). p.id) (contacted P s)) in
      let grouped : largest_group s.tsp (λ a. P.verifying_key_bytes a.svk)
            (choose (valid_response P s blinded) (contacted P s))
          ≡ ok responses =
        ap (largest_group s.tsp (λ a. P.verifying_key_bytes a.svk))
          (choose-IsRooted P s.uid svk r coeffs s refl valid blinded s.providers rooted)
        ∙ largest_group_all (λ a. P.verifying_key_bytes a.svk) (P.verifying_key_bytes svk) s.tsp
            responses (answer_keys P s.uid svk r coeffs blinded ids) one
            (omega (arith, length-map (answer P s.uid svk r coeffs blinded) ids)) in
      let picked = selected_from blinded ids (omega arith) in
      rw
        (
          ready,
          common_identification,
          quiet,
          grouped,
          picked.0,
          picked.1,
          unlocked_key blind ids distinct small many h,
          open_identification-Seals P laws field action svk r coeffs s password found seals,
        )
        (_, refl)
