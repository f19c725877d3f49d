-- ===== src/UpSpa/System/Locking/Identification.antt =====
-- crates/upspa/src/protocols/system.rs: an identification changes nothing but the last trace.
use threshold_password_authe.Base.{
  ℕ, Bytes, bytes_eq, ◌≡◌, refl, sym, List, [], ◌∷◌, arith, Bool-cases, Result-cases, inl, inr, ltb,
  leb, length, keep, take,
}
use threshold_password_authe.Primitives.{Primitives}
use threshold_password_authe.UpSpa.Messages.Trace.{ProtocolTrace}
use threshold_password_authe.UpSpa.Provider.Records.{UpSpaIdentificationResponse}
use threshold_password_authe.UpSpa.System.Types.{
  UpSpaSystem, IdentificationRequirement, fail_with_trace,
}
use threshold_password_authe.UpSpa.System.Identification.{
  open_root, choose_group, identify_responses, identify_into_trace, is_partial, collect_partials,
  required_responses, groups_of, contacted_positions, ask, identification_trace,
}
use threshold_password_authe.Crypto.{hash_to_point}
use threshold_password_authe.UpSpa.System.Locking.{Keeps}

module _ (P : Primitives) where
  abbrev pub SameButTrace : UpSpaSystem P → UpSpaSystem P → Type 0
  SameButTrace s t = record s { last_trace = t.last_trace } ≡ t

  open_root-SameButTrace :
      (s : UpSpaSystem P) (uid password : Bytes) (trace : ProtocolTrace) (r : P.Scalar)
      (group : List (UpSpaIdentificationResponse P)) (first : UpSpaIdentificationResponse P)
      (found : List ℕ × List P.Point)
      → SameButTrace s ((open_root P s uid password trace r group first found).1)
  unfolding open_root fail_with_trace
  open_root-SameButTrace s uid password trace r group first found = ground arith

  choose_group-SameButTrace :
      (s : UpSpaSystem P) (uid password : Bytes) (trace : ProtocolTrace) (r : P.Scalar)
      (requirement : IdentificationRequirement)
      (groups : List (List (UpSpaIdentificationResponse P)))
      → SameButTrace s ((choose_group P s uid password trace r requirement groups).1)
  unfolding choose_group fail_with_trace
  choose_group-SameButTrace s uid password trace r requirement [] = refl
  choose_group-SameButTrace s uid password trace r requirement ([] ∷ []) = refl
  choose_group-SameButTrace s uid password trace r requirement ([] ∷ g ∷ groups) = refl
  choose_group-SameButTrace s uid password trace r requirement ((first ∷ members) ∷ g ∷ groups) =
      refl
  choose_group-SameButTrace s uid password trace r requirement ((first ∷ members) ∷ []) =
      elim (Bool-cases (is_partial P s requirement (first ∷ members))) [
        | inl h ↦ rw h refl
        | inr h ↦ rw h (elim (Result-cases (collect_partials P s.tsp [] [] (first ∷ members))) [
          | inl (found, e) ↦
              rw e (open_root-SameButTrace s uid password trace r (first ∷ members) first found)
          | inr (error, e) ↦ rw e refl
        ])
      ]

  identify_responses-SameButTrace :
      (s : UpSpaSystem P) (uid password : Bytes) (trace : ProtocolTrace) (r : P.Scalar)
      (requirement : IdentificationRequirement) (responses : List (UpSpaIdentificationResponse P))
      → SameButTrace s ((identify_responses P s uid password trace r requirement responses).1)
  unfolding identify_responses fail_with_trace
  identify_responses-SameButTrace s uid password trace r requirement responses =
      let required = required_responses P s requirement in
      elim (Bool-cases (ltb (length responses) required)) [
        | inl h ↦ rw h refl
        | inr h ↦ rw h (
            choose_group-SameButTrace s uid password trace r requirement
              (keep (λ group. leb required (length group)) (groups_of P [] responses)))
      ]

  pub identify_into_trace-SameButTrace :
      (s : UpSpaSystem P) (uid password : Bytes) (requirement : IdentificationRequirement)
      (trace : ProtocolTrace) (stage_id : ℕ) (r : P.Scalar)
      → SameButTrace s ((identify_into_trace P s uid password requirement trace stage_id r).1)
  unfolding identify_into_trace
  identify_into_trace-SameButTrace s uid password requirement trace stage_id r =
      let contacted = contacted_positions P s requirement in
      let blinded = P.compress (P.point_mul (hash_to_point P password) r) in
      identify_responses-SameButTrace s uid password
        (identification_trace P s uid requirement trace stage_id) r requirement
        (ask P s uid blinded (take s.tsp contacted) contacted)

  pub SameButTrace-Keeps : (uid : Bytes) (s t : UpSpaSystem P) → SameButTrace s t → Keeps P uid s t
  SameButTrace-Keeps uid s t h = record {
    active = λ j. sym (λ i. (h i).active_operations j);
    pending = λ j n. sym (λ i. (h i).pending_finalizations j);
  }
