-- ===== src/UpSpa/System/Identification.antt =====
-- crates/upspa/src/protocols/system.rs: how the client identifies itself and recovers its root.
use threshold_password_authe.Base.{
  ℕ, zero, suc, ◌+◌, Bytes, bytes_eq, ◌==◌, Result, ok, err, List, [], ◌∷◌, ◌++◌, length, take,
  keep, any, map, get_elem?, ltb, leb, eqb, Bool, true, false, not, ◌&&◌, none, some, if◌then◌else◌,
}
use mathlib.Core.Logic.{ite}
use threshold_password_authe.Primitives.{Primitives}
use threshold_password_authe.Crypto.{
  blob_eq, hash_to_point, lagrange_coeffs_at_zero, toprf_client_eval_from_partials,
  xchacha_decrypt_detached,
}
use threshold_password_authe.UpSpa.Messages.Trace.{ProtocolTrace}
use threshold_password_authe.UpSpa.Provider.Records.{
  UpSpaProvider, UpSpaIdentificationResponse, identification_response,
}
use threshold_password_authe.UpSpa.System.Types.{
  IdentificationRequirement, threshold, all_providers, PhaseError, operation_in_progress,
  insufficient_identification_responses, inconsistent_identification_records,
  invalid_toprf_contribution, root_decryption_failed, root_verification_key_mismatch,
  IdentifiedState, UpSpaSystem, Outcome, fail_with_trace,
}
use threshold_password_authe.UpSpa.System.Plaintext.{cipherid_aad, decode_root_plaintext}
use threshold_password_authe.UpSpa.System.Events.{push_identification_events}

-- The `n` positions from `position` on.
unfoldable pub all_positions : ℕ → ℕ → List ℕ
all_positions position zero = []
all_positions position (suc n) = position ∷ all_positions (position + 1) n

module _ (P : Primitives) where
  open P use {Scalar, Point, verifying_key_dec}

  abbrev Response : Type 0
  Response = UpSpaIdentificationResponse P

  -- The positions of the reachable providers, from `position` on.
  unfoldable pub reachable_positions : ℕ → List (UpSpaProvider P) → List ℕ
  reachable_positions position [] = []
  reachable_positions position (p ∷ ps) =
      let rest = reachable_positions (position + 1) ps in
      if p.reachable then position ∷ rest else rest

  unfoldable pub contacted_positions : UpSpaSystem P → IdentificationRequirement → List ℕ
  unfolding reachable_positions all_positions
  contacted_positions s all_providers = all_positions 0 s.nsp
  contacted_positions s threshold = take s.tsp (reachable_positions 0 s.providers)

  -- The loop that asks the providers. Those at `contributing` positions get the blinded point.
  unfoldable pub ask : UpSpaSystem P → Bytes → Bytes → List ℕ → List ℕ → List Response
  unfolding identification_response
  ask s uid blinded contributing [] = []
  ask s uid blinded contributing (position ∷ positions) =
      let rest = ask s uid blinded contributing positions in
      elim (get_elem? s.providers position) [
        | none ↦ rest
        | some p ↦
            elim (identification_response P p uid
              (if any (eqb position) contributing then some blinded else none)) [
                | ok response ↦ response ∷ rest
                | err e ↦ rest
              ]
      ]

  unfoldable pub same_root : Response → Response → Bool
  same_root a b = ite (verifying_key_dec a.svk b.svk) true false && (a.cid == b.cid)

  -- Whether `response` is for the root of the group, which its first member tells.
  unfoldable pub joins : Response → List Response → Bool
  unfolding same_root
  joins response [] = false
  joins response (first ∷ group) = same_root first response

  unfoldable pub join : List (List Response) → Response → List (List Response)
  unfolding joins
  join [] response = (response ∷ []) ∷ []
  join (group ∷ groups) response =
      let rest = join groups response in
      if joins response group then (group ++ (response ∷ [])) ∷ groups else group ∷ rest

  unfoldable pub groups_of : List (List Response) → List Response → List (List Response)
  unfolding join
  groups_of groups [] = groups
  groups_of groups (response ∷ responses) = groups_of (join groups response) responses

  -- The loop over the contributions of the chosen group, which stops at `tsp` of them.
  unfoldable pub collect_partials :
      ℕ → List ℕ → List Point → List Response → Result PhaseError (List ℕ × List Point)
  collect_partials tsp ids partials [] = ok (ids, partials)
  collect_partials tsp ids partials (response ∷ responses) = elim response.toprf_contribution [
    | none ↦ collect_partials tsp ids partials responses
    | some encoded ↦ elim (P.decompress encoded) [
      | none ↦ err invalid_toprf_contribution
      | some point ↦
          let ids' = ids ++ (response.provider_index ∷ []) in
          let partials' = partials ++ (point ∷ []) in
          let rest = collect_partials tsp ids' partials' responses in
          if eqb (length ids') tsp then ok (ids', partials') else rest
    ]
  ]

  -- The root that the chosen group opens, once enough contributions are there.
  unfoldable pub open_root :
      UpSpaSystem P
      → Bytes
      → Bytes
      → ProtocolTrace
      → Scalar
      → List Response
      → Response
      → List ℕ × List Point
      → Outcome P (IdentifiedState P)
  unfolding toprf_client_eval_from_partials lagrange_coeffs_at_zero xchacha_decrypt_detached
      cipherid_aad decode_root_plaintext fail_with_trace
  open_root s uid password trace r group representative found =
      let fk =
        toprf_client_eval_from_partials P password r (found.1)
          (lagrange_coeffs_at_zero P (found.0)) in
      if ltb (length (found.1)) s.tsp
      then fail_with_trace P s trace invalid_toprf_contribution
      else elim (xchacha_decrypt_detached P fk (cipherid_aad uid) representative.cid) [
        | none ↦ (err root_decryption_failed, s)
        | some plaintext ↦
            let root = decode_root_plaintext P plaintext in
            if ite (verifying_key_dec (P.verifying_key (root.0)) representative.svk) true false
            then (
              ok (record {
                signing_key = root.0;
                rsp = root.1;
                k0 = root.2;
                cid = representative.cid;
                svk = representative.svk;
                responding_providers = map (λ response. response.provider_index) group;
              }),
              s,
            )
            else fail_with_trace P s trace root_verification_key_mismatch
      ]

  unfoldable pub is_partial : UpSpaSystem P → IdentificationRequirement → List Response → Bool
  is_partial s all_providers group = not (eqb (length group) s.nsp)
  is_partial s threshold group = false

  -- From the groups that are large enough: exactly one, and of all providers where all are required.
  -- A group is never empty.
  unfoldable pub choose_group :
      UpSpaSystem P
      → Bytes
      → Bytes
      → ProtocolTrace
      → Scalar
      → IdentificationRequirement
      → List (List Response)
      → Outcome P (IdentifiedState P)
  unfolding collect_partials open_root is_partial fail_with_trace
  choose_group s uid password trace r requirement ((representative ∷ members) ∷ []) =
      let group = representative ∷ members in
      if is_partial s requirement group
      then fail_with_trace P s trace inconsistent_identification_records
      else elim (collect_partials s.tsp [] [] group) [
        | err e ↦ (err e, s)
        | ok found ↦ open_root s uid password trace r group representative found
      ]
  choose_group s uid password trace r requirement _ =
      fail_with_trace P s trace inconsistent_identification_records

  unfoldable pub required_responses : UpSpaSystem P → IdentificationRequirement → ℕ
  required_responses s threshold = s.tsp
  required_responses s all_providers = s.nsp

  -- The source tests the number of responses again for `AllProviders`, where it cannot be larger.
  unfoldable pub identify_responses :
      UpSpaSystem P
      → Bytes
      → Bytes
      → ProtocolTrace
      → Scalar
      → IdentificationRequirement
      → List Response
      → Outcome P (IdentifiedState P)
  unfolding required_responses groups_of choose_group fail_with_trace
  identify_responses s uid password trace r requirement responses =
      let required = required_responses s requirement in
      if ltb (length responses) required
      then fail_with_trace P s trace
          (insufficient_identification_responses (length responses) required)
      else choose_group s uid password trace r requirement
          (keep (λ group. leb required (length group)) (groups_of [] responses))

  -- `r` is the blinding scalar that is drawn. The trace goes on with the messages of this stage.
  unfoldable pub identification_trace :
      UpSpaSystem P → Bytes → IdentificationRequirement → ProtocolTrace → ℕ → ProtocolTrace
  unfolding contacted_positions push_identification_events
  identification_trace s uid requirement trace stage_id =
      push_identification_events trace stage_id uid (length (contacted_positions s requirement))
        s.tsp requirement

  unfoldable pub identify_into_trace :
      UpSpaSystem P
      → Bytes
      → Bytes
      → IdentificationRequirement
      → ProtocolTrace
      → ℕ
      → Scalar
      → Outcome P (IdentifiedState P)
  unfolding contacted_positions ask hash_to_point identify_responses identification_trace
  identify_into_trace s uid password requirement trace stage_id r =
      let contacted = contacted_positions s requirement in
      let blinded = P.compress (P.point_mul (hash_to_point P password) r) in
      identify_responses s uid password (identification_trace s uid requirement trace stage_id) r
        requirement (ask s uid blinded (take s.tsp contacted) contacted)

  unfoldable pub identify :
      UpSpaSystem P
      → Bytes
      → Bytes
      → IdentificationRequirement
      → Scalar
      → Outcome P (IdentifiedState P × ProtocolTrace)
  unfolding identify_into_trace identification_trace
  identify s uid password requirement r =
      let trace = identification_trace s uid requirement [] 1 in
      let out = identify_into_trace s uid password requirement [] 1 r in
      if s.active_operations uid then (err operation_in_progress, s) else elim (out.0) [
        | err e ↦ (err e, out.1)
        | ok state ↦ (ok (state, trace), record (out.1) { last_trace = trace })
      ]
