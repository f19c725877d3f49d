-- ===== src/System/Reads.antt =====
-- crates/upspa-quorum/src/protocols/roupspa.rs: what the client reads from the providers that it
-- reaches: its identification record, a second evaluation of the pseudo-random function, an account.
pub mod Identification
pub mod Unlock
use threshold_password_authe.Base.{
  ℕ, Bytes, bytes_eq, ◌==◌, Result, ok, err, ok_or, ◌>>=◌, is_some, Bool, true, false, not, ◌&&◌,
  List, [], ◌∷◌, map, length, take, keep, ltb, eqb, Option, none, some, if◌then◌else◌,
}
use threshold_password_authe.Primitives.{Primitives}
use threshold_password_authe.Crypto.{
  hash_to_point, lagrange_coeffs_at_zero, toprf_client_eval_from_partials, xchacha_decrypt_detached,
  hash_roupspa_suid,
}
use threshold_password_authe.Messages.{
  identification_request_bytes, identification_response_bytes, ristretto_message_bytes,
}
use threshold_password_authe.Messages.Trace.{
  ProtocolTrace, ProtocolStage, toprf_new_same_shares, user, provider, threshold, push,
  next_stage_id,
}
use threshold_password_authe.Provider.{
  RoUpSpaProvider, AccountFamilyKey, SignedAccountRecord, SignedIdentificationRecord,
  SignedAccountRecord-discrete, SignedIdentificationRecord-discrete, IdentificationResponse,
  is_active, identification_signed_bytes, identification_response,
}
use threshold_password_authe.Thresholds.Errors.{
  PhaseError, not_setup, operation_in_flight, not_enough_valid_responses, decrypt_failed,
  external_internal_counter_mismatch, inconsistent_verifying_keys,
}
use threshold_password_authe.System.Types.{
  RoUpSpaSystem, InFlightOperation, idle, RecoveredIdentification, cipherid_aad,
}
use threshold_password_authe.System.Plaintext.{parse_identification_plaintext}
use threshold_password_authe.System.Selection.{largest_group, unique_maximum}
use mathlib.Core.Logic.{ite}

-- `filter_map`, for the loops that `continue` past what they do not take.
abbrev pub choose : {A B : Type 0} → (A → Option B) → List A → List B
choose f [] = []
choose f (x ∷ xs) = let rest = choose f xs in elim (f x) [ none ↦ rest | some y ↦ y ∷ rest ]

abbrev pub is_idle : InFlightOperation → Bool
is_idle idle = true
is_idle _ = false

module _ (P : Primitives) where
  open P use {Point, Scalar, VerifyingKey, verifying_key_dec}

  unfoldable pub ensure_setup : RoUpSpaSystem P → Result PhaseError (Unit {0})
  ensure_setup s = if s.initialized then ok tt else err not_setup

  -- Also `identification_operation_state`.
  unfoldable pub root_operation_state : RoUpSpaSystem P → InFlightOperation
  root_operation_state s = elim (s.identification_operations s.uid) [
    | none ↦ idle
    | some context ↦ context.state
  ]

  unfoldable pub account_operation_state : RoUpSpaSystem P → AccountFamilyKey → InFlightOperation
  account_operation_state s key = elim (s.account_operations key) [
    | none ↦ idle
    | some context ↦ context.state
  ]

  abbrev pub same_identification :
      SignedIdentificationRecord P → SignedIdentificationRecord P → Bool
  same_identification a b = ite (SignedIdentificationRecord-discrete P a b) true false

  abbrev pub same_account : SignedAccountRecord P → SignedAccountRecord P → Bool
  same_account a b = ite (SignedAccountRecord-discrete P a b) true false

  -- Also synchronization.rs `root_record_is_valid`. The arms are those of the source's `match`.
  unfoldable pub validate_identification_record :
      Bytes → VerifyingKey → SignedIdentificationRecord P → Bool
  unfolding identification_signed_bytes
  validate_identification_record uid svk r = elim r.signature [
    | none ↦ eqb r.ctrid 0
    | some signature ↦
        not (eqb r.ctrid 0) && P.verify svk (identification_signed_bytes P r uid) signature
  ]

  -- Whether a provider's share is the one that was committed to at set-up.
  unfoldable pub share_is_valid : RoUpSpaSystem P → RoUpSpaProvider P → Bool
  share_is_valid s p = elim (p.shares s.uid) [
    | none ↦ false
    | some share ↦ elim (s.toprf_share_commitments p.id) [
      | none ↦ false
      | some committed ↦ committed == P.scalar_bytes share
    ]
  ]

  -- The body of the loop over the providers: the response that is taken, if any.
  unfoldable pub valid_response :
      RoUpSpaSystem P → Point → RoUpSpaProvider P → Option (IdentificationResponse P)
  unfolding validate_identification_record share_is_valid
  valid_response s blinded p = elim (identification_response P p s.uid (some blinded)) [
    | err e ↦ none
    | ok response ↦
        if validate_identification_record s.uid response.svk response.current
          && is_some response.toprf_response
          && share_is_valid s p
        then some response
        else none
  ]

  abbrev pub contacted : RoUpSpaSystem P → List (RoUpSpaProvider P)
  contacted s = keep (λ p. p.reachable) s.providers

  -- The key that the password and the first `tsp` evaluations give.
  unfoldable pub recover_key : RoUpSpaSystem P → Bytes → Scalar → List ℕ → List Point → Bytes
  recover_key s password blind ids partials =
      toprf_client_eval_from_partials P password blind partials (lagrange_coeffs_at_zero P ids)

  -- Opening the selected record, from the decryption to the check of the signing key.
  unfoldable pub open_identification :
      RoUpSpaSystem P
      → Bytes
      → VerifyingKey
      → SignedIdentificationRecord P
      → Result PhaseError (RecoveredIdentification P)
  unfolding xchacha_decrypt_detached cipherid_aad parse_identification_plaintext
  open_identification s state_key response_svk selected =
      ok_or (xchacha_decrypt_detached P state_key (cipherid_aad P s) selected.cid) decrypt_failed
      >>= λ plaintext.
          let (ssk, rsp, k0, ctrid_internal) = parse_identification_plaintext P plaintext in
          if not (eqb ctrid_internal selected.ctrid)
          then err (external_internal_counter_mismatch selected.ctrid ctrid_internal)
          else ok_or (P.verifying_key_from (P.verifying_key_bytes response_svk))
              inconsistent_verifying_keys
            >>= λ svk.
                if ite (verifying_key_dec (P.verifying_key ssk) svk) true false
                then ok
                    (record { ssk = ssk; svk = svk; rsp = rsp; k0 = k0; ctrid = selected.ctrid })
                else err inconsistent_verifying_keys

  -- `responses[0]`, which the group's size has shown to exist.
  pub first_svk : List (IdentificationResponse P) → Result PhaseError VerifyingKey
  first_svk [] = err inconsistent_verifying_keys
  first_svk (response ∷ responses) = ok response.svk

  -- The identification record and what it holds; the trace, with the stage added. `blind` is the
  -- scalar that is drawn.
  unfoldable pub common_identification :
      RoUpSpaSystem P
      → Bytes
      → ProtocolStage
      → ProtocolTrace
      → Scalar
      → Result PhaseError (RecoveredIdentification P × ProtocolTrace)
  unfolding ensure_setup root_operation_state valid_response largest_group unique_maximum
      recover_key open_identification first_svk
  common_identification s password stage trace blind = ensure_setup s >>= λ _.
      if not (is_idle (root_operation_state s))
      then err operation_in_flight
      else let blinded = P.point_mul (hash_to_point P password) blind in
        do
          responses ←
              largest_group s.tsp (λ r. P.verifying_key_bytes r.svk)
                (choose (valid_response s blinded) (contacted s))
          selected ←
              unique_maximum same_identification (λ r. r.ctrid) "identification"
                (map (λ r. r.current) responses)
          let chosen = take s.tsp responses
          let state_key =
              recover_key s password blind (map (λ r. r.provider_id) chosen)
                (choose (λ r. r.toprf_response) chosen)
          svk ← first_svk responses
          recovered ← open_identification s state_key svk selected
          ok (
            recovered,
            push trace (record {
              stage_id = next_stage_id trace;
              stage = stage;
              sender_role = user;
              receiver_role = provider;
              recipient_count = length (contacted s);
              request_bytes = identification_request_bytes s.uid;
              response_bytes = identification_response_bytes (is_some selected.signature) true;
              wait_policy = threshold s.tsp;
              acknowledgements = s.tsp;
            }),
          )

  -- A provider's evaluation at the blinded point: the closure `contribution`.
  unfoldable pub contribution : RoUpSpaSystem P → Point → RoUpSpaProvider P → Option (ℕ × Point)
  unfolding share_is_valid
  contribution s blinded p = elim (p.identifications s.uid) [
    | none ↦ none
    | some replica ↦ elim (p.shares s.uid) [
      | none ↦ none
      | some share ↦
          if is_active replica.status && share_is_valid s p
          then some (p.id, P.point_mul blinded share)
          else none
    ]
  ]

  unfoldable pub evaluate_same_toprf :
      RoUpSpaSystem P → Bytes → ProtocolTrace → Scalar → Result PhaseError (Bytes × ProtocolTrace)
  unfolding contribution recover_key
  evaluate_same_toprf s password trace blind =
      let blinded = P.point_mul (hash_to_point P password) blind in
      let found = choose (contribution s blinded) (contacted s) in
      if ltb (length found) s.tsp
      then err (not_enough_valid_responses (length found) s.tsp)
      else let chosen = take s.tsp found in
        ok (
          recover_key s password blind (map (λ (id, _). id) chosen) (map (λ (_, y). y) chosen),
          push trace (record {
            stage_id = next_stage_id trace;
            stage = toprf_new_same_shares;
            sender_role = user;
            receiver_role = provider;
            recipient_count = length (contacted s);
            request_bytes = ristretto_message_bytes;
            response_bytes = ristretto_message_bytes;
            wait_policy = threshold s.tsp;
            acknowledgements = s.tsp;
          }),
        )

  -- Also `hash_shared_suid`.
  unfoldable pub shared_suid : RoUpSpaSystem P → Bytes → Bytes
  shared_suid s rsp = hash_roupspa_suid P rsp s.lsj
