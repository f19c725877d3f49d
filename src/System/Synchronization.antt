-- ===== src/System/Synchronization.antt =====
-- crates/upspa-quorum/src/protocols/synchronization.rs: a provider that was away is brought up to date
-- from a quorum of the others, or marked stale.
pub mod Recovery
use threshold_password_authe.Base.{
  ℕ, zero, suc, Bytes, bytes_eq, ◌==◌, Result, ok, err, ◌>>=◌, is_some, insert, Bool, true, false,
  not, ◌&&◌, List, [], ◌∷◌, map, length, set, get_elem?, keep, ltb, Option, none, some,
  if◌then◌else◌,
}
use threshold_password_authe.Primitives.{Primitives}
use threshold_password_authe.Messages.{
  account_read_request_bytes, account_read_response_bytes, identification_request_bytes,
  identification_response_bytes,
}
use threshold_password_authe.Messages.Trace.{
  ProtocolTrace, synchronization_read, user, provider, quorum, push,
}
use threshold_password_authe.Provider.{
  RoUpSpaProvider, AccountFamilyKey, key_eq, SignedAccountRecord, SignedIdentificationRecord,
  SignedIdentificationRecord-discrete, IdentificationReplica, ReplicaStatus, active, unreachable,
  is_active, account_signed_bytes, account_response, identification_response, mark_account_status,
}
use threshold_password_authe.Thresholds.Errors.{
  PhaseError, operation_in_flight, invalid_provider_index, provider_rejected,
  missing_provider_share, not_enough_valid_responses, inconsistent_verifying_keys,
}
use threshold_password_authe.System.Types.{RoUpSpaSystem, Outcome}
use threshold_password_authe.System.Selection.{largest_group, unique_maximum}
use threshold_password_authe.System.Reads.{
  choose, is_idle, root_operation_state, account_operation_state, validate_identification_record,
  same_account, same_identification,
}

pub record SynchronizationOutcome : Type 0 where
  pub valid_responses : ℕ
  pub installed_counter : ℕ
  pub trace : ProtocolTrace

-- The list without the element at an index.
unfoldable pub others {ℓ} : {A : Type ℓ} → ℕ → List A → List A
others i [] = []
others zero (x ∷ xs) = xs
others (suc i) (x ∷ xs) = x ∷ others i xs

module _ (P : Primitives) where
  open P use {VerifyingKey}

  -- The provider at the index replaced.
  abbrev pub put : RoUpSpaSystem P → ℕ → RoUpSpaProvider P → RoUpSpaSystem P
  put s index p = record s { providers = set s.providers index p }

  abbrev pub asked : RoUpSpaSystem P → ℕ → List (RoUpSpaProvider P)
  asked s index = keep (λ p. p.reachable) (others index s.providers)

  -- `replica.status = Stale`, where there is a replica.
  unfoldable pub stale_identification : RoUpSpaProvider P → Bytes → RoUpSpaProvider P
  stale_identification p uid = elim (p.identifications uid) [
    | none ↦ p
    | some replica ↦ record p {
      identifications =
          insert p.identifications uid (record replica { status = ReplicaStatus.stale });
    }
  ]

  -- A key and a root record from another provider, if the record is valid.
  unfoldable pub root_candidate :
      RoUpSpaSystem P → RoUpSpaProvider P → Option (VerifyingKey × SignedIdentificationRecord P)
  root_candidate s p = elim (identification_response P p s.uid none) [
    | err e ↦ none
    | ok response ↦
        if validate_identification_record P s.uid response.svk response.current
        then some (response.svk, response.current)
        else none
  ]

  first_key : List (VerifyingKey × SignedIdentificationRecord P) → Result PhaseError VerifyingKey
  first_key [] = err inconsistent_verifying_keys
  first_key ((svk, r) ∷ rest) = ok svk

  -- The root to install: the responses that agree on it, its key and its record.
  unfoldable pub recovered_root :
      RoUpSpaSystem P → ℕ → Result PhaseError (ℕ × VerifyingKey × SignedIdentificationRecord P)
  unfolding first_key
  recovered_root s index = do
    candidates ←
        largest_group s.qsp (λ (svk, r). P.verifying_key_bytes svk)
          (choose (root_candidate s) (asked s index))
    selected ←
        unique_maximum (same_identification P) (λ r. r.ctrid) "identification"
          (map (λ (svk, r). r) candidates)
    svk ← first_key candidates
    ok (length candidates, svk, selected)

  -- The outcome and the state after a successful synchronization.
  unfoldable pub synchronized :
      RoUpSpaSystem P → ℕ → RoUpSpaProvider P → ℕ → ℕ → ℕ → ℕ → Outcome P SynchronizationOutcome
  synchronized s index p valid counter request response =
      let trace = push [] (record {
        stage_id = 1;
        stage = synchronization_read;
        sender_role = user;
        receiver_role = provider;
        recipient_count = length (asked s index);
        request_bytes = request;
        response_bytes = response;
        wait_policy = quorum s.qsp;
        acknowledgements = s.qsp;
      }) in
      (
        ok (record { valid_responses = valid; installed_counter = counter; trace = trace }),
        record s { providers = set s.providers index p; last_trace = trace },
      )

  unfoldable pub install_root :
      RoUpSpaSystem P → ℕ → RoUpSpaProvider P → Outcome P SynchronizationOutcome
  unfolding synchronized
  install_root s index p = elim (recovered_root s index) [
    | err e ↦ (err e, put s index (stale_identification p s.uid))
    | ok (valid, svk, r) ↦
        synchronized s index
          (record p {
            identifications = insert p.identifications s.uid (record {
              svk = svk;
              current = r;
              status = active;
              tentative_identification = none;
            });
          })
          valid r.ctrid (identification_request_bytes s.uid)
          (identification_response_bytes (ltb 0 r.ctrid) false)
  ]

  unfoldable pub synchronize_identification : RoUpSpaSystem P → ℕ → Outcome P SynchronizationOutcome
  synchronize_identification s index =
      if not (is_idle (root_operation_state P s))
      then (err operation_in_flight, s)
      else elim (get_elem? s.providers index) [
        | none ↦ (err (invalid_provider_index index), s)
        | some p ↦
            if not p.reachable
            then (err (provider_rejected unreachable), s)
            else if not (is_some (p.shares s.uid))
            then (err missing_provider_share, put s index (stale_identification p s.uid))
            else install_root s index p
      ]

  -- The key of the first provider with an active root.
  unfoldable pub first_active_key : List (RoUpSpaProvider P) → Bytes → Option VerifyingKey
  first_active_key [] uid = none
  first_active_key (p ∷ ps) uid =
      let rest = first_active_key ps uid in
      elim (p.identifications uid) [
        | none ↦ rest
        | some replica ↦ if is_active replica.status then some replica.svk else rest
      ]

  unfoldable pub expected_key : RoUpSpaSystem P → RoUpSpaProvider P → Bytes → Option VerifyingKey
  expected_key s p uid = elim (p.identifications uid) [
    | some replica ↦ some replica.svk
    | none ↦ first_active_key s.providers uid
  ]

  -- A record of the family from another provider, if it is signed.
  unfoldable pub record_candidate :
      AccountFamilyKey → VerifyingKey → RoUpSpaProvider P → Option (SignedAccountRecord P)
  record_candidate key svk p = elim (account_response P p key) [
    | err e ↦ none
    | ok r ↦
        if r.uid == key.uid
          && r.suid == key.suid
          && P.verify svk (account_signed_bytes P r) r.signature
        then some r
        else none
  ]

  -- The record to install, from the candidates.
  unfoldable pub recovered_record :
      ℕ → List (SignedAccountRecord P) → Result PhaseError (SignedAccountRecord P)
  recovered_record qsp candidates =
      if ltb (length candidates) qsp
      then err (not_enough_valid_responses (length candidates) qsp)
      else unique_maximum (same_account P) (λ r. r.ctr) "account" candidates

  unfoldable pub install_record :
      RoUpSpaSystem P
      → AccountFamilyKey
      → ℕ
      → RoUpSpaProvider P
      → VerifyingKey
      → Outcome P SynchronizationOutcome
  unfolding synchronized
  install_record s key index p svk =
      let candidates = choose (record_candidate key svk) (asked s index) in
      elim (recovered_record s.qsp candidates) [
        | err e ↦ (err e, put s index (mark_account_status P p key ReplicaStatus.stale))
        | ok r ↦
            synchronized s index
              (record p {
                accounts = insert p.accounts key (record { current = some r; status = active });
              })
              (length candidates) r.ctr (account_read_request_bytes key.uid)
              account_read_response_bytes
      ]

  unfoldable pub synchronize_account :
      RoUpSpaSystem P → AccountFamilyKey → ℕ → Outcome P SynchronizationOutcome
  synchronize_account s key index =
      if not (is_idle (account_operation_state P s key))
      then (err operation_in_flight, s)
      else elim (get_elem? s.providers index) [
        | none ↦ (err (invalid_provider_index index), s)
        | some p ↦
            if not p.reachable
            then (err (provider_rejected unreachable), s)
            else elim (expected_key s p key.uid) [
              | none ↦ (
                err inconsistent_verifying_keys,
                put s index (mark_account_status P p key ReplicaStatus.stale),
              )
              | some svk ↦ install_record s key index p svk
            ]
      ]
