-- ===== src/System/AccountRead.antt =====
-- crates/upspa-quorum/src/protocols/roupspa.rs: `read_account`, the account record that the client
-- takes from the providers that it reaches.
pub mod Freshness
use threshold_password_authe.Base.{
  ℕ, Bytes, bytes_eq, ◌==◌, Result, ok, err, ◌>>=◌, not, ◌&&◌, List, [], ◌∷◌, length, ltb, eqb,
  Option, none, some, if◌then◌else◌,
}
use threshold_password_authe.Primitives.{Primitives}
use threshold_password_authe.Crypto.{xchacha_decrypt_detached}
use threshold_password_authe.Messages.{account_read_request_bytes, account_read_response_bytes}
use threshold_password_authe.Messages.Trace.{
  ProtocolTrace, account_read, user, provider, threshold, push, next_stage_id,
}
use threshold_password_authe.Provider.{
  RoUpSpaProvider, AccountFamilyKey, SignedAccountRecord, account_signed_bytes, account_response,
}
use threshold_password_authe.Thresholds.Errors.{
  PhaseError, operation_in_flight, not_enough_valid_responses, missing_account,
}
use threshold_password_authe.System.Types.{RoUpSpaSystem, RecoveredAccount, ciphersp_aad}
use threshold_password_authe.System.Plaintext.{parse_account_plaintext}
use threshold_password_authe.System.Selection.{unique_maximum}
use threshold_password_authe.System.Reads.{
  choose, is_idle, same_account, contacted, account_operation_state,
}

module _ (P : Primitives) where
  open P use {VerifyingKey}

  abbrev pub parsed_text : Option Bytes → Option (Bytes × ℕ)
  parsed_text none = none
  parsed_text (some plaintext) = some (parse_account_plaintext plaintext)

  -- The sealed secret of an account record, and the counter sealed with it.
  unfoldable pub opened : RoUpSpaSystem P → Bytes → SignedAccountRecord P → Option (Bytes × ℕ)
  unfolding xchacha_decrypt_detached
  opened s k0 r = parsed_text (xchacha_decrypt_detached P k0 (ciphersp_aad P s) r.cj)

  -- A record with its secret, if it is of the family, signed, and opens to its own counter.
  unfoldable pub checked_account :
      RoUpSpaSystem P
      → AccountFamilyKey
      → Bytes
      → VerifyingKey
      → SignedAccountRecord P
      → Option (RecoveredAccount P)
  checked_account s key k0 svk r =
      if not (r.uid == key.uid && r.suid == key.suid)
      then none
      else if not (P.verify svk (account_signed_bytes P r) r.signature)
      then none
      else elim (opened s k0 r) [
        | none ↦ none
        | some (rlsj, internal_ctr) ↦
            if eqb internal_ctr r.ctr then some (record { account = r; rlsj = rlsj }) else none
      ]

  -- The body of the loop over the providers.
  unfoldable pub account_candidate :
      RoUpSpaSystem P
      → AccountFamilyKey
      → Bytes
      → VerifyingKey
      → RoUpSpaProvider P
      → Option (RecoveredAccount P)
  unfolding checked_account
  account_candidate s key k0 svk p = elim (account_response P p key) [
    | err e ↦ none
    | ok r ↦ checked_account s key k0 svk r
  ]

  -- The account record with the largest counter among those of the providers that are reached.
  unfoldable pub select_account :
      ℕ → List (RecoveredAccount P) → Result PhaseError (RecoveredAccount P)
  unfolding unique_maximum
  select_account required [] =
      if ltb 0 required then err (not_enough_valid_responses 0 required) else err missing_account
  select_account required (c ∷ cs) =
      let candidates = c ∷ cs in
      if ltb (length candidates) required
      then err (not_enough_valid_responses (length candidates) required)
      else unique_maximum (λ a b. same_account P a.account b.account) (λ a. a.account.ctr) "account"
          candidates

  unfoldable pub read_account :
      RoUpSpaSystem P
      → AccountFamilyKey
      → Bytes
      → VerifyingKey
      → ProtocolTrace
      → Result PhaseError (RecoveredAccount P × ProtocolTrace)
  unfolding account_operation_state account_candidate select_account
  read_account s key k0 svk trace =
      if not (is_idle (account_operation_state P s key))
      then err operation_in_flight
      else select_account s.tsp (choose (account_candidate s key k0 svk) (contacted P s))
        >>= λ account. ok (
          account,
          push trace (record {
            stage_id = next_stage_id trace;
            stage = account_read;
            sender_role = user;
            receiver_role = provider;
            recipient_count = length (contacted P s);
            request_bytes = account_read_request_bytes s.uid;
            response_bytes = account_read_response_bytes;
            wait_policy = threshold s.tsp;
            acknowledgements = s.tsp;
          }),
        )
