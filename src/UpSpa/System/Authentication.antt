-- ===== src/UpSpa/System/Authentication.antt =====
-- crates/upspa/src/protocols/system.rs: a login with the newest account.
pub mod Newest
use threshold_password_authe.Base.{
  Bytes, bytes_eq, ok, err, and_then, List, [], ◌∷◌, length, keep, ltb, Option, none, some,
  if◌then◌else◌,
}
use threshold_password_authe.Primitives.{Primitives}
use threshold_password_authe.UpSpa.Messages.{hash_upspa_suid, hash_vinfo}
use threshold_password_authe.UpSpa.Messages.Trace.{ProtocolTrace, push, threshold}
use threshold_password_authe.UpSpa.LoginServer
use threshold_password_authe.UpSpa.Provider.{UpSpaProvider, read_account}
use threshold_password_authe.UpSpa.System.Types.{
  AuthenticationOutcome, IdentificationRequirement, operation_in_progress, at_login_server,
  insufficient_account_responses, IdentifiedState, UpSpaSystem, Outcome, fail_with_trace,
}
use threshold_password_authe.UpSpa.System.Plaintext.{decrypt_account}
use threshold_password_authe.UpSpa.System.Events.{account_read_event, authentication_event}
use threshold_password_authe.UpSpa.System.Identification.{identify_into_trace, identification_trace}
use threshold_password_authe.UpSpa.System.Entries.{Entry, sort_by_counter, last}

module _ (P : Primitives) where
  -- The loop over all providers: those without an answer, or whose account does not open, are passed.
  unfoldable pub candidates :
      List (UpSpaProvider P) → Bytes → Bytes → IdentifiedState P → List Entry
  unfolding hash_upspa_suid read_account decrypt_account
  candidates [] uid lsj state = []
  candidates (p ∷ ps) uid lsj state =
      let rest = candidates ps uid lsj state in
      elim (read_account P p (hash_upspa_suid P state.rsp lsj p.provider_index)) [
        | err e ↦ rest
        | ok none ↦ rest
        | ok (some blob) ↦ elim (decrypt_account P state.k0 uid blob) [
          | none ↦ rest
          | some entry ↦ entry ∷ rest
        ]
      ]

  -- The login with the newest account. The source takes the last of at least `tsp` entries.
  unfoldable pub log_in :
      UpSpaSystem P → Bytes → Bytes → ProtocolTrace → Option Entry → Outcome P AuthenticationOutcome
  unfolding hash_vinfo push authentication_event LoginServer.authenticate
  log_in s uid lsj trace none = (err (insufficient_account_responses 0 s.tsp), s)
  log_in s uid lsj trace (some newest) =
      let trace' = push trace (authentication_event uid) in
      elim (LoginServer.authenticate s.login_server uid (hash_vinfo P (newest.0) lsj)) [
        | err source ↦ (err (at_login_server source), s)
        | ok authenticated ↦ (
          ok (record {
            authenticated = authenticated;
            selected_counter = newest.1;
            trace = trace';
          }),
          record s { last_trace = trace' },
        )
      ]

  unfoldable pub authenticate_with :
      UpSpaSystem P → Bytes → Bytes → ProtocolTrace → List Entry → Outcome P AuthenticationOutcome
  unfolding log_in sort_by_counter last fail_with_trace
  authenticate_with s uid lsj trace entries =
      if ltb (length entries) s.tsp
      then fail_with_trace P s trace (insufficient_account_responses (length entries) s.tsp)
      else log_in s uid lsj trace (last (sort_by_counter entries))

  unfoldable pub authentication :
      UpSpaSystem P → Bytes → Bytes → Bytes → P.Scalar → Outcome P AuthenticationOutcome
  unfolding identify_into_trace identification_trace push account_read_event candidates
      authenticate_with
  authentication s uid password lsj r =
      if s.active_operations uid
      then (err operation_in_progress, s)
      else and_then
          (identify_into_trace P s uid password IdentificationRequirement.threshold [] 1 r)
          (λ state s.
            let reachable = length (keep (λ p. p.reachable) s.providers) in
            let trace =
              push (identification_trace P s uid IdentificationRequirement.threshold [] 1)
                (account_read_event reachable (threshold s.tsp)) in
            authenticate_with s uid lsj trace (candidates s.providers uid lsj state))
