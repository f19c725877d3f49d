-- ===== src/UpSpa/Provider/Calls.antt =====
-- crates/upspa/src/protocols/provider.rs: the calls that a provider can get, and a history of them.
use threshold_password_authe.Base.{Bytes, Bool, List, [], ◌∷◌}
use threshold_password_authe.Primitives.{Primitives}
use threshold_password_authe.Crypto.{CtBlob}
use threshold_password_authe.UpSpa.Messages.{UpSpaPasswordUpdateRequest}
use threshold_password_authe.UpSpa.Provider.Disposition.{ProviderFinalizationAction}
use threshold_password_authe.UpSpa.Provider.Records.{
  UpSpaProvider, setup, set_reachable, set_account_responses_enabled, inject_finalization_failure,
}
use threshold_password_authe.UpSpa.Provider.Accounts.{
  prepare_registration, prepare_secret_update, store_account, discard_account,
}
use threshold_password_authe.UpSpa.Provider.Passwords.{
  prepare_password_update, store_password_update, discard_password_update,
}

module _ (P : Primitives) where
  pub data Call : Type 0 where
    becomes_reachable answers_accounts : Bool → Call
    gets_fault : ProviderFinalizationAction → Call
    sets_up : Bytes → P.VerifyingKey → CtBlob → P.Scalar → Call
    prepares_registration prepares_secret_update : Bytes → CtBlob → Call
    stores_account discards_account : Bytes → CtBlob → Call
    prepares_password stores_password discards_password : UpSpaPasswordUpdateRequest P → Call

  unfoldable pub step : UpSpaProvider P → Call → UpSpaProvider P
  step p (becomes_reachable reachable) = set_reachable P p reachable
  step p (answers_accounts enabled) = set_account_responses_enabled P p enabled
  step p (gets_fault action) = inject_finalization_failure P p action
  step p (sets_up uid svk cid share) = (setup P p uid svk cid share).1
  step p (prepares_registration suid blob) = (prepare_registration P p suid blob).1
  step p (prepares_secret_update suid blob) = (prepare_secret_update P p suid blob).1
  step p (stores_account suid blob) = (store_account P p suid blob).1
  step p (discards_account suid blob) = (discard_account P p suid blob).1
  step p (prepares_password request) = (prepare_password_update P p request).1
  step p (stores_password request) = (store_password_update P p request).1
  step p (discards_password request) = (discard_password_update P p request).1

  unfoldable pub run : UpSpaProvider P → List Call → UpSpaProvider P
  run p [] = p
  run p (c ∷ cs) = run (step p c) cs
