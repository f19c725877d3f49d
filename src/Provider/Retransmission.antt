-- ===== src/Provider/Retransmission.antt =====
-- provider.rs: what an accepted write leaves, and that sending it again is harmless.
use threshold_password_authe.Base.{◌≡◌, Bytes, bytes_eq, ok, insert, some, arith}
use threshold_password_authe.Primitives.{Primitives}
use threshold_password_authe.Provider.Records.{
  active, SignedIdentificationRecord, SignedAccountRecord, AccountFamilyKey, key_eq,
  RoUpSpaProvider,
}
use threshold_password_authe.Provider.Reads.{account_response}
use threshold_password_authe.Provider.Writes.{
  family, accept_registration_account, accept_secret_update_account,
  accept_tentative_identification,
}

-- The provider with the record written once more.
abbrev rewritten : {P : Primitives} → RoUpSpaProvider P → SignedAccountRecord P → RoUpSpaProvider P
rewritten {P} q r = record q {
  accounts = insert q.accounts (family P r) (record { current = some r; status = active });
}

module _ (P : Primitives) (p q : RoUpSpaProvider P) where
  -- An accepted registration is what the provider then answers with.
  pub account_response-register :
      (r : SignedAccountRecord P)
      → accept_registration_account P p r ≡ ok q
      → account_response P q (family P r) ≡ ok r
  unfolding accept_registration_account account_response
  account_response-register r h = ground arith

  -- After an accepted secret update to a record, the provider answers a read of its family with
  -- that record.
  pub account_response-update :
      (r : SignedAccountRecord P)
      → accept_secret_update_account P p r ≡ ok q
      → account_response P q (family P r) ≡ ok r
  unfolding accept_secret_update_account account_response
  account_response-update r h = ground arith

  -- After an accepted registration of a record, sending the same registration again succeeds and
  -- changes no account.
  pub register_again :
      (r : SignedAccountRecord P)
      → accept_registration_account P p r ≡ ok q
      → (t : RoUpSpaProvider P) × (accept_registration_account P q r ≡ ok t)
        × ((key : AccountFamilyKey) → t.accounts key ≡ q.accounts key)
  unfolding accept_registration_account
  register_again r h = (rewritten q r, ground arith, λ key. ground arith)

  -- After an accepted secret update to a record, sending the same secret update again succeeds and
  -- changes no account.
  pub update_again :
      (r : SignedAccountRecord P)
      → accept_secret_update_account P p r ≡ ok q
      → (t : RoUpSpaProvider P) × (accept_secret_update_account P q r ≡ ok t)
        × ((key : AccountFamilyKey) → t.accounts key ≡ q.accounts key)
  unfolding accept_secret_update_account
  update_again r h = (rewritten q r, ground arith, λ key. ground arith)

  -- After a tentative identification record has been accepted, sending it again succeeds and leaves
  -- the provider as it is.
  pub tentative_again :
      (uid : Bytes) (r : SignedIdentificationRecord P)
      → accept_tentative_identification P p uid r ≡ ok q
      → accept_tentative_identification P q uid r ≡ ok q
  unfolding accept_tentative_identification
  tentative_again uid r h = ground arith
