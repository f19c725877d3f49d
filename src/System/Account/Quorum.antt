-- ===== src/System/Account/Quorum.antt =====
-- roupspa.rs: who is counted as having accepted an account record holds exactly that record.
use threshold_password_authe.Base.{ℕ, ◌≡◌, ok, List, some, arith}
use threshold_password_authe.Base.IdSet.{IdSet}
use threshold_password_authe.Primitives.{Primitives}
use threshold_password_authe.Provider.{
  RoUpSpaProvider, AccountFamilyKey, key_eq, SignedAccountRecord, active, family,
  accept_registration_account, accept_secret_update_account,
}
use threshold_password_authe.System.Types.{AccountWriteKind, registration, secret_update}
use threshold_password_authe.System.Writes.{Progress, write_all}
use threshold_password_authe.System.Writes.Counting
use threshold_password_authe.System.Writes.Counting.{Accepted, AcceptedSound}
use threshold_password_authe.System.Account.{account_write}

module _ (P : Primitives) where
  -- The provider keeps the record as its active one.
  abbrev pub Holds : AccountFamilyKey → SignedAccountRecord P → RoUpSpaProvider P → Type 0
  Holds key r p = p.accounts key ≡ some (record { current = some r; status = active })

  -- Every provider in the set keeps the record.
  abbrev pub AcceptedHold :
      AccountFamilyKey → SignedAccountRecord P → IdSet → List (RoUpSpaProvider P) → Type 0
  AcceptedHold key r = Accepted P (Holds key r)

  account_write-Holds :
      (kind : AccountWriteKind) (r : SignedAccountRecord P) (p q : RoUpSpaProvider P)
      → account_write P kind r p ≡ ok q
      → (q.id ≡ p.id) × Holds (family P r) r q
  unfolding account_write accept_registration_account accept_secret_update_account
  account_write-Holds registration r p q h = ground arith
  account_write-Holds secret_update r p q h = ground arith

  -- Let each provider counted so far keep a record, with none counted twice. The same holds after
  -- an account write of that record to whatever provider indices, however often each occurs.
  pub write_all-AcceptedHold :
      (kind : AccountWriteKind) (r : SignedAccountRecord P) (indices : List ℕ)
      (progress : Progress P)
      → AcceptedSound P (Holds (family P r) r) progress
      → AcceptedSound P
          (Holds (family P r) r)
          (write_all P (account_write P kind r) indices progress)
  write_all-AcceptedHold kind r =
      Counting.write_all-AcceptedSound P (Holds (family P r) r) (account_write P kind r)
        (account_write-Holds kind r)
