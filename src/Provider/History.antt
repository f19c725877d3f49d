-- ===== src/Provider/History.antt =====
-- provider.rs: a provider over any history of requests. A request that fails leaves it as it was.
use threshold_password_authe.Base.{Bytes, Result, ok, err, Bool, List, [], ◌∷◌}
use threshold_password_authe.Primitives.{Primitives}
use threshold_password_authe.Provider.Records.{
  ReplicaStatus, ProviderError, SignedIdentificationRecord, SignedAccountRecord, AccountFamilyKey,
  RoUpSpaProvider,
}
use threshold_password_authe.Provider.Reads.{set_reachable, install_setup}
use threshold_password_authe.Provider.Writes.{
  accept_registration_account, accept_secret_update_account, accept_tentative_identification,
  store_tentative_identification, discard_tentative_identification, mark_identification_status,
  mark_account_status,
}

module _ (P : Primitives) where
  pub data Request : Type 0 where
    reaches : Bool → Request
    sets_up : Bytes → P.VerifyingKey → SignedIdentificationRecord P → P.Scalar → Request
    registers : SignedAccountRecord P → Request
    updates : SignedAccountRecord P → Request
    proposes : Bytes → SignedIdentificationRecord P → Request
    stores : Bytes → SignedIdentificationRecord P → Request
    discards : Bytes → SignedIdentificationRecord P → Request
    marks : Bytes → ReplicaStatus → Request
    marks_account : AccountFamilyKey → ReplicaStatus → Request

  unfoldable pub handle : RoUpSpaProvider P → Request → Result ProviderError (RoUpSpaProvider P)
  handle p (reaches reachable) = ok (set_reachable P p reachable)
  handle p (sets_up uid svk r share) = install_setup P p uid svk r share
  handle p (registers r) = accept_registration_account P p r
  handle p (updates r) = accept_secret_update_account P p r
  handle p (proposes uid r) = accept_tentative_identification P p uid r
  handle p (stores uid r) = store_tentative_identification P p uid r
  handle p (discards uid r) = discard_tentative_identification P p uid r
  handle p (marks uid status) = mark_identification_status P p uid status
  handle p (marks_account key status) = ok (mark_account_status P p key status)

  abbrev pub after :
      RoUpSpaProvider P → Result ProviderError (RoUpSpaProvider P) → RoUpSpaProvider P
  after p (ok q) = q
  after p (err e) = p

  unfoldable pub run : RoUpSpaProvider P → List Request → RoUpSpaProvider P
  unfolding handle
  run p [] = p
  run p (r ∷ rs) = run (after p (handle p r)) rs
