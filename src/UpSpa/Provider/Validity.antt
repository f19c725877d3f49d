-- ===== src/UpSpa/Provider/Validity.antt =====
-- crates/upspa/src/protocols/provider.rs: a password update that is pending was signed by the user
-- for this provider, and is newer than what it will replace.
use threshold_password_authe.Base.{
  ℕ, ◌<◌, Bytes, bytes_eq, List, [], ◌∷◌, ◌≡◌, true, Option, none, some, arith,
}
use threshold_password_authe.Primitives.{Primitives}
use threshold_password_authe.Crypto.{CtBlob, blob_eq}
use threshold_password_authe.UpSpa.Messages.{
  UpSpaPasswordUpdateRequest, signed_bytes, encode_upspa_password_update,
}
use threshold_password_authe.UpSpa.Provider.Records.{
  UpSpaIdentificationRecord, PendingUpSpaIdentification, UpSpaProvider, new, setup, set_reachable,
  set_account_responses_enabled, inject_finalization_failure,
}
use threshold_password_authe.UpSpa.Provider.Accounts.{
  prepare_registration, prepare_secret_update, store_account, discard_account,
}
use threshold_password_authe.UpSpa.Provider.Passwords.{
  pending_of, prepare_password_update, store_password_update, discard_password_update,
}
use threshold_password_authe.UpSpa.Provider.Calls.{
  Call, becomes_reachable, answers_accounts, gets_fault, sets_up, prepares_registration,
  prepares_secret_update, stores_account, discards_account, prepares_password, stores_password,
  discards_password, step, run,
}

module _ (P : Primitives) where
  -- `q` may replace `held` at the provider `index`.
  abbrev pub Supersedes :
      ℕ → Bytes → Option (UpSpaIdentificationRecord P) → PendingUpSpaIdentification P → Type 0
  Supersedes index uid none q = ⊥
  Supersedes index uid (some held) q =
      (held.last_password_update_time < q.time)
      × ((q.provider_index ≡ index)
          × (P.verify held.svk
                (encode_upspa_password_update P uid q.cidnew q.share_new q.time q.provider_index)
                q.signature
              ≡ true))

  abbrev pub PendingSupersedes :
      ℕ
      → Bytes
      → Option (UpSpaIdentificationRecord P)
      → Option (PendingUpSpaIdentification P)
      → Type 0
  PendingSupersedes index uid held none = Unit {0}
  PendingSupersedes index uid held (some q) = Supersedes index uid held q

  abbrev pub ProposalsValid : UpSpaProvider P → Type 0
  ProposalsValid p =
      (uid : Bytes)
      → PendingSupersedes p.provider_index uid (p.identifications uid)
          (p.pending_identifications uid)

  prepare_password-ProposalsValid :
      (p : UpSpaProvider P) (r : UpSpaPasswordUpdateRequest P)
      → ProposalsValid p
      → ProposalsValid ((prepare_password_update P p r).1)
  unfolding prepare_password_update signed_bytes pending_of
  prepare_password-ProposalsValid p r v j = ground (arith, v j, v r.uid)

  store_password-ProposalsValid :
      (p : UpSpaProvider P) (r : UpSpaPasswordUpdateRequest P)
      → ProposalsValid p
      → ProposalsValid ((store_password_update P p r).1)
  unfolding store_password_update
  store_password-ProposalsValid p r v j = ground (arith, v j, v r.uid)

  discard_password-ProposalsValid :
      (p : UpSpaProvider P) (r : UpSpaPasswordUpdateRequest P)
      → ProposalsValid p
      → ProposalsValid ((discard_password_update P p r).1)
  unfolding discard_password_update
  discard_password-ProposalsValid p r v j = ground (arith, v j, v r.uid)

  setup-ProposalsValid :
      (p : UpSpaProvider P) (uid : Bytes) (svk : P.VerifyingKey) (cid : CtBlob) (share : P.Scalar)
      → ProposalsValid p
      → ProposalsValid ((setup P p uid svk cid share).1)
  unfolding setup
  setup-ProposalsValid p uid svk cid share v j = ground (arith, v j, v uid)

  unfoldable pub AccountCall : UpSpaProvider P → UpSpaProvider P → Type 0
  AccountCall p q =
      (q.identifications ≡ p.identifications)
      × ((q.pending_identifications ≡ p.pending_identifications)
          × (q.provider_index ≡ p.provider_index))

  pub prepare_registration-AccountCall :
      (p : UpSpaProvider P) (suid : Bytes) (blob : CtBlob)
      → AccountCall p ((prepare_registration P p suid blob).1)
  unfolding prepare_registration AccountCall
  prepare_registration-AccountCall p suid blob = ground arith

  pub prepare_secret_update-AccountCall :
      (p : UpSpaProvider P) (suid : Bytes) (blob : CtBlob)
      → AccountCall p ((prepare_secret_update P p suid blob).1)
  unfolding prepare_secret_update AccountCall
  prepare_secret_update-AccountCall p suid blob = ground arith

  pub store_account-AccountCall :
      (p : UpSpaProvider P) (suid : Bytes) (blob : CtBlob)
      → AccountCall p ((store_account P p suid blob).1)
  unfolding store_account AccountCall
  store_account-AccountCall p suid blob = ground arith

  pub discard_account-AccountCall :
      (p : UpSpaProvider P) (suid : Bytes) (blob : CtBlob)
      → AccountCall p ((discard_account P p suid blob).1)
  unfolding discard_account AccountCall
  discard_account-AccountCall p suid blob = ground arith

  AccountCall-ProposalsValid :
      (p q : UpSpaProvider P) → AccountCall p q → ProposalsValid p → ProposalsValid q
  unfolding AccountCall
  AccountCall-ProposalsValid p q h v uid = rw (h.0, h.1.0, h.1.1) (v uid)

  pub step-ProposalsValid :
      (p : UpSpaProvider P) (c : Call P) → ProposalsValid p → ProposalsValid (step P p c)
  unfolding step set_reachable set_account_responses_enabled inject_finalization_failure
  step-ProposalsValid p (becomes_reachable reachable) v = v
  step-ProposalsValid p (answers_accounts enabled) v = v
  step-ProposalsValid p (gets_fault action) v = v
  step-ProposalsValid p (sets_up uid svk cid share) v = setup-ProposalsValid p uid svk cid share v
  step-ProposalsValid p (prepares_registration suid blob) v =
      AccountCall-ProposalsValid p ((prepare_registration P p suid blob).1)
        (prepare_registration-AccountCall p suid blob) v
  step-ProposalsValid p (prepares_secret_update suid blob) v =
      AccountCall-ProposalsValid p ((prepare_secret_update P p suid blob).1)
        (prepare_secret_update-AccountCall p suid blob) v
  step-ProposalsValid p (stores_account suid blob) v =
      AccountCall-ProposalsValid p ((store_account P p suid blob).1)
        (store_account-AccountCall p suid blob) v
  step-ProposalsValid p (discards_account suid blob) v =
      AccountCall-ProposalsValid p ((discard_account P p suid blob).1)
        (discard_account-AccountCall p suid blob) v
  step-ProposalsValid p (prepares_password r) v = prepare_password-ProposalsValid p r v
  step-ProposalsValid p (stores_password r) v = store_password-ProposalsValid p r v
  step-ProposalsValid p (discards_password r) v = discard_password-ProposalsValid p r v

  -- At an UpSPA provider, let every pending password update be signed under the user's verifying
  -- key for this provider, and be newer than the user's record. The same holds after any calls in
  -- any order, whether they fail or not.
  pub run-ProposalsValid :
      (p : UpSpaProvider P) (cs : List (Call P)) → ProposalsValid p → ProposalsValid (run P p cs)
  unfolding run
  run-ProposalsValid p [] v = v
  run-ProposalsValid p (c ∷ cs) v = run-ProposalsValid (step P p c) cs (step-ProposalsValid p c v)

  pub new-ProposalsValid : (index : ℕ) → ProposalsValid (new P index)
  unfolding new
  new-ProposalsValid index uid = tt
