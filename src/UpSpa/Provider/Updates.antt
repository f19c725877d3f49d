-- ===== src/UpSpa/Provider/Updates.antt =====
-- crates/upspa/src/protocols/provider.rs: a user's record changes only to a newer one.
use threshold_password_authe.Base.{
  ◌<◌, Bytes, bytes_eq, List, [], ◌∷◌, ◌≡◌, refl, Option, none, some, arith, ◌⊎◌, inl,
}
use threshold_password_authe.Primitives.{Primitives}
use threshold_password_authe.Crypto.{CtBlob, blob_eq}
use threshold_password_authe.UpSpa.Messages.{UpSpaPasswordUpdateRequest}
use threshold_password_authe.UpSpa.Provider.Records.{
  UpSpaIdentificationRecord, UpSpaProvider, setup, set_reachable, set_account_responses_enabled,
  inject_finalization_failure,
}
use threshold_password_authe.UpSpa.Provider.Accounts.{
  prepare_registration, prepare_secret_update, store_account, discard_account,
}
use threshold_password_authe.UpSpa.Provider.Passwords.{
  prepare_password_update, store_password_update, discard_password_update,
}
use threshold_password_authe.UpSpa.Provider.Calls.{
  Call, becomes_reachable, answers_accounts, gets_fault, sets_up, prepares_registration,
  prepares_secret_update, stores_account, discards_account, prepares_password, stores_password,
  discards_password, step, run,
}
use threshold_password_authe.UpSpa.Provider.Validity.{
  ProposalsValid, step-ProposalsValid, AccountCall, prepare_registration-AccountCall,
  prepare_secret_update-AccountCall, store_account-AccountCall, discard_account-AccountCall,
}

module _ (P : Primitives) where
  -- A record stays, or gives way to a newer one under the same verifying key.
  abbrev pub Advances :
      Option (UpSpaIdentificationRecord P) → Option (UpSpaIdentificationRecord P) → Type 0
  Advances none after = Unit {0}
  Advances (some a) none = ⊥
  Advances (some a) (some b) =
      (a ≡ b) ⊎ ((a.last_password_update_time < b.last_password_update_time) × (a.svk ≡ b.svk))

  Advances-refl : (held : Option (UpSpaIdentificationRecord P)) → Advances held held
  Advances-refl none = tt
  Advances-refl (some a) = inl refl

  Advances-trans :
      (a b c : Option (UpSpaIdentificationRecord P)) → Advances a b → Advances b c → Advances a c
  Advances-trans none b c h k = tt
  Advances-trans (some a) none c h k = absurd h
  Advances-trans (some a) (some b) none h k = k
  Advances-trans (some a) (some b) (some c) h k = ground arith

  store_password-Advances :
      (p : UpSpaProvider P) (r : UpSpaPasswordUpdateRequest P) (j : Bytes)
      → ProposalsValid P p
      → Advances (p.identifications j) ((store_password_update P p r).1.identifications j)
  unfolding store_password_update
  store_password-Advances p r j v = ground (arith, v j, v r.uid)

  setup-Advances :
      (p : UpSpaProvider P) (uid : Bytes) (svk : P.VerifyingKey) (cid : CtBlob) (share : P.Scalar)
      (j : Bytes)
      → Advances (p.identifications j) ((setup P p uid svk cid share).1.identifications j)
  unfolding setup
  setup-Advances p uid svk cid share j = ground arith

  AccountCall-Advances :
      (p q : UpSpaProvider P) (j : Bytes)
      → AccountCall P p q
      → Advances (p.identifications j) (q.identifications j)
  unfolding AccountCall
  AccountCall-Advances p q j h = rw (h.0) (Advances-refl (p.identifications j))

  prepare_password_records :
      (p : UpSpaProvider P) (r : UpSpaPasswordUpdateRequest P)
      → (prepare_password_update P p r).1.identifications ≡ p.identifications
  unfolding prepare_password_update
  prepare_password_records p r = ground arith

  discard_password_records :
      (p : UpSpaProvider P) (r : UpSpaPasswordUpdateRequest P)
      → (discard_password_update P p r).1.identifications ≡ p.identifications
  unfolding discard_password_update
  discard_password_records p r = ground arith

  step-Advances :
      (p : UpSpaProvider P) (c : Call P) (j : Bytes)
      → ProposalsValid P p
      → Advances (p.identifications j) ((step P p c).identifications j)
  unfolding step set_reachable set_account_responses_enabled inject_finalization_failure
  step-Advances p (becomes_reachable reachable) j v = Advances-refl (p.identifications j)
  step-Advances p (answers_accounts enabled) j v = Advances-refl (p.identifications j)
  step-Advances p (gets_fault action) j v = Advances-refl (p.identifications j)
  step-Advances p (sets_up uid svk cid share) j v = setup-Advances p uid svk cid share j
  step-Advances p (prepares_registration suid blob) j v =
      AccountCall-Advances p ((prepare_registration P p suid blob).1) j
        (prepare_registration-AccountCall P p suid blob)
  step-Advances p (prepares_secret_update suid blob) j v =
      AccountCall-Advances p ((prepare_secret_update P p suid blob).1) j
        (prepare_secret_update-AccountCall P p suid blob)
  step-Advances p (stores_account suid blob) j v =
      AccountCall-Advances p ((store_account P p suid blob).1) j
        (store_account-AccountCall P p suid blob)
  step-Advances p (discards_account suid blob) j v =
      AccountCall-Advances p ((discard_account P p suid blob).1) j
        (discard_account-AccountCall P p suid blob)
  step-Advances p (prepares_password r) j v =
      rw (prepare_password_records p r) (Advances-refl (p.identifications j))
  step-Advances p (stores_password r) j v = store_password-Advances p r j v
  step-Advances p (discards_password r) j v =
      rw (discard_password_records p r) (Advances-refl (p.identifications j))

  -- At an UpSPA provider, let every pending password update be signed under the user's verifying
  -- key for this provider, and be newer than the user's record. Whatever calls the provider gets,
  -- in any order and whether they fail or not, each user's record stays or gives way to one with a
  -- later update time, under the same verifying key.
  pub run-Advances :
      (p : UpSpaProvider P) (cs : List (Call P)) (j : Bytes)
      → ProposalsValid P p
      → Advances (p.identifications j) ((run P p cs).identifications j)
  unfolding run
  run-Advances p [] j v = Advances-refl (p.identifications j)
  run-Advances p (c ∷ cs) j v =
      Advances-trans (p.identifications j) ((step P p c).identifications j)
        ((run P (step P p c) cs).identifications j) (step-Advances p c j v)
        (run-Advances (step P p c) cs j (step-ProposalsValid P p c v))
