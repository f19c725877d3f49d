-- ===== src/Provider/Counters.antt =====
-- provider.rs: the counters of a provider only rise, over any history of requests.
use threshold_password_authe.Base.{
  ◌<◌, ◌≡◌, refl, ◌⊎◌, inl, inr, Bytes, ok, Bool, some, none, Option, List, [], ◌∷◌, arith,
  Result-cases,
}
use threshold_password_authe.Primitives.{Primitives}
use threshold_password_authe.Provider.Records.{
  ReplicaStatus, SignedIdentificationRecord, SignedAccountRecord, AccountFamilyKey, key_eq,
  AccountReplica, RoUpSpaProvider,
}
use threshold_password_authe.Provider.Reads.{set_reachable, install_setup}
use threshold_password_authe.Provider.Writes.{
  accept_registration_account, accept_secret_update_account, accept_tentative_identification,
  store_tentative_identification, discard_tentative_identification, mark_identification_status,
  mark_account_status,
}
use threshold_password_authe.Provider.History.{
  Request, reaches, sets_up, registers, updates, proposes, stores, discards, marks, marks_account,
  handle, after, run,
}

module _ (P : Primitives) where
  -- A stored record stays, or gives way to one with a higher counter.
  abbrev pub RecordAdvances :
      Option (SignedAccountRecord P) → Option (SignedAccountRecord P) → Type 0
  RecordAdvances none s = Unit {0}
  RecordAdvances (some r) none = ⊥
  RecordAdvances (some r) (some s) = (r.ctr < s.ctr) ⊎ (r ≡ s)

  abbrev pub current_of : Option (AccountReplica P) → Option (SignedAccountRecord P)
  current_of none = none
  current_of (some replica) = replica.current

  abbrev pub AccountAdvances : Option (AccountReplica P) → Option (AccountReplica P) → Type 0
  AccountAdvances a b = RecordAdvances (current_of a) (current_of b)

  abbrev pub AccountsAdvance : RoUpSpaProvider P → RoUpSpaProvider P → Type 0
  AccountsAdvance p q = (key : AccountFamilyKey) → AccountAdvances (p.accounts key) (q.accounts key)

  RecordAdvances-refl : (r : Option (SignedAccountRecord P)) → RecordAdvances r r
  RecordAdvances-refl none = tt
  RecordAdvances-refl (some r) = inr refl

  RecordAdvances-trans :
      (r s t : Option (SignedAccountRecord P))
      → RecordAdvances r s
      → RecordAdvances s t
      → RecordAdvances r t
  RecordAdvances-trans none s t h k = tt
  RecordAdvances-trans (some r) none t h k = absurd h
  RecordAdvances-trans (some r) (some s) none h k = absurd k
  RecordAdvances-trans (some r) (some s) (some t) h k = ground arith

  abbrev AccountAdvances-refl : (a : Option (AccountReplica P)) → AccountAdvances a a
  AccountAdvances-refl a = RecordAdvances-refl (current_of a)

  module _ (p q : RoUpSpaProvider P) (key : AccountFamilyKey) where
    reaches-Advances :
        (reachable : Bool)
        → set_reachable P p reachable ≡ q
        → AccountAdvances (p.accounts key) (q.accounts key)
    unfolding set_reachable
    reaches-Advances reachable h = ground (arith, AccountAdvances-refl (p.accounts key))

    setup-Advances :
        (uid : Bytes) (svk : P.VerifyingKey) (r : SignedIdentificationRecord P) (share : P.Scalar)
        → install_setup P p uid svk r share ≡ ok q
        → AccountAdvances (p.accounts key) (q.accounts key)
    unfolding install_setup
    setup-Advances uid svk r share h = ground (arith, AccountAdvances-refl (p.accounts key))

    register-Advances :
        (r : SignedAccountRecord P)
        → accept_registration_account P p r ≡ ok q
        → AccountAdvances (p.accounts key) (q.accounts key)
    unfolding accept_registration_account
    register-Advances r h = ground (arith, AccountAdvances-refl (p.accounts key))

    update-Advances :
        (r : SignedAccountRecord P)
        → accept_secret_update_account P p r ≡ ok q
        → AccountAdvances (p.accounts key) (q.accounts key)
    unfolding accept_secret_update_account
    update-Advances r h = ground (arith, AccountAdvances-refl (p.accounts key))

    proposes-Advances :
        (uid : Bytes) (r : SignedIdentificationRecord P)
        → accept_tentative_identification P p uid r ≡ ok q
        → AccountAdvances (p.accounts key) (q.accounts key)
    unfolding accept_tentative_identification
    proposes-Advances uid r h = ground (arith, AccountAdvances-refl (p.accounts key))

    stores-Advances :
        (uid : Bytes) (r : SignedIdentificationRecord P)
        → store_tentative_identification P p uid r ≡ ok q
        → AccountAdvances (p.accounts key) (q.accounts key)
    unfolding store_tentative_identification
    stores-Advances uid r h = ground (arith, AccountAdvances-refl (p.accounts key))

    discards-Advances :
        (uid : Bytes) (r : SignedIdentificationRecord P)
        → discard_tentative_identification P p uid r ≡ ok q
        → AccountAdvances (p.accounts key) (q.accounts key)
    unfolding discard_tentative_identification
    discards-Advances uid r h = ground (arith, AccountAdvances-refl (p.accounts key))

    marks-Advances :
        (uid : Bytes) (status : ReplicaStatus)
        → mark_identification_status P p uid status ≡ ok q
        → AccountAdvances (p.accounts key) (q.accounts key)
    unfolding mark_identification_status
    marks-Advances uid status h = ground (arith, AccountAdvances-refl (p.accounts key))

    marks_account-Advances :
        (k : AccountFamilyKey) (status : ReplicaStatus)
        → mark_account_status P p k status ≡ q
        → AccountAdvances (p.accounts key) (q.accounts key)
    unfolding mark_account_status
    marks_account-Advances k status h = ground (arith, AccountAdvances-refl (p.accounts key))

  handle-AccountsAdvance :
      (p q : RoUpSpaProvider P) (r : Request P) → handle P p r ≡ ok q → AccountsAdvance p q
  unfolding handle
  handle-AccountsAdvance p q (reaches reachable) h key = reaches-Advances p q key reachable (cc)
  handle-AccountsAdvance p q (sets_up uid svk r share) h key =
      setup-Advances p q key uid svk r share h
  handle-AccountsAdvance p q (registers r) h key = register-Advances p q key r h
  handle-AccountsAdvance p q (updates r) h key = update-Advances p q key r h
  handle-AccountsAdvance p q (proposes uid r) h key = proposes-Advances p q key uid r h
  handle-AccountsAdvance p q (stores uid r) h key = stores-Advances p q key uid r h
  handle-AccountsAdvance p q (discards uid r) h key = discards-Advances p q key uid r h
  handle-AccountsAdvance p q (marks uid status) h key = marks-Advances p q key uid status h
  handle-AccountsAdvance p q (marks_account k status) h key =
      marks_account-Advances p q key k status (cc)

  after-AccountsAdvance :
      (p : RoUpSpaProvider P) (r : Request P) → AccountsAdvance p (after P p (handle P p r))
  after-AccountsAdvance p r key = elim (Result-cases (handle P p r)) [
    | inl (q, e) ↦ rw e (handle-AccountsAdvance p q r e key)
    | inr (x, e) ↦ rw e (RecordAdvances-refl (current_of (p.accounts key)))
  ]

  -- Whatever requests a provider gets, in any order and whether they fail or not, each stored
  -- account record stays or gives way to one with a higher counter.
  pub run-AccountsAdvance :
      (p : RoUpSpaProvider P) (rs : List (Request P)) → AccountsAdvance p (run P p rs)
  unfolding run
  run-AccountsAdvance p [] key = RecordAdvances-refl (current_of (p.accounts key))
  run-AccountsAdvance p (r ∷ rs) key =
      RecordAdvances-trans (current_of (p.accounts key)) _ _ (after-AccountsAdvance p r key)
        (run-AccountsAdvance (after P p (handle P p r)) rs key)
