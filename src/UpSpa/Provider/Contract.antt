-- ===== src/UpSpa/Provider/Contract.antt =====
-- crates/upspa/src/protocols/provider.rs: a provider implements the two-phase contract for each
-- account, whatever calls it gets.
use threshold_password_authe.Base.{
  Bytes, bytes_eq, ◌==◌, if◌then◌else◌, is_ok, List, [], ◌∷◌, ◌≡◌, refl, Option, none, some, arith,
}
use threshold_password_authe.Primitives.{Primitives}
use threshold_password_authe.Crypto.{CtBlob, blob_eq}
use threshold_password_authe.UpSpa.TwoPhase.{
  Cell, Action, proposes, stores, discards, nothing, CellStep, CellRun, done, next,
}
use threshold_password_authe.UpSpa.Messages.{UpSpaPasswordUpdateRequest}
use threshold_password_authe.UpSpa.Provider.Records.{
  UpSpaProvider, UpSpaAccountSlot, setup, set_reachable, set_account_responses_enabled,
  inject_finalization_failure,
}
use threshold_password_authe.UpSpa.Provider.Accounts.{
  prepare_registration, prepare_secret_update, store_account, discard_account,
}
use threshold_password_authe.UpSpa.Provider.Passwords.{
  prepare_password_update, store_password_update, discard_password_update,
}
use threshold_password_authe.UpSpa.Provider.Calls.{
  Call, becomes_reachable, answers_accounts, gets_fault, sets_up, prepares_registration,
  prepares_secret_update, stores_account, discards_account, prepares_password, stores_password,
  discards_password, step, run,
}

abbrev pub slot_cell : Option UpSpaAccountSlot → Cell CtBlob
slot_cell none = record { committed = none; proposed = none }
slot_cell (some slot) = record { committed = slot.committed; proposed = slot.pending }

module _ (P : Primitives) where
  -- What the contract sees of a provider, for one account.
  unfoldable pub account_view : UpSpaProvider P → Bytes → Cell CtBlob
  account_view p suid = slot_cell (p.accounts suid)

  -- What a call asks for one account, and whether the provider grants it.
  unfoldable pub action_of : UpSpaProvider P → Call P → Bytes → Action CtBlob
  action_of p (prepares_registration suid blob) j =
      if j == suid then proposes (is_ok ((prepare_registration P p suid blob).0)) blob else nothing
  action_of p (prepares_secret_update suid blob) j =
      if j == suid then proposes (is_ok ((prepare_secret_update P p suid blob).0)) blob else nothing
  action_of p (stores_account suid blob) j =
      if j == suid then stores (is_ok ((store_account P p suid blob).0)) blob else nothing
  action_of p (discards_account suid blob) j =
      if j == suid then discards (is_ok ((discard_account P p suid blob).0)) blob else nothing
  action_of p c j = nothing

  -- What the calls ask for one account, in their order.
  unfoldable pub actions_of : UpSpaProvider P → List (Call P) → Bytes → List (Action CtBlob)
  unfolding action_of
  actions_of p [] j = []
  actions_of p (c ∷ cs) j = action_of p c j ∷ actions_of (step P p c) cs j

  abbrev pub Steps : Action CtBlob → UpSpaProvider P → UpSpaProvider P → Bytes → Type 0
  Steps action p q j = CellStep CtBlob action (account_view p j) (account_view q j)

  prepare_registration-CellStep :
      (p : UpSpaProvider P) (suid j : Bytes) (blob : CtBlob)
      → Steps
          (if j == suid
            then proposes (is_ok ((prepare_registration P p suid blob).0)) blob
            else nothing)
          p
          ((prepare_registration P p suid blob).1)
          j
  unfolding prepare_registration account_view
  prepare_registration-CellStep p suid j blob = ground arith

  prepare_secret_update-CellStep :
      (p : UpSpaProvider P) (suid j : Bytes) (blob : CtBlob)
      → Steps
          (if j == suid
            then proposes (is_ok ((prepare_secret_update P p suid blob).0)) blob
            else nothing)
          p
          ((prepare_secret_update P p suid blob).1)
          j
  unfolding prepare_secret_update account_view
  prepare_secret_update-CellStep p suid j blob = ground arith

  store_account-CellStep :
      (p : UpSpaProvider P) (suid j : Bytes) (blob : CtBlob)
      → Steps
          (if j == suid then stores (is_ok ((store_account P p suid blob).0)) blob else nothing)
          p
          ((store_account P p suid blob).1)
          j
  unfolding store_account account_view
  store_account-CellStep p suid j blob = ground arith

  discard_account-CellStep :
      (p : UpSpaProvider P) (suid j : Bytes) (blob : CtBlob)
      → Steps
          (if j == suid then discards (is_ok ((discard_account P p suid blob).0)) blob else nothing)
          p
          ((discard_account P p suid blob).1)
          j
  unfolding discard_account account_view
  discard_account-CellStep p suid j blob = ground arith

  setup_accounts :
      (p : UpSpaProvider P) (uid : Bytes) (svk : P.VerifyingKey) (cid : CtBlob) (share : P.Scalar)
      → (setup P p uid svk cid share).1.accounts ≡ p.accounts
  unfolding setup
  setup_accounts p uid svk cid share = ground arith

  prepare_password_accounts :
      (p : UpSpaProvider P) (r : UpSpaPasswordUpdateRequest P)
      → (prepare_password_update P p r).1.accounts ≡ p.accounts
  unfolding prepare_password_update
  prepare_password_accounts p r = ground arith

  store_password_accounts :
      (p : UpSpaProvider P) (r : UpSpaPasswordUpdateRequest P)
      → (store_password_update P p r).1.accounts ≡ p.accounts
  unfolding store_password_update
  store_password_accounts p r = ground arith

  discard_password_accounts :
      (p : UpSpaProvider P) (r : UpSpaPasswordUpdateRequest P)
      → (discard_password_update P p r).1.accounts ≡ p.accounts
  unfolding discard_password_update
  discard_password_accounts p r = ground arith

  same_accounts :
      (p q : UpSpaProvider P) (j : Bytes) → q.accounts ≡ p.accounts → Steps nothing p q j
  unfolding account_view
  same_accounts p q j e =
      ((λ i. (slot_cell (e i j)).committed), (λ i. (slot_cell (e i j)).proposed))

  pub step-CellStep :
      (p : UpSpaProvider P) (c : Call P) (j : Bytes) → Steps (action_of p c j) p (step P p c) j
  unfolding step set_reachable set_account_responses_enabled inject_finalization_failure
      account_view action_of
  step-CellStep p (becomes_reachable reachable) j = (refl, refl)
  step-CellStep p (answers_accounts enabled) j = (refl, refl)
  step-CellStep p (gets_fault action) j = (refl, refl)
  step-CellStep p (sets_up uid svk cid share) j =
      same_accounts p ((setup P p uid svk cid share).1) j (setup_accounts p uid svk cid share)
  step-CellStep p (prepares_registration suid blob) j = prepare_registration-CellStep p suid j blob
  step-CellStep p (prepares_secret_update suid blob) j =
      prepare_secret_update-CellStep p suid j blob
  step-CellStep p (stores_account suid blob) j = store_account-CellStep p suid j blob
  step-CellStep p (discards_account suid blob) j = discard_account-CellStep p suid j blob
  step-CellStep p (prepares_password r) j =
      same_accounts p ((prepare_password_update P p r).1) j (prepare_password_accounts p r)
  step-CellStep p (stores_password r) j =
      same_accounts p ((store_password_update P p r).1) j (store_password_accounts p r)
  step-CellStep p (discards_password r) j =
      same_accounts p ((discard_password_update P p r).1) j (discard_password_accounts p r)

  -- Whatever calls an UpSPA provider gets, in any order and whether they fail or not, each account
  -- goes through a run of the two-phase contract whose actions are what the calls ask and the
  -- provider grants: a granted prepare proposes its value, and only where no other is proposed; a
  -- granted Store commits the proposed value, or finds none proposed and changes nothing; a granted
  -- Discard removes the proposal it names, and keeps the committed value; and a call that is not
  -- granted, or is about something else, changes nothing of the account.
  pub account_run-CellRun :
      (p : UpSpaProvider P) (cs : List (Call P)) (j : Bytes)
      → CellRun CtBlob (actions_of p cs j) (account_view p j) (account_view (run P p cs) j)
  unfolding run actions_of
  account_run-CellRun p [] j = done (account_view p j)
  account_run-CellRun p (c ∷ cs) j =
      next (action_of p c j) (actions_of (step P p c) cs j) (account_view p j)
        (account_view (step P p c) j) (account_view (run P (step P p c) cs) j) (step-CellStep p c j)
        (account_run-CellRun (step P p c) cs j)
