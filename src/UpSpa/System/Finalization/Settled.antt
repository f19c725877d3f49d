-- ===== src/UpSpa/System/Finalization/Settled.antt =====
-- crates/upspa/src/protocols/system.rs: what a provider's acknowledgement of a terminal step means.
use threshold_password_authe.Base.{
  ℕ, Bytes, bytes_eq, ◌≡◌, List, get_elem?, is_ok, true, Bool, Option, none, some, arith,
}
use mathlib.Core.Path.{subst}
use threshold_password_authe.Primitives.{Primitives}
use threshold_password_authe.Crypto.{CtBlob, blob_eq}
use threshold_password_authe.UpSpa.Messages.{UpSpaPasswordUpdateRequest}
use threshold_password_authe.UpSpa.LoginServer.{PendingLsOperation}
use threshold_password_authe.UpSpa.Provider.{
  UpSpaProvider, UpSpaIdentificationRecord, store_account, discard_account, store_password_update,
  discard_password_update,
}
use threshold_password_authe.UpSpa.Provider.Contract.{slot_cell}
use threshold_password_authe.UpSpa.System.Types.{
  TerminalAction, store, discard, FinalizationPayload, account, password_update,
}
use threshold_password_authe.UpSpa.System.Finalization.{
  account_handler, password_handler, terminal_handler,
}

module _ (P : Primitives) where
  -- The account is committed, and nothing is pending for it.
  abbrev pub IsStored : Bytes → CtBlob → UpSpaProvider P → Type 0
  IsStored suid blob p =
      ((slot_cell (p.accounts suid)).committed ≡ some blob)
      × ((slot_cell (p.accounts suid)).proposed ≡ none)

  abbrev pub IsDiscarded : Bytes → UpSpaProvider P → Type 0
  IsDiscarded suid p = (slot_cell (p.accounts suid)).proposed ≡ none

  -- The record has the sealed root, the share and the time of the request.
  abbrev pub Renewed : Option (UpSpaIdentificationRecord P) → UpSpaPasswordUpdateRequest P → Type 0
  Renewed none r = ⊥
  Renewed (some held) r =
      (held.cid ≡ r.cidnew)
      × ((held.share ≡ r.share_new) × (held.last_password_update_time ≡ r.time))

  store_account-IsStored :
      (p : UpSpaProvider P) (suid : Bytes) (blob : CtBlob)
      → is_ok ((store_account P p suid blob).0) ≡ true
      → IsStored suid blob ((store_account P p suid blob).1)
  unfolding store_account
  store_account-IsStored p suid blob h = ground (arith, h)

  discard_account-IsDiscarded :
      (p : UpSpaProvider P) (suid : Bytes) (blob : CtBlob)
      → is_ok ((discard_account P p suid blob).0) ≡ true
      → IsDiscarded suid ((discard_account P p suid blob).1)
  unfolding discard_account
  discard_account-IsDiscarded p suid blob h = ground (arith, h)

  store_password-Renewed :
      (p : UpSpaProvider P) (r : UpSpaPasswordUpdateRequest P)
      → is_ok ((store_password_update P p r).0) ≡ true
      → Renewed ((store_password_update P p r).1.identifications r.uid) r
        × ((store_password_update P p r).1.pending_identifications r.uid ≡ none)
  unfolding store_password_update
  store_password-Renewed p r h = ground (arith, h)

  discard_password_none :
      (p : UpSpaProvider P) (r : UpSpaPasswordUpdateRequest P)
      → is_ok ((discard_password_update P p r).0) ≡ true
      → (discard_password_update P p r).1.pending_identifications r.uid ≡ none
  unfolding discard_password_update
  discard_password_none p r h = ground (arith, h)

  AccountSettled : TerminalAction → CtBlob → Option Bytes → UpSpaProvider P → Type 0
  AccountSettled action blob none p = ⊥
  AccountSettled store blob (some suid) p = IsStored suid blob p
  AccountSettled discard blob (some suid) p = IsDiscarded suid p

  PasswordSettled :
      TerminalAction → Option (UpSpaPasswordUpdateRequest P) → UpSpaProvider P → Type 0
  PasswordSettled action none p = ⊥
  PasswordSettled store (some r) p =
      Renewed (p.identifications r.uid) r × (p.pending_identifications r.uid ≡ none)
  PasswordSettled discard (some r) p = p.pending_identifications r.uid ≡ none

  -- The provider at a position has done what the terminal step asks.
  unfoldable pub Settled : TerminalAction → FinalizationPayload P → ℕ → UpSpaProvider P → Type 0
  unfolding AccountSettled PasswordSettled
  Settled action (account suids blob operation secret_update) position p =
      AccountSettled action blob (get_elem? suids position) p
  Settled action (password_update requests) position p =
      PasswordSettled action (get_elem? requests position) p

  account_handler-Settled :
      (action : TerminalAction) (blob : CtBlob) (suid : Option Bytes) (p : UpSpaProvider P)
      → is_ok ((account_handler P action blob suid p).0) ≡ true
      → AccountSettled action blob suid ((account_handler P action blob suid p).1)
  unfolding account_handler AccountSettled
  account_handler-Settled action blob none p h = absurd (ground (arith, h))
  account_handler-Settled store blob (some suid) p h = store_account-IsStored p suid blob h
  account_handler-Settled discard blob (some suid) p h = discard_account-IsDiscarded p suid blob h

  password_handler-Settled :
      (action : TerminalAction) (request : Option (UpSpaPasswordUpdateRequest P))
      (p : UpSpaProvider P)
      → is_ok ((password_handler P action request p).0) ≡ true
      → PasswordSettled action request ((password_handler P action request p).1)
  unfolding password_handler PasswordSettled
  password_handler-Settled action none p h = absurd (ground (arith, h))
  password_handler-Settled store (some r) p h = store_password-Renewed p r h
  password_handler-Settled discard (some r) p h = discard_password_none p r h

  pub terminal_handler-Settled :
      (action : TerminalAction) (payload : FinalizationPayload P) (position : ℕ)
      (p : UpSpaProvider P)
      → is_ok ((terminal_handler P action payload position p).0) ≡ true
      → Settled action payload position ((terminal_handler P action payload position p).1)
  unfolding terminal_handler Settled
  terminal_handler-Settled action (account suids blob operation secret_update) position p h =
      account_handler-Settled action blob (get_elem? suids position) p h
  terminal_handler-Settled action (password_update requests) position p h =
      password_handler-Settled action (get_elem? requests position) p h

  pub Settled-IsStored :
      (suids : List Bytes) (blob : CtBlob) (operation : PendingLsOperation) (secret_update : Bool)
      (position : ℕ) (suid : Bytes) (p : UpSpaProvider P)
      → get_elem? suids position ≡ some suid
      → Settled store (account suids blob operation secret_update) position p
      → IsStored suid blob p
  unfolding Settled AccountSettled
  Settled-IsStored suids blob operation secret_update position suid p e h =
      subst (λ o. AccountSettled store blob o p) e h
