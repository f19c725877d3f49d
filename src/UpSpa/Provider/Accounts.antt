-- ===== src/UpSpa/Provider/Accounts.antt =====
-- crates/upspa/src/protocols/provider.rs: the account handlers. A slot has a committed value and one
-- that is pending.
use threshold_password_authe.Base.{
  Bytes, bytes_eq, ◌==◌, Result, ok, err, and_then, insert, is_some, is_value, not, ◌&&◌, Option,
  none, some, if◌then◌else◌,
}
use threshold_password_authe.Primitives.{Primitives}
use threshold_password_authe.Crypto.{CtBlob, blob_eq}
use threshold_password_authe.UpSpa.Provider.Disposition.{
  WriteDisposition, accepted, idempotent, ProviderFinalizationAction,
}
use threshold_password_authe.UpSpa.Provider.Records.{
  ProviderError, unreachable, account_already_exists, account_does_not_exist, pending_conflict,
  no_matching_pending, UpSpaAccountSlot, UpSpaProvider, Answer, consume_finalization_fault,
}

module _ (P : Primitives) where
  unfoldable pub account_slot : UpSpaProvider P → Bytes → Option UpSpaAccountSlot
  account_slot p suid = p.accounts suid

  -- The committed value only.
  unfoldable pub read_account : UpSpaProvider P → Bytes → Result ProviderError (Option CtBlob)
  read_account p suid =
      if not p.reachable
      then err unreachable
      else if not p.account_responses_enabled
      then ok none
      else elim (p.accounts suid) [ none ↦ ok none | some slot ↦ ok slot.committed ]

  abbrev pub put_slot : UpSpaProvider P → Bytes → UpSpaAccountSlot → UpSpaProvider P
  put_slot p suid slot = record p { accounts = insert p.accounts suid slot }

  -- `self.accounts.entry(suid).or_default()`.
  unfoldable pub slot_or_default : Option UpSpaAccountSlot → UpSpaAccountSlot
  slot_or_default none = record { committed = none; pending = none }
  slot_or_default (some slot) = slot

  -- The last `match` of both prepare handlers.
  unfoldable pub hold_candidate :
      UpSpaProvider P → Bytes → UpSpaAccountSlot → CtBlob → Answer P WriteDisposition
  hold_candidate p suid slot candidate = elim slot.pending [
    | some pending ↦
        if pending == candidate
        then (ok idempotent, put_slot p suid slot)
        else (err pending_conflict, put_slot p suid slot)
    | none ↦ (ok accepted, put_slot p suid (record slot { pending = some candidate }))
  ]

  unfoldable pub prepare_registration : UpSpaProvider P → Bytes → CtBlob → Answer P WriteDisposition
  unfolding slot_or_default hold_candidate
  prepare_registration p suid candidate =
      let slot = slot_or_default (p.accounts suid) in
      if not p.reachable
      then (err unreachable, p)
      else if is_some slot.committed
      then (err account_already_exists, put_slot p suid slot)
      else hold_candidate p suid slot candidate

  unfoldable pub prepare_secret_update :
      UpSpaProvider P → Bytes → CtBlob → Answer P WriteDisposition
  unfolding hold_candidate
  prepare_secret_update p suid candidate =
      if not p.reachable then (err unreachable, p) else elim (p.accounts suid) [
        | none ↦ (err account_does_not_exist, p)
        | some slot ↦
            if not (is_some slot.committed)
            then (err account_does_not_exist, p)
            else hold_candidate p suid slot candidate
      ]

  -- The `match` of `store_account`, over a slot that was found.
  unfoldable pub commit_slot :
      UpSpaProvider P → Bytes → UpSpaAccountSlot → CtBlob → Answer P WriteDisposition
  commit_slot p suid slot expected =
      if is_value slot.pending expected
      then (ok accepted, put_slot p suid (record { committed = slot.pending; pending = none }))
      else if not (is_some slot.pending) && is_value slot.committed expected
      then (ok idempotent, p)
      else (err no_matching_pending, p)

  unfoldable pub store_account : UpSpaProvider P → Bytes → CtBlob → Answer P WriteDisposition
  unfolding consume_finalization_fault commit_slot
  store_account p suid expected =
      if not p.reachable
      then (err unreachable, p)
      else and_then (consume_finalization_fault P p ProviderFinalizationAction.store_account)
          (λ u q. elim (q.accounts suid) [
            | none ↦ (err no_matching_pending, q)
            | some slot ↦ commit_slot q suid slot expected
          ])

  -- The `match` of `discard_account`, over a slot that was found.
  unfoldable pub clear_slot :
      UpSpaProvider P → Bytes → UpSpaAccountSlot → CtBlob → Answer P WriteDisposition
  clear_slot p suid slot expected =
      if is_value slot.pending expected
      then (ok accepted, put_slot p suid (record slot { pending = none }))
      else (err no_matching_pending, p)

  unfoldable pub discard_account : UpSpaProvider P → Bytes → CtBlob → Answer P WriteDisposition
  unfolding consume_finalization_fault clear_slot
  discard_account p suid expected =
      if not p.reachable
      then (err unreachable, p)
      else and_then (consume_finalization_fault P p ProviderFinalizationAction.discard_account)
          (λ u q. elim (q.accounts suid) [
            | none ↦ (err no_matching_pending, q)
            | some slot ↦ clear_slot q suid slot expected
          ])
