-- ===== src/Provider/Writes.antt =====
-- crates/upspa-quorum/src/protocols/provider.rs: the handlers that write.
use threshold_password_authe.Base.{
  Bytes, bytes_eq, Result, ok, err, ok_or, ◌>>=◌, checked_succ, insert, is_some, Bool, true, false,
  Option, none, some, eqb, if◌then◌else◌,
}
use mathlib.Core.Logic.{ite}
use threshold_password_authe.Primitives.{Primitives}
use threshold_password_authe.Provider.Records.{
  ReplicaStatus, active, is_active, ProviderError, guard, unreachable, missing_identification,
  invalid_signature, wrong_counter, conflicting_record, missing_tentative,
  SignedIdentificationRecord, SignedAccountRecord, account_signed_bytes,
  identification_signed_bytes, AccountFamilyKey, key_eq, IdentificationReplica, AccountReplica,
  RoUpSpaProvider, SignedAccountRecord-discrete, SignedIdentificationRecord-discrete,
}
use threshold_password_authe.Provider.Reads.{verifying_key}

module _ (P : Primitives) where
  abbrev Written : Type 0
  Written = Result ProviderError (RoUpSpaProvider P)

  abbrev put_account : RoUpSpaProvider P → AccountFamilyKey → AccountReplica P → RoUpSpaProvider P
  put_account p key replica = record p { accounts = insert p.accounts key replica }

  abbrev put_identification :
      RoUpSpaProvider P → Bytes → IdentificationReplica P → RoUpSpaProvider P
  put_identification p uid replica = record p {
    identifications = insert p.identifications uid replica;
  }

  -- `AccountFamilyKey::new(&record.uid, record.suid)`.
  abbrev pub family : SignedAccountRecord P → AccountFamilyKey
  family r = record { uid = r.uid; suid = r.suid }

  -- `a.as_ref() == Some(&b)`.
  abbrev pub account_is : Option (SignedAccountRecord P) → SignedAccountRecord P → Bool
  account_is none b = false
  account_is (some a) b = ite (SignedAccountRecord-discrete P a b) true false

  -- The `match self.accounts.get_mut(&key)` of a registration.
  unfoldable pub register :
      RoUpSpaProvider P → SignedAccountRecord P → Option (AccountReplica P) → Written
  register p r none = ok (put_account p (family r) (record { current = some r; status = active }))
  register p r (some replica) =
      if account_is replica.current r
      then ok (put_account p (family r) (record replica { status = active }))
      else if is_some replica.current
      then err conflicting_record
      else ok (put_account p (family r) (record { current = some r; status = active }))

  unfoldable pub accept_registration_account : RoUpSpaProvider P → SignedAccountRecord P → Written
  unfolding register verifying_key account_signed_bytes
  accept_registration_account p r = guard p.reachable unreachable (
      guard (eqb r.ctr 0) (wrong_counter 0 r.ctr) (
        verifying_key P p r.uid >>= λ svk.
        guard (P.verify svk (account_signed_bytes P r) r.signature) invalid_signature
          (register p r (p.accounts (family r)))))

  -- The counter check and the write of a secret update, over the stored record.
  unfoldable pub advance :
      RoUpSpaProvider P → SignedAccountRecord P → SignedAccountRecord P → Written
  advance p r current =
      ok_or (checked_succ current.ctr) (wrong_counter current.ctr r.ctr) >>= λ expected.
      guard (eqb r.ctr expected) (wrong_counter expected r.ctr)
        (ok (put_account p (family r) (record { current = some r; status = active })))

  unfoldable pub accept_secret_update_account : RoUpSpaProvider P → SignedAccountRecord P → Written
  unfolding advance verifying_key account_signed_bytes
  accept_secret_update_account p r = guard p.reachable unreachable (
      verifying_key P p r.uid >>= λ svk.
      guard (P.verify svk (account_signed_bytes P r) r.signature) invalid_signature (
        ok_or (p.accounts (family r)) ProviderError.stale >>= λ replica.
        if account_is replica.current r
        then ok (put_account p (family r) (record replica { status = active }))
        else guard (is_active replica.status) ProviderError.stale
            (ok_or replica.current ProviderError.stale >>= advance p r)))

  abbrev pub identification_is :
      Option (SignedIdentificationRecord P) → SignedIdentificationRecord P → Bool
  identification_is none b = false
  identification_is (some a) b = ite (SignedIdentificationRecord-discrete P a b) true false

  -- The last `match` of a password write.
  unfoldable pub hold_tentative :
      RoUpSpaProvider P
      → Bytes
      → SignedIdentificationRecord P
      → IdentificationReplica P
      → Option (SignedIdentificationRecord P)
      → Written
  hold_tentative p uid r replica (some existing) =
      if identification_is (some existing) r then ok p else err conflicting_record
  hold_tentative p uid r replica none =
      ok (put_identification p uid (record replica { tentative_identification = some r }))

  unfoldable pub accept_tentative_identification :
      RoUpSpaProvider P → Bytes → SignedIdentificationRecord P → Written
  unfolding hold_tentative identification_signed_bytes
  accept_tentative_identification p uid r = guard p.reachable unreachable (
      ok_or (p.identifications uid) missing_identification >>= λ replica.
      guard (is_active replica.status) ProviderError.stale (
        ok_or (checked_succ replica.current.ctrid) (wrong_counter replica.current.ctrid r.ctrid)
        >>= λ expected. guard (eqb r.ctrid expected) (wrong_counter expected r.ctrid) (
            ok_or r.signature invalid_signature >>= λ signature.
            guard (P.verify replica.svk (identification_signed_bytes P r uid) signature)
              invalid_signature (hold_tentative p uid r replica replica.tentative_identification))))

  unfoldable pub store_tentative_identification :
      RoUpSpaProvider P → Bytes → SignedIdentificationRecord P → Written
  store_tentative_identification p uid expected =
      ok_or (p.identifications uid) missing_identification >>= λ replica.
      if identification_is (some replica.current) expected
      then ok (put_identification p uid (record replica { status = active }))
      else elim replica.tentative_identification [
        | some r ↦
            if identification_is (some r) expected
            then ok (
                put_identification p uid (record replica {
                  current = r;
                  tentative_identification = none;
                  status = active;
                }))
            else err conflicting_record
        | none ↦ err missing_tentative
      ]

  unfoldable pub discard_tentative_identification :
      RoUpSpaProvider P → Bytes → SignedIdentificationRecord P → Written
  discard_tentative_identification p uid expected =
      ok_or (p.identifications uid) missing_identification >>= λ replica.
      elim replica.tentative_identification [
        | some r ↦
            if identification_is (some r) expected
            then ok (put_identification p uid (record replica { tentative_identification = none }))
            else err conflicting_record
        | none ↦ err missing_tentative
      ]

  unfoldable pub mark_identification_status : RoUpSpaProvider P → Bytes → ReplicaStatus → Written
  mark_identification_status p uid status =
      ok_or (p.identifications uid) missing_identification >>= λ replica.
      ok (put_identification p uid (record replica { status = status }))

  unfoldable pub mark_account_status :
      RoUpSpaProvider P → AccountFamilyKey → ReplicaStatus → RoUpSpaProvider P
  mark_account_status p key status = elim (p.accounts key) [
    | some replica ↦ put_account p key (record replica { status = status })
    | none ↦ put_account p key (record { current = none; status = status })
  ]
