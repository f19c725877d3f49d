-- ===== src/UpSpa/Provider/Passwords.antt =====
-- crates/upspa/src/protocols/provider.rs: the handlers of a password update.
use threshold_password_authe.Base.{
  bytes_eq, ◌==◌, ok, err, and_then, insert, remove, leb, eqb, Bool, true, false, not, ◌&&◌, none,
  some, if◌then◌else◌,
}
use mathlib.Core.Logic.{ite}
use threshold_password_authe.Primitives.{Primitives}
use threshold_password_authe.Crypto.{blob_eq}
use threshold_password_authe.UpSpa.Messages.{UpSpaPasswordUpdateRequest, signed_bytes}
use threshold_password_authe.UpSpa.Provider.Disposition.{
  WriteDisposition, accepted, idempotent, ProviderFinalizationAction,
}
use threshold_password_authe.UpSpa.Provider.Records.{
  unreachable, unknown_user, pending_conflict, no_matching_pending, invalid_signature,
  wrong_provider_index, stale_timestamp, UpSpaIdentificationRecord, PendingUpSpaIdentification,
  UpSpaProvider, Answer, consume_finalization_fault,
}

module _ (P : Primitives) where
  unfoldable pub matches : PendingUpSpaIdentification P → UpSpaPasswordUpdateRequest P → Bool
  matches p r =
      (p.cidnew == r.cidnew)
      && (ite (P.scalar_dec p.share_new r.share_new) true false
          && (eqb p.time r.time
              && (eqb p.provider_index r.provider_index
                  && (P.signature_bytes p.signature == P.signature_bytes r.signature))))

  unfoldable pub pending_of : UpSpaPasswordUpdateRequest P → PendingUpSpaIdentification P
  pending_of r = record {
    cidnew = r.cidnew;
    share_new = r.share_new;
    time = r.time;
    provider_index = r.provider_index;
    signature = r.signature;
  }

  -- The checks of `prepare_password_update` on a proposal that is not pending yet, and its write.
  unfoldable pub hold_proposal :
      UpSpaProvider P
      → UpSpaIdentificationRecord P
      → UpSpaPasswordUpdateRequest P
      → Answer P WriteDisposition
  unfolding pending_of signed_bytes
  hold_proposal p held r =
      if leb r.time held.last_password_update_time
      then (err (stale_timestamp held.last_password_update_time r.time), p)
      else if not (P.verify held.svk (signed_bytes P r) r.signature)
      then (err invalid_signature, p)
      else (
        ok accepted,
        record p {
          pending_identifications = insert p.pending_identifications r.uid (pending_of r);
        },
      )

  unfoldable pub prepare_password_update :
      UpSpaProvider P → UpSpaPasswordUpdateRequest P → Answer P WriteDisposition
  unfolding matches hold_proposal
  prepare_password_update p r =
      if not p.reachable
      then (err unreachable, p)
      else if not (eqb r.provider_index p.provider_index)
      then (err (wrong_provider_index p.provider_index r.provider_index), p)
      else elim (p.identifications r.uid) [
        | none ↦ (err unknown_user, p)
        | some held ↦ elim (p.pending_identifications r.uid) [
          | some pending ↦
              if matches pending r then (ok idempotent, p) else (err pending_conflict, p)
          | none ↦ hold_proposal p held r
        ]
      ]

  abbrev pub renewed :
      UpSpaIdentificationRecord P → PendingUpSpaIdentification P → UpSpaIdentificationRecord P
  renewed held pending = record held {
    cid = pending.cidnew;
    share = pending.share_new;
    last_password_update_time = pending.time;
  }

  unfoldable pub store_password_update :
      UpSpaProvider P → UpSpaPasswordUpdateRequest P → Answer P WriteDisposition
  unfolding consume_finalization_fault matches
  store_password_update p r =
      if not p.reachable
      then (err unreachable, p)
      else and_then
          (consume_finalization_fault P p ProviderFinalizationAction.store_password_update)
          (λ u q. elim (q.pending_identifications r.uid) [
            | none ↦ (err no_matching_pending, q)
            | some pending ↦
                if not (matches pending r)
                then (err no_matching_pending, q)
                else elim (q.identifications r.uid) [
                  | none ↦ (err unknown_user, q)
                  | some held ↦ (
                    ok accepted,
                    record q {
                      identifications = insert q.identifications r.uid (renewed held pending);
                      pending_identifications = remove q.pending_identifications r.uid;
                    },
                  )
                ]
          ])

  unfoldable pub discard_password_update :
      UpSpaProvider P → UpSpaPasswordUpdateRequest P → Answer P WriteDisposition
  unfolding consume_finalization_fault matches
  discard_password_update p r =
      if not p.reachable
      then (err unreachable, p)
      else and_then
          (consume_finalization_fault P p ProviderFinalizationAction.discard_password_update)
          (λ u q. elim (q.pending_identifications r.uid) [
            | none ↦ (err no_matching_pending, q)
            | some pending ↦ if not (matches pending r) then (err no_matching_pending, q) else (
              ok accepted,
              record q { pending_identifications = remove q.pending_identifications r.uid },
            )
          ])
