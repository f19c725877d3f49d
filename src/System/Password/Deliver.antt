-- ===== src/System/Password/Deliver.antt =====
-- crates/upspa-quorum/src/protocols/roupspa.rs: the one-way Store of a password update at the providers.
use threshold_password_authe.Base.{
  Bytes, bytes_eq, ok, err, remove, List, [], ◌∷◌, length, Option, none, some, if◌then◌else◌,
}
use threshold_password_authe.Base.IdSet
use threshold_password_authe.Base.IdSet.{IdSet}
use threshold_password_authe.Primitives.{Primitives}
use threshold_password_authe.Messages.{encode_roupspa_identification_record}
use threshold_password_authe.Messages.Trace.{
  one_way_provider_store, user, provider, one_way_delivery_bound, push, next_stage_id,
}
use threshold_password_authe.Provider.{
  RoUpSpaProvider, ProviderError, SignedIdentificationRecord, ReplicaStatus, active,
  store_tentative_identification, mark_identification_status,
}
use threshold_password_authe.Thresholds.Errors.{provider_rejected, no_in_flight_operation}
use threshold_password_authe.System.Types.{
  PhaseResult, completed, IdentificationOperationContext, RoUpSpaSystem, Outcome, digest_bytes,
  exact_identification_tuple,
}
use threshold_password_authe.System.Account.Deliver.{acknowledged_set}

module _ (P : Primitives) where
  -- The Store at one provider: the error that ends the loop, if any, and the provider after it.
  unfoldable pub store_at :
      Bytes
      → SignedIdentificationRecord P
      → IdSet
      → RoUpSpaProvider P
      → Option ProviderError × RoUpSpaProvider P
  store_at uid r acknowledged p =
      if IdSet.mem p.id acknowledged
      then elim (store_tentative_identification P p uid r) [
        | err e ↦ (some e, p)
        | ok q ↦ elim (mark_identification_status P q uid active) [
          | err e ↦ (some e, q)
          | ok t ↦ (none, t)
        ]
      ]
      else elim (mark_identification_status P p uid ReplicaStatus.stale) [
        | err e ↦ (some e, p)
        | ok q ↦ (none, q)
      ]

  -- The loop over the providers, which the first error ends.
  unfoldable pub store_all :
      Bytes
      → SignedIdentificationRecord P
      → IdSet
      → List (RoUpSpaProvider P)
      → Option ProviderError × List (RoUpSpaProvider P)
  store_all uid r acknowledged [] = (none, [])
  store_all uid r acknowledged (p ∷ ps) =
      let (failed, q) = store_at uid r acknowledged p in
      elim failed [
        | some e ↦ (some e, q ∷ ps)
        | none ↦ let rest = store_all uid r acknowledged ps in (rest.0, q ∷ rest.1)
      ]

  unfoldable pub finish_password_delivery :
      RoUpSpaSystem P
      → IdentificationOperationContext P
      → IdSet
      → List (RoUpSpaProvider P)
      → Outcome P PhaseResult
  finish_password_delivery s context acknowledged providers =
      let r = context.root in
      let trace = push context.trace (record {
        stage_id = next_stage_id context.trace;
        stage = one_way_provider_store;
        sender_role = user;
        receiver_role = provider;
        recipient_count = length acknowledged;
        request_bytes = length (encode_roupspa_identification_record s.uid r.cid r.ctrid);
        response_bytes = 0;
        wait_policy = one_way_delivery_bound;
        acknowledgements = 0;
      }) in
      (
        ok (
            completed (length acknowledged) (digest_bytes P (exact_identification_tuple P s.uid r))
              none trace),
        record s {
          providers = providers;
          password = context.new_password;
          identification_operations = remove s.identification_operations s.uid;
          last_trace = trace;
        },
      )

  unfoldable pub deliver_password_update_store : RoUpSpaSystem P → Outcome P PhaseResult
  deliver_password_update_store s = elim (s.identification_operations s.uid) [
    | none ↦ (err no_in_flight_operation, s)
    | some context ↦ elim (acknowledged_set context.state) [
      | err e ↦ (err e, s)
      | ok acknowledged ↦
          let (failed, providers) = store_all s.uid context.root acknowledged s.providers in
          elim failed [
            | some e ↦ (err (provider_rejected e), record s { providers = providers })
            | none ↦ finish_password_delivery s context acknowledged providers
          ]
    ]
  ]
