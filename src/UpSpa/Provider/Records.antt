-- ===== src/UpSpa/Provider/Records.antt =====
-- crates/upspa/src/protocols/provider.rs: the provider's tables, its injected faults, set-up and
-- identification. A counter that only the source's tests read is left out.
use threshold_password_authe.Base.{
  ℕ, Bytes, bytes_eq, Result, ok, err, ok_or, ◌>>=◌, Reply, Map, empty, insert, contains_key,
  HashSet, no_members, add_member, remove_member, Bool, true, Option, none, some, if◌then◌else◌,
}
use threshold_password_authe.Primitives.{Primitives}
use threshold_password_authe.Crypto.{CtBlob}
use threshold_password_authe.UpSpa.Provider.Disposition.{ProviderFinalizationAction, action_eq}

-- `WrongProviderIndex` has the expected index first, `StaleTimestamp` the committed time.
pub data ProviderError : Type 0 where
  unreachable duplicate_setup unknown_user invalid_point : ProviderError
  account_already_exists account_does_not_exist : ProviderError
  pending_conflict no_matching_pending invalid_signature : ProviderError
  wrong_provider_index : ℕ → ℕ → ProviderError
  stale_timestamp : ℕ → ℕ → ProviderError
  injected_finalization_failure : ProviderFinalizationAction → ProviderError

pub record UpSpaAccountSlot : Type 0 where
  pub committed : Option CtBlob
  pub pending : Option CtBlob

module _ (P : Primitives) where
  pub record UpSpaIdentificationRecord : Type 0 where
    pub uid : Bytes
    pub svk : P.VerifyingKey
    pub cid : CtBlob
    pub share : P.Scalar
    pub last_password_update_time : ℕ

  pub record PendingUpSpaIdentification : Type 0 where
    pub cidnew : CtBlob
    pub share_new : P.Scalar
    pub time : ℕ
    pub provider_index : ℕ
    pub signature : P.Signature

  pub record UpSpaIdentificationResponse : Type 0 where
    pub provider_index : ℕ
    pub svk : P.VerifyingKey
    pub cid : CtBlob
    pub toprf_contribution : Option Bytes

  pub record UpSpaProvider : Type 0 where
    pub provider_index : ℕ
    pub reachable : Bool
    pub identifications : Map Bytes UpSpaIdentificationRecord
    pub pending_identifications : Map Bytes PendingUpSpaIdentification
    pub accounts : Map Bytes UpSpaAccountSlot
    pub account_responses_enabled : Bool
    pub finalization_faults : HashSet ProviderFinalizationAction

  abbrev pub Answer : Type 0 → Type 0
  Answer A = Reply ProviderError UpSpaProvider A

  -- The source asserts that the index is not zero.
  unfoldable pub new : ℕ → UpSpaProvider
  new provider_index = record {
    provider_index = provider_index;
    reachable = true;
    identifications = empty;
    pending_identifications = empty;
    accounts = empty;
    account_responses_enabled = true;
    finalization_faults = no_members;
  }

  unfoldable pub set_reachable : UpSpaProvider → Bool → UpSpaProvider
  set_reachable p reachable = record p { reachable = reachable }

  unfoldable pub set_account_responses_enabled : UpSpaProvider → Bool → UpSpaProvider
  set_account_responses_enabled p enabled = record p { account_responses_enabled = enabled }

  unfoldable pub inject_finalization_failure :
      UpSpaProvider → ProviderFinalizationAction → UpSpaProvider
  inject_finalization_failure p action = record p {
    finalization_faults = add_member p.finalization_faults action;
  }

  unfoldable pub consume_finalization_fault :
      UpSpaProvider → ProviderFinalizationAction → Answer (Unit {0})
  consume_finalization_fault p action =
      if p.finalization_faults action
      then (
        err (injected_finalization_failure action),
        record p { finalization_faults = remove_member p.finalization_faults action },
      )
      else (ok tt, p)

  unfoldable pub require_reachable : UpSpaProvider → Result ProviderError (Unit {0})
  require_reachable p = if p.reachable then ok tt else err unreachable

  unfoldable pub can_setup : UpSpaProvider → Bytes → Result ProviderError (Unit {0})
  unfolding require_reachable
  can_setup p uid = require_reachable p >>= λ u.
      if contains_key p.identifications uid then err duplicate_setup else ok tt

  unfoldable pub setup :
      UpSpaProvider → Bytes → P.VerifyingKey → CtBlob → P.Scalar → Answer (Unit {0})
  unfolding can_setup
  setup p uid svk cid share = elim (can_setup p uid) [
    | err e ↦ (err e, p)
    | ok u ↦ (
      ok tt,
      record p {
        identifications = insert p.identifications uid (record {
          uid = uid;
          svk = svk;
          cid = cid;
          share = share;
          last_password_update_time = 0;
        });
      },
    )
  ]

  -- The provider's part of the pseudo-random function, when a blinded point is sent.
  unfoldable pub contribution : P.Scalar → Option Bytes → Result ProviderError (Option Bytes)
  contribution share none = ok none
  contribution share (some encoded) = ok_or (P.decompress encoded) invalid_point >>= λ blinded.
      ok (some (P.compress (P.point_mul blinded share)))

  unfoldable pub identification_response :
      UpSpaProvider → Bytes → Option Bytes → Result ProviderError UpSpaIdentificationResponse
  unfolding require_reachable contribution
  identification_response p uid blinded_point = require_reachable p >>= λ u.
      ok_or (p.identifications uid) unknown_user >>= λ r.
      contribution r.share blinded_point >>= λ part. ok (record {
        provider_index = p.provider_index;
        svk = r.svk;
        cid = r.cid;
        toprf_contribution = part;
      })
