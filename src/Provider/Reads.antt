-- ===== src/Provider/Reads.antt =====
-- crates/upspa-quorum/src/protocols/provider.rs: a new provider, its set-up and its read handlers.
use threshold_password_authe.Base.{
  ℕ, Bytes, bytes_eq, Result, ok, ok_or, ◌>>=◌, empty, insert, contains_key, is_some, Bool, true,
  not, ◌&&◌, ◌||◌, Option, none, some, eqb,
}
use threshold_password_authe.Primitives.{Primitives}
use threshold_password_authe.Provider.Records.{
  active, is_active, ProviderError, unreachable, duplicate_setup, guard, missing_identification,
  missing_share, invalid_setup_record, SignedIdentificationRecord, SignedAccountRecord,
  AccountFamilyKey, key_eq, IdentificationResponse, RoUpSpaProvider,
}

module _ (P : Primitives) where
  open P use {Point, Scalar, VerifyingKey}

  unfoldable pub new : ℕ → RoUpSpaProvider P
  new id = record {
    id = id;
    reachable = true;
    shares = empty;
    identifications = empty;
    accounts = empty;
  }

  unfoldable pub set_reachable : RoUpSpaProvider P → Bool → RoUpSpaProvider P
  set_reachable p reachable = record p { reachable = reachable }

  unfoldable pub install_setup :
      RoUpSpaProvider P
      → Bytes
      → VerifyingKey
      → SignedIdentificationRecord P
      → Scalar
      → Result ProviderError (RoUpSpaProvider P)
  install_setup p uid svk r share = guard p.reachable unreachable (
      guard (eqb r.ctrid 0 && not (is_some r.signature)) invalid_setup_record (
        guard (not (contains_key p.identifications uid || contains_key p.shares uid))
          duplicate_setup
          (ok (record p {
            shares = insert p.shares uid share;
            identifications = insert p.identifications uid (record {
              svk = svk;
              current = r;
              status = active;
              tentative_identification = none;
            });
          }))))

  -- `None` asks for no evaluation.
  evaluate : RoUpSpaProvider P → Bytes → Option Point → Result ProviderError (Option Point)
  evaluate p uid none = ok none
  evaluate p uid (some point) = do
    share ← ok_or (p.shares uid) missing_share
    ok (some (P.point_mul point share))

  unfoldable pub identification_response :
      RoUpSpaProvider P → Bytes → Option Point → Result ProviderError (IdentificationResponse P)
  unfolding evaluate
  identification_response p uid blinded = guard p.reachable unreachable (
      ok_or (p.identifications uid) missing_identification >>= λ replica.
      guard (is_active replica.status) ProviderError.stale (
        evaluate p uid blinded >>= λ toprf_response. ok (record {
          provider_id = p.id;
          svk = replica.svk;
          current = replica.current;
          toprf_response = toprf_response;
        })))

  unfoldable pub account_response :
      RoUpSpaProvider P → AccountFamilyKey → Result ProviderError (SignedAccountRecord P)
  account_response p key = guard p.reachable unreachable (
      ok_or (p.accounts key) ProviderError.stale >>= λ replica.
      guard (is_active replica.status) ProviderError.stale
        (ok_or replica.current ProviderError.stale))

  unfoldable pub verifying_key : RoUpSpaProvider P → Bytes → Result ProviderError VerifyingKey
  verifying_key p uid =
      ok_or (p.identifications uid) missing_identification >>= λ replica. ok replica.svk
