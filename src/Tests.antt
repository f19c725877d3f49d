-- ===== src/Tests.antt =====
-- Each theorem of the results at a concrete input.
mod Coordinated
mod Recovery
mod Toy
mod Registering
mod Ternary
mod Sharing
mod Phases
mod Reading
mod Codes
mod Writes
use threshold_password_authe.Base.{
  ℕ, ◌+◌, ◌≤◌, ◌<◌, ◌≡◌, ◌≢◌, refl, ◌⊎◌, inl, inr, Bytes, bytes_eq, ok, err, Bool, true, false,
  ◌&&◌, Option, none, some, List, [], ◌∷◌, ◌++◌, length, map, arith, ℕ_discrete, eqb, leb, All, any,
  empty, insert,
}
use threshold_password_authe.Thresholds.{validate_thresholds, minimum_quorum_size}
use threshold_password_authe.Thresholds.Intersection.{
  count, quorums_intersect, minimum_quorum_least,
}
use threshold_password_authe.Thresholds.Errors.{discard_forbidden}
use threshold_password_authe.Messages.Trace.{ProtocolTrace}
use threshold_password_authe.LoginServer
use threshold_password_authe.LoginServer.{
  LoginServer, operation_eq, store, pending_operation_mismatch, prepare_secret_update,
}
use threshold_password_authe.LoginServer.Consistency.{
  IsConsistent, Call, prepares_registration, stores, prepares_secret_update, new-IsConsistent,
  run-IsConsistent,
}
use threshold_password_authe.LoginServer.Consistency
use threshold_password_authe.LoginServer.Commit.{
  Committed, store_commits, store_again, discard_again, store_mismatch, prepare_again,
}
use threshold_password_authe.Provider.{
  RoUpSpaProvider, AccountFamilyKey, key_eq, SignedAccountRecord, active, family, account_response,
  accept_registration_account, accept_secret_update_account, accept_tentative_identification,
}
use threshold_password_authe.Provider.Reads
use threshold_password_authe.Provider.History
use threshold_password_authe.Provider.History.{Request}
use threshold_password_authe.Provider.Counters.{AccountsAdvance, run-AccountsAdvance}
use threshold_password_authe.Provider.Validity.{IsValid, new-IsValid, run-IsValid}
use threshold_password_authe.System.Types.{
  completed, digest_bytes, exact_account_tuple, exact_identification_tuple,
}
use threshold_password_authe.System.Account.{
  retry_inflight_account_write, abort_account_before_write,
}
use threshold_password_authe.System.Account.Deliver.{deliver_account_store, acknowledged_set}
use threshold_password_authe.System.Account.Invariant.{AccountsSound, retry-AccountsSound}
use threshold_password_authe.System.Account.Commit.{
  Delivered, deliver_commits, deliver-AccountsSound,
}
use threshold_password_authe.System.Account.Abort.{abort_after_attempt, abort-AccountsSound}
use threshold_password_authe.System.Password.Deliver.{deliver_password_update_store}
use threshold_password_authe.System.Password.Commit.{
  Proposed, Updated, deliver_password_commits, write_all-Proposed,
}
use threshold_password_authe.System.Writes.{write_all}
use threshold_password_authe.System.Writes.Counting.{AcceptedSound}
use Toy.{
  toy, toy-IsLawful, text32, alice, alice_key, signed, r0, replica, root0, root1, rooted, keeper,
  context_of, password_context, server, system,
}
use Registering.{
  keepers, ready, with_operation, ready-AccountsSound, fresh, prepared, prepared-AccountsSound,
  server-IsConsistent,
}

deliver_commits_example :
    let s = with_operation keepers ready in
    (trace : ProtocolTrace) × ((deliver_account_store toy s alice_key).0
      ≡ ok (completed 2 (digest_bytes toy (exact_account_tuple toy r0)) none trace))
    × Delivered toy s
        (deliver_account_store toy s alice_key).1
        alice_key
        (context_of ready)
        (1 ∷ 2 ∷ [])
unfolding bytes_eq ℕ_discrete key_eq acknowledged_set
deliver_commits_example =
    deliver_commits toy (with_operation keepers ready) alice_key (context_of ready) (1 ∷ 2 ∷ [])
      ready-AccountsSound server-IsConsistent refl refl refl

abort_after_attempt_example :
    abort_account_before_write toy
      (retry_inflight_account_write toy (with_operation fresh prepared) alice_key (0 ∷ 2 ∷ [])).1
      alice_key
    ≡ (
      err discard_forbidden,
      (retry_inflight_account_write toy (with_operation fresh prepared) alice_key (0 ∷ 2 ∷ [])).1,
    )
unfolding retry_inflight_account_write bytes_eq ℕ_discrete key_eq
abort_after_attempt_example =
    abort_after_attempt toy (with_operation fresh prepared) alice_key (0 ∷ 2 ∷ []) refl

retry-AccountsSound_example :
    AccountsSound toy
      (retry_inflight_account_write toy (with_operation fresh prepared) alice_key (0 ∷ 2 ∷ [])).1
retry-AccountsSound_example =
    retry-AccountsSound toy (with_operation fresh prepared) alice_key (0 ∷ 2 ∷ [])
      prepared-AccountsSound

quorums_intersect_example : 2 ≤ count (λ i. leb i 3 && leb 2 i) (1 ∷ 2 ∷ 3 ∷ 4 ∷ [])
unfolding validate_thresholds
quorums_intersect_example =
    quorums_intersect 4 2 3 (λ i. leb i 3) (λ i. leb 2 i) (1 ∷ 2 ∷ 3 ∷ 4 ∷ []) refl refl
      (omega arith) (omega arith)

minimum_quorum_least_example :
    (q : ℕ) × (minimum_quorum_size 4 2 ≡ ok q) × (validate_thresholds 4 2 q ≡ ok tt) × (q ≤ 4)
unfolding validate_thresholds
minimum_quorum_least_example = minimum_quorum_least 4 2 4 refl

run-IsConsistent_example : IsConsistent (
    Consistency.run LoginServer.new (
      prepares_registration alice text32
      ∷ stores alice (LoginServer.registration text32)
      ∷ prepares_secret_update alice text32 (1 ∷ [])
      ∷ []))
run-IsConsistent_example =
    run-IsConsistent LoginServer.new
      (prepares_registration alice text32
        ∷ stores alice (LoginServer.registration text32)
        ∷ prepares_secret_update alice text32 (1 ∷ [])
        ∷ [])
      new-IsConsistent

run-AccountsAdvance_example : AccountsAdvance toy (keeper r0 1) (
    History.run toy
      (keeper r0 1)
      (Request.registers (signed 0 7) ∷ Request.updates (signed 1 9) ∷ []))
run-AccountsAdvance_example =
    run-AccountsAdvance toy (keeper r0 1)
      (Request.registers (signed 0 7) ∷ Request.updates (signed 1 9) ∷ [])

run-IsValid_example : IsValid toy (
    History.run toy
      (Reads.new toy 1)
      (Request.sets_up alice 5 (root0) 1 ∷ Request.registers (signed 0 7) ∷ []))
run-IsValid_example =
    run-IsValid toy (Reads.new toy 1)
      (Request.sets_up alice 5 (root0) 1 ∷ Request.registers (signed 0 7) ∷ []) (new-IsValid toy 1)
