-- ===== src/LoginServer/Commit.antt =====
-- login_server.rs: what the terminal Store and the Discard of a prepared operation do.
use threshold_password_authe.Base.{
  Bytes, bytes_eq, ◌==◌, ok, err, insert, remove, ◌≡◌, refl, ◌≢◌, none, some, arith, if◌then◌else◌,
}
use threshold_password_authe.LoginServer.{
  VInfo, PendingLsOperation, registration, secret_update, operation_eq, resulting_vinfo,
  LoginServer, prepare_registration, prepare_secret_update, store, discard,
  pending_operation_mismatch,
}
use threshold_password_authe.LoginServer.Consistency.{IsConsistent}

-- The tables after a Store of `operation`: its verifier is current, and nothing is pending for the
-- user. No other user is touched.
pub record Committed (s t : LoginServer) (uid : Bytes) (operation : PendingLsOperation)
    : Type 0 where
  pub current :
      (j : Bytes)
      → t.current j ≡ (if j == uid then some (resulting_vinfo operation) else s.current j)
  pub pending : (j : Bytes) → t.pending j ≡ (if j == uid then none else s.pending j)
  pub last_stored :
      (j : Bytes) → t.last_stored j ≡ (if j == uid then some operation else s.last_stored j)

-- A Store of the operation that is pending at a consistent login server succeeds: its verifier
-- becomes the user's current one, nothing is pending for the user any more, the operation is
-- recorded as the last one stored, and no other user's verifier, pending or last stored operation
-- changes.
pub store_commits :
    (s : LoginServer) (uid : Bytes) (operation : PendingLsOperation)
    → IsConsistent s
    → s.pending uid ≡ some operation
    → (t : LoginServer) × (store s uid operation ≡ ok t) × Committed s t uid operation
unfolding store resulting_vinfo
store_commits s uid (registration v) c p = (
  record s {
    current = insert s.current uid v;
    pending = remove s.pending uid;
    last_discarded = remove s.last_discarded uid;
    last_stored = insert s.last_stored uid (registration v);
  },
  ground (arith, c uid),
  record { current = λ j. refl; pending = λ j. refl; last_stored = λ j. refl },
)
store_commits s uid (secret_update o n) c p = (
  record s {
    current = insert s.current uid n;
    pending = remove s.pending uid;
    last_discarded = remove s.last_discarded uid;
    last_stored = insert s.last_stored uid (secret_update o n);
  },
  ground (arith, c uid),
  record { current = λ j. refl; pending = λ j. refl; last_stored = λ j. refl },
)

-- After a Store that succeeded, a second delivery of the same Store succeeds and changes nothing.
pub store_again :
    (s t : LoginServer) (uid : Bytes) (operation : PendingLsOperation)
    → store s uid operation ≡ ok t
    → store t uid operation ≡ ok t
unfolding store
store_again s t uid (registration v) h = ground arith
store_again s t uid (secret_update o n) h = ground arith

-- After a Discard that succeeded, a second delivery of the same Discard succeeds and changes
-- nothing.
pub discard_again :
    (s t : LoginServer) (uid : Bytes) (operation : PendingLsOperation)
    → discard s uid operation ≡ ok t
    → discard t uid operation ≡ ok t
unfolding discard
discard_again s t uid operation h = ground arith

-- A Store of an operation that is neither the user's pending one nor the last one stored for the
-- user fails as a mismatch.
pub store_mismatch :
    (s : LoginServer) (uid : Bytes) (operation : PendingLsOperation)
    → s.pending uid ≢ some operation
    → s.last_stored uid ≢ some operation
    → store s uid operation ≡ err pending_operation_mismatch
unfolding store
store_mismatch s uid operation p l = ground arith

-- Preparing an operation again while it is pending gives the same operation and the same server.
pub prepare_again :
    (s t : LoginServer) (uid : Bytes) (v : VInfo) {operation : PendingLsOperation}
    → prepare_registration s uid v ≡ ok (t, operation)
    → prepare_registration t uid v ≡ ok (t, operation)
unfolding prepare_registration
prepare_again s t uid v h = ground arith

pub prepare_update_again :
    (s t : LoginServer) (uid : Bytes) (o n : VInfo) {operation : PendingLsOperation}
    → prepare_secret_update s uid o n ≡ ok (t, operation)
    → prepare_secret_update t uid o n ≡ ok (t, operation)
unfolding prepare_secret_update
prepare_update_again s t uid o n h = ground arith
