-- ===== src/LoginServer.antt =====
-- crates/upspa-quorum/src/protocols/login_server.rs: the login server's verifiers and its two-phase
-- registration and secret update. An operation takes the server and gives it back changed.
pub mod Consistency
pub mod Commit
use threshold_password_authe.Base.{
  Bytes, bytes_eq, Eq, ◌==◌, Result, ok, err, Map, empty, insert, remove, contains_key, Bool, true,
  false, not, ◌&&◌, Option, none, some, if◌then◌else◌, ◌≡◌, ℕ_discrete,
}

-- `VInfo`: the 32 bytes that the server keeps to check a login.
abbrev pub VInfo : Type 0
VInfo = Bytes

pub data PendingLsOperation : Type 0 where
  registration : VInfo → PendingLsOperation
  secret_update : VInfo → VInfo → PendingLsOperation

pub PendingLsOperation-discrete : Discrete PendingLsOperation
PendingLsOperation-discrete = hlevel ℕ_discrete

instance unfoldable pub operation_eq : Eq PendingLsOperation
unfolding PendingLsOperation-discrete
operation_eq = record { dec = PendingLsOperation-discrete }

unfoldable pub resulting_vinfo : PendingLsOperation → VInfo
resulting_vinfo (registration vinfo) = vinfo
resulting_vinfo (secret_update old_vinfo new_vinfo) = new_vinfo

pub data LoginServerError : Type 0 where
  existing_account missing_account verifier_mismatch : LoginServerError
  conflicting_pending_operation pending_operation_mismatch : LoginServerError

pub record LoginServer : Type 0 where
  pub current : Map Bytes VInfo
  pub pending : Map Bytes PendingLsOperation
  pub last_stored : Map Bytes PendingLsOperation
  pub last_discarded : Map Bytes PendingLsOperation

unfoldable pub new : LoginServer
new = record { current = empty; pending = empty; last_stored = empty; last_discarded = empty }

-- `map.get(uid) == Some(&operation)`.
abbrev pub holds : {A : Type 0} ⦃e : Eq A⦄ → Map Bytes A → Bytes → A → Bool
holds m uid a = elim (m uid) [ none ↦ false | some b ↦ b == a ]

-- The server and the operation that it will report, or the error that leaves the server as it was.
abbrev pub Prepared : Type 0
Prepared = Result LoginServerError (LoginServer × PendingLsOperation)

abbrev enter : LoginServer → Bytes → PendingLsOperation → Prepared
enter s uid operation = ok (record s { pending = insert s.pending uid operation }, operation)

unfoldable pub prepare_registration : LoginServer → Bytes → VInfo → Prepared
prepare_registration s uid vinfo =
    let operation = registration vinfo in
    if holds s.pending uid operation
    then ok (s, operation)
    else if contains_key s.pending uid
    then err conflicting_pending_operation
    else if contains_key s.current uid
    then err existing_account
    else enter s uid operation

unfoldable pub prepare_secret_update : LoginServer → Bytes → VInfo → VInfo → Prepared
prepare_secret_update s uid old_vinfo new_vinfo =
    let operation = secret_update old_vinfo new_vinfo in
    if holds s.pending uid operation
    then ok (s, operation)
    else if contains_key s.pending uid
    then err conflicting_pending_operation
    else elim (s.current uid) [
      | some current ↦ if current == old_vinfo then enter s uid operation else err verifier_mismatch
      | none ↦ err missing_account
    ]

-- The `match operation` of `store`: the new table of verifiers.
apply_operation :
    Map Bytes VInfo → Bytes → PendingLsOperation → Result LoginServerError (Map Bytes VInfo)
apply_operation current uid (registration vinfo) =
    if contains_key current uid then err existing_account else ok (insert current uid vinfo)
apply_operation current uid (secret_update old_vinfo new_vinfo) = elim (current uid) [
  | some held ↦
      if held == old_vinfo then ok (insert current uid new_vinfo) else err verifier_mismatch
  | none ↦ err missing_account
]

unfoldable pub store :
    LoginServer → Bytes → PendingLsOperation → Result LoginServerError LoginServer
unfolding apply_operation
store s uid operation =
    if holds s.last_stored uid operation && not (contains_key s.pending uid)
    then ok s
    else if not (holds s.pending uid operation)
    then err pending_operation_mismatch
    else elim (apply_operation s.current uid operation) [
      | err e ↦ err e
      | ok current ↦ ok (record s {
        current = current;
        pending = remove s.pending uid;
        last_discarded = remove s.last_discarded uid;
        last_stored = insert s.last_stored uid operation;
      })
    ]

unfoldable pub discard :
    LoginServer → Bytes → PendingLsOperation → Result LoginServerError LoginServer
discard s uid operation =
    if holds s.last_discarded uid operation && not (contains_key s.pending uid)
    then ok s
    else if holds s.pending uid operation
    then ok (record s {
      pending = remove s.pending uid;
      last_discarded = insert s.last_discarded uid operation;
    })
    else err pending_operation_mismatch

unfoldable pub authenticate : LoginServer → Bytes → VInfo → Bool
authenticate s uid supplied = holds s.current uid supplied

unfoldable pub current_verifier : LoginServer → Bytes → Option VInfo
current_verifier s uid = s.current uid
