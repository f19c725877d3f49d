-- ===== src/UpSpa/LoginServer.antt =====
-- crates/upspa/src/protocols/login_server.rs: the login server's verifiers and its two-phase
-- registration and secret update. An operation gives its answer and the server that it leaves.
pub mod Contract
use threshold_password_authe.Base.{
  Bytes, bytes_eq, Eq, ◌==◌, Result, ok, err, Reply, Map, empty, insert, remove, contains_key,
  is_value, Bool, true, not, Option, none, some, if◌then◌else◌, ℕ_discrete,
}
use threshold_password_authe.UpSpa.Provider.Disposition.{WriteDisposition, accepted, idempotent}

-- `VInfo`: the 32 bytes that the server keeps to check a login.
abbrev pub VInfo : Type 0
VInfo = Bytes

pub data PendingLsOperation : Type 0 where
  registration : VInfo → PendingLsOperation
  secret_update : VInfo → VInfo → PendingLsOperation

pub PendingLsOperation-discrete : Discrete PendingLsOperation
PendingLsOperation-discrete = hlevel ℕ_discrete

instance unfoldable pub operation_eq : Eq PendingLsOperation
unfolding PendingLsOperation-discrete
operation_eq = record { dec = PendingLsOperation-discrete }

unfoldable pub resulting_vinfo : PendingLsOperation → VInfo
resulting_vinfo (registration vinfo) = vinfo
resulting_vinfo (secret_update old_vinfo new_vinfo) = new_vinfo

pub data LoginServerError : Type 0 where
  unreachable already_registered not_registered : LoginServerError
  current_verifier_mismatch pending_conflict no_matching_pending : LoginServerError

pub record LoginServer : Type 0 where
  pub reachable : Bool
  pub current : Map Bytes VInfo
  pub pending : Map Bytes PendingLsOperation
  pub completed : Map Bytes PendingLsOperation

unfoldable pub new : LoginServer
new = record { reachable = true; current = empty; pending = empty; completed = empty }

unfoldable pub set_reachable : LoginServer → Bool → LoginServer
set_reachable s reachable = record s { reachable = reachable }

abbrev pub Answer : Type 0
Answer = Reply LoginServerError LoginServer WriteDisposition

unfoldable pub prepare_registration : LoginServer → Bytes → VInfo → Answer
prepare_registration s uid vinfo =
    let requested = registration vinfo in
    if not s.reachable then (err unreachable, s) else elim (s.pending uid) [
      | some pending ↦
          if pending == requested then (ok idempotent, s) else (err pending_conflict, s)
      | none ↦
          if contains_key s.current uid
          then (err already_registered, s)
          else (ok accepted, record s { pending = insert s.pending uid requested })
    ]

unfoldable pub prepare_secret_update : LoginServer → Bytes → VInfo → VInfo → Answer
prepare_secret_update s uid old_vinfo new_vinfo =
    let requested = secret_update old_vinfo new_vinfo in
    if not s.reachable then (err unreachable, s) else elim (s.pending uid) [
      | some pending ↦
          if pending == requested then (ok idempotent, s) else (err pending_conflict, s)
      | none ↦ elim (s.current uid) [
        | none ↦ (err not_registered, s)
        | some current ↦
            if not (current == old_vinfo)
            then (err current_verifier_mismatch, s)
            else (ok accepted, record s { pending = insert s.pending uid requested })
      ]
    ]

-- The check of `store` on the verifier that a secret update replaces.
unfoldable pub replaces : Option VInfo → PendingLsOperation → Bool
replaces current (registration vinfo) = true
replaces current (secret_update old_vinfo new_vinfo) = is_value current old_vinfo

-- The last three writes of `store`, after that check.
unfoldable pub commit : LoginServer → Bytes → PendingLsOperation → Answer
unfolding replaces resulting_vinfo
commit s uid expected =
    if not (replaces (s.current uid) expected) then (err current_verifier_mismatch, s) else (
      ok accepted,
      record s {
        current = insert s.current uid (resulting_vinfo expected);
        pending = remove s.pending uid;
        completed = insert s.completed uid expected;
      },
    )

unfoldable pub store : LoginServer → Bytes → PendingLsOperation → Answer
unfolding commit
store s uid expected = if not s.reachable then (err unreachable, s) else elim (s.pending uid) [
  | some pending ↦
      if pending == expected then commit s uid expected else (err no_matching_pending, s)
  | none ↦
      if is_value (s.completed uid) expected
      then (ok idempotent, s)
      else (err no_matching_pending, s)
]

unfoldable pub discard : LoginServer → Bytes → PendingLsOperation → Answer
discard s uid expected =
    if not s.reachable
    then (err unreachable, s)
    else if is_value (s.pending uid) expected
    then (ok accepted, record s { pending = remove s.pending uid })
    else (err no_matching_pending, s)

unfoldable pub authenticate : LoginServer → Bytes → VInfo → Result LoginServerError Bool
authenticate s uid supplied =
    if not s.reachable then err unreachable else ok (is_value (s.current uid) supplied)

unfoldable pub current_vinfo : LoginServer → Bytes → Option VInfo
current_vinfo s uid = s.current uid
