-- ===== src/UpSpa/LoginServer/Contract.antt =====
-- crates/upspa/src/protocols/login_server.rs: the login server implements the two-phase contract for
-- each user, whatever calls it gets.
use threshold_password_authe.Base.{
  Bytes, bytes_eq, List, [], ◌∷◌, refl, Option, none, some, arith, Bool, ◌==◌, if◌then◌else◌, is_ok,
}
use threshold_password_authe.UpSpa.TwoPhase.{
  Cell, Action, proposes, stores, discards, nothing, CellStep, CellRun, done, next,
}
use threshold_password_authe.UpSpa.LoginServer.{
  VInfo, PendingLsOperation, operation_eq, resulting_vinfo, LoginServer, set_reachable,
  prepare_registration, prepare_secret_update, store, discard,
}

abbrev pub proposed_vinfo : Option PendingLsOperation → Option VInfo
proposed_vinfo none = none
proposed_vinfo (some operation) = some (resulting_vinfo operation)

-- What the contract sees of a server, for one user.
unfoldable pub view : LoginServer → Bytes → Cell VInfo
view s uid = record { committed = s.current uid; proposed = proposed_vinfo (s.pending uid) }

pub data Call : Type 0 where
  prepares_registration : Bytes → VInfo → Call
  prepares_secret_update : Bytes → VInfo → VInfo → Call
  stores_operation : Bytes → PendingLsOperation → Call
  discards_operation : Bytes → PendingLsOperation → Call
  becomes_reachable : Bool → Call

pub step : LoginServer → Call → LoginServer
step s (prepares_registration uid v) = (prepare_registration s uid v).1
step s (prepares_secret_update uid old_v new_v) = (prepare_secret_update s uid old_v new_v).1
step s (stores_operation uid operation) = (store s uid operation).1
step s (discards_operation uid operation) = (discard s uid operation).1
step s (becomes_reachable reachable) = set_reachable s reachable

pub run : LoginServer → List Call → LoginServer
run s [] = s
run s (c ∷ cs) = run (step s c) cs

-- What a call asks for one user, and whether the server grants it.
unfoldable pub action_of : LoginServer → Call → Bytes → Action VInfo
unfolding resulting_vinfo
action_of s (prepares_registration uid v) j =
    if j == uid then proposes (is_ok ((prepare_registration s uid v).0)) v else nothing
action_of s (prepares_secret_update uid old_v new_v) j =
    if j == uid
    then proposes (is_ok ((prepare_secret_update s uid old_v new_v).0)) new_v
    else nothing
action_of s (stores_operation uid operation) j =
    if j == uid
    then stores (is_ok ((store s uid operation).0)) (resulting_vinfo operation)
    else nothing
action_of s (discards_operation uid operation) j =
    if j == uid
    then discards (is_ok ((discard s uid operation).0)) (resulting_vinfo operation)
    else nothing
action_of s (becomes_reachable reachable) j = nothing

-- What the calls ask for one user, in their order.
unfoldable pub actions_of : LoginServer → List Call → Bytes → List (Action VInfo)
unfolding action_of
actions_of s [] j = []
actions_of s (c ∷ cs) j = action_of s c j ∷ actions_of (step s c) cs j

prepare_registration-CellStep :
    (s : LoginServer) (uid j : Bytes) (v : VInfo)
    → CellStep VInfo
        (if j == uid then proposes (is_ok ((prepare_registration s uid v).0)) v else nothing)
        (view s j)
        (view ((prepare_registration s uid v).1) j)
unfolding prepare_registration view resulting_vinfo
prepare_registration-CellStep s uid j v = ground arith

prepare_secret_update-CellStep :
    (s : LoginServer) (uid j : Bytes) (old_v new_v : VInfo)
    → CellStep VInfo
        (if j == uid
          then proposes (is_ok ((prepare_secret_update s uid old_v new_v).0)) new_v
          else nothing)
        (view s j)
        (view ((prepare_secret_update s uid old_v new_v).1) j)
unfolding prepare_secret_update view resulting_vinfo
prepare_secret_update-CellStep s uid j old_v new_v = ground arith

store-CellStep :
    (s : LoginServer) (uid j : Bytes) (operation : PendingLsOperation)
    → CellStep VInfo
        (if j == uid
          then stores (is_ok ((store s uid operation).0)) (resulting_vinfo operation)
          else nothing)
        (view s j)
        (view ((store s uid operation).1) j)
unfolding store view resulting_vinfo
store-CellStep s uid j operation = ground arith

discard-CellStep :
    (s : LoginServer) (uid j : Bytes) (operation : PendingLsOperation)
    → CellStep VInfo
        (if j == uid
          then discards (is_ok ((discard s uid operation).0)) (resulting_vinfo operation)
          else nothing)
        (view s j)
        (view ((discard s uid operation).1) j)
unfolding discard view
discard-CellStep s uid j operation = ground arith

pub step-CellStep :
    (s : LoginServer) (c : Call) (j : Bytes)
    → CellStep VInfo (action_of s c j) (view s j) (view (step s c) j)
unfolding step view set_reachable action_of
step-CellStep s (prepares_registration uid v) j = prepare_registration-CellStep s uid j v
step-CellStep s (prepares_secret_update uid old_v new_v) j =
    prepare_secret_update-CellStep s uid j old_v new_v
step-CellStep s (stores_operation uid operation) j = store-CellStep s uid j operation
step-CellStep s (discards_operation uid operation) j = discard-CellStep s uid j operation
step-CellStep s (becomes_reachable reachable) j = (refl, refl)

-- Whatever calls UpSPA's login server gets, in any order and whether they fail or not, each user's
-- verifier goes through a run of the two-phase contract whose actions are what the calls ask and
-- the server grants: a granted prepare proposes its new verifier, and only where no other is
-- proposed; a granted Store makes the proposed verifier current, or finds none proposed and changes
-- nothing; a granted Discard removes the proposal it names, and keeps the current verifier; and a
-- call that is not granted, or is for another user, changes nothing.
pub server_run-CellRun :
    (s : LoginServer) (cs : List Call) (j : Bytes)
    → CellRun VInfo (actions_of s cs j) (view s j) (view (run s cs) j)
unfolding run actions_of
server_run-CellRun s [] j = done (view s j)
server_run-CellRun s (c ∷ cs) j =
    next (action_of s c j) (actions_of (step s c) cs j) (view s j) (view (step s c) j)
      (view (run (step s c) cs) j) (step-CellStep s c j) (server_run-CellRun (step s c) cs j)
