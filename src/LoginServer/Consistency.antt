-- ===== src/LoginServer/Consistency.antt =====
-- login_server.rs: what every history of calls keeps. A pending operation still fits the verifier
-- that was current when it was prepared.
use threshold_password_authe.Base.{
  Bytes, bytes_eq, Result, ok, err, List, [], ◌∷◌, ◌≡◌, Option, none, some, arith,
}
use threshold_password_authe.LoginServer.{
  VInfo, PendingLsOperation, registration, secret_update, operation_eq, LoginServer,
  LoginServerError, new, prepare_registration, prepare_secret_update, store, discard,
}

-- The verifier that an operation was prepared against.
abbrev pub Fits : Option VInfo → PendingLsOperation → Type 0
Fits current (registration vinfo) = current ≡ none
Fits current (secret_update old_vinfo new_vinfo) = current ≡ some old_vinfo

abbrev pub FitsPending : Option VInfo → Option PendingLsOperation → Type 0
FitsPending current none = Unit {0}
FitsPending current (some operation) = Fits current operation

abbrev pub IsConsistent : LoginServer → Type 0
IsConsistent s = (uid : Bytes) → FitsPending (s.current uid) (s.pending uid)

pub new-IsConsistent : IsConsistent new
unfolding new
new-IsConsistent uid = tt

pub data Call : Type 0 where
  prepares_registration : Bytes → VInfo → Call
  prepares_secret_update : Bytes → VInfo → VInfo → Call
  stores : Bytes → PendingLsOperation → Call
  discards : Bytes → PendingLsOperation → Call

-- The server after a call: a call that fails leaves it as it was.
abbrev pub after : LoginServer → Result LoginServerError LoginServer → LoginServer
after s (ok s') = s'
after s (err e) = s

abbrev pub after_prepare :
    LoginServer → Result LoginServerError (LoginServer × PendingLsOperation) → LoginServer
after_prepare s (ok (s', operation)) = s'
after_prepare s (err e) = s

pub step : LoginServer → Call → LoginServer
step s (prepares_registration uid v) = after_prepare s (prepare_registration s uid v)
step s (prepares_secret_update uid old_v new_v) =
    after_prepare s (prepare_secret_update s uid old_v new_v)
step s (stores uid operation) = after s (store s uid operation)
step s (discards uid operation) = after s (discard s uid operation)

pub run : LoginServer → List Call → LoginServer
run s [] = s
run s (c ∷ cs) = run (step s c) cs

pub prepare_registration-IsConsistent :
    (s : LoginServer) (uid : Bytes) (v : VInfo)
    → IsConsistent s
    → IsConsistent (after_prepare s (prepare_registration s uid v))
unfolding prepare_registration
prepare_registration-IsConsistent s uid v c j = ground (arith, c j, c uid)

pub prepare_secret_update-IsConsistent :
    (s : LoginServer) (uid : Bytes) (old_v new_v : VInfo)
    → IsConsistent s
    → IsConsistent (after_prepare s (prepare_secret_update s uid old_v new_v))
unfolding prepare_secret_update
prepare_secret_update-IsConsistent s uid old_v new_v c j = ground (arith, c j, c uid)

store-IsConsistent :
    (s : LoginServer) (uid : Bytes) (operation : PendingLsOperation)
    → IsConsistent s
    → IsConsistent (after s (store s uid operation))
unfolding store
store-IsConsistent s uid (registration v) c j = ground (arith, c j, c uid)
store-IsConsistent s uid (secret_update old_v new_v) c j = ground (arith, c j, c uid)

discard-IsConsistent :
    (s : LoginServer) (uid : Bytes) (operation : PendingLsOperation)
    → IsConsistent s
    → IsConsistent (after s (discard s uid operation))
unfolding discard
discard-IsConsistent s uid operation c j = ground (arith, c j, c uid)

pub step-IsConsistent : (s : LoginServer) (c : Call) → IsConsistent s → IsConsistent (step s c)
unfolding step
step-IsConsistent s (prepares_registration uid v) h = prepare_registration-IsConsistent s uid v h
step-IsConsistent s (prepares_secret_update uid old_v new_v) h =
    prepare_secret_update-IsConsistent s uid old_v new_v h
step-IsConsistent s (stores uid operation) h = store-IsConsistent s uid operation h
step-IsConsistent s (discards uid operation) h = discard-IsConsistent s uid operation h

-- From a consistent login server, after any calls in any order, whether they fail or not, every
-- pending registration is for a user without a verifier and every pending secret update starts from
-- the user's current verifier.
pub run-IsConsistent : (s : LoginServer) (cs : List Call) → IsConsistent s → IsConsistent (run s cs)
unfolding run
run-IsConsistent s [] h = h
run-IsConsistent s (c ∷ cs) h = run-IsConsistent (step s c) cs (step-IsConsistent s c h)
