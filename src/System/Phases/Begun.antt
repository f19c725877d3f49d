-- ===== src/System/Phases/Begun.antt =====
-- roupspa.rs: what the start of an account operation leaves: an operation that the login server waits
-- for, with the verifiers as they were.
use threshold_password_authe.Base.{
  ℕ, ◌+◌, ◌≡◌, refl, inl, inr, Bytes, bytes_eq, ok, err, insert_self, not, [], some, arith,
  Bool-cases, Option-cases, Result-cases, checked_succ,
}
use mathlib.Core.Path.{subst}
use threshold_password_authe.Primitives.{Primitives}
use threshold_password_authe.Crypto.{hash_vinfo, xchacha_encrypt_detached}
use threshold_password_authe.Messages.{encode_roupspa_account_record}
use threshold_password_authe.System.Plaintext.{make_account_plaintext}
use threshold_password_authe.Messages.Trace.{ProtocolTrace, identification}
use threshold_password_authe.LoginServer
use threshold_password_authe.LoginServer.{
  LoginServer, PendingLsOperation, Prepared, VInfo, prepare_registration, prepare_secret_update,
  operation_eq,
}
use threshold_password_authe.LoginServer.Consistency.{
  IsConsistent, prepare_registration-IsConsistent, prepare_secret_update-IsConsistent,
}
use threshold_password_authe.Provider.{AccountFamilyKey, key_eq, SignedAccountRecord, family}
use threshold_password_authe.System.Types.{
  AccountWriteKind, registration, secret_update, AccountOperationContext, RoUpSpaSystem, Outcome,
  RecoveredIdentification, RecoveredAccount, ciphersp_aad,
}
use threshold_password_authe.System.Reads.{
  common_identification, is_idle, account_operation_state, shared_suid,
}
use threshold_password_authe.System.AccountRead.{read_account}
use threshold_password_authe.System.Account.Begin.{
  seal_account, finish_begin, begin_registration_with_rng, begin_update_of,
  begin_secret_update_with_rng,
}
use threshold_password_authe.System.Account.Frame.{AllAlike-refl}
use threshold_password_authe.System.Account.Invariant.{AccountsSound, insert-OperationSound}

-- The login server's answer leaves the verifiers, and holds the operation as the user's pending one.
abbrev pub PreparedFor : LoginServer → Bytes → PendingLsOperation → Prepared → Type 0
PreparedFor s uid operation (err e) = Unit {0}
PreparedFor s uid operation (ok (t, reported)) =
    (reported ≡ operation)
    × (t.pending uid ≡ some operation)
    × ((j : Bytes) → t.current j ≡ s.current j)
    × IsConsistent t

prepare_registration-PreparedFor :
    (s : LoginServer) (uid : Bytes) (v : VInfo)
    → IsConsistent s
    → PreparedFor s uid (LoginServer.registration v) (prepare_registration s uid v)
prepare_registration-PreparedFor s uid v c = elim (Result-cases (prepare_registration s uid v)) [
  | inr (e, f) ↦ rw f tt
  | inl ((t, reported), f) ↦ rw f (
    unfold prepare_registration in ground arith,
    unfold prepare_registration in ground arith,
    λ j. unfold prepare_registration in ground arith,
    rw f at (prepare_registration-IsConsistent s uid v c),
  )
]

prepare_secret_update-PreparedFor :
    (s : LoginServer) (uid : Bytes) (o n : VInfo)
    → IsConsistent s
    → PreparedFor s uid (LoginServer.secret_update o n) (prepare_secret_update s uid o n)
prepare_secret_update-PreparedFor s uid o n c =
    elim (Result-cases (prepare_secret_update s uid o n)) [
      | inr (e, f) ↦ rw f tt
      | inl ((t, reported), f) ↦ rw f (
        unfold prepare_secret_update in ground arith,
        unfold prepare_secret_update in ground arith,
        λ j. unfold prepare_secret_update in ground arith,
        rw f at (prepare_secret_update-IsConsistent s uid o n c),
      )
    ]

module _ (P : Primitives) (s : RoUpSpaSystem P) where
  -- What an account phase means to do: the family, the record, and the login server's operation.
  abbrev pub Plan : Type 1
  Plan = AccountFamilyKey → SignedAccountRecord P → PendingLsOperation → Type 0

  -- A record that the client's keys seal and sign, for a secret and a counter.
  abbrev pub IsSealed :
      RecoveredIdentification P → Bytes → Bytes → ℕ → Bytes → SignedAccountRecord P → Type 0
  IsSealed found suid rlsj ctr nonce r =
      (r.uid ≡ s.uid)
      × (r.suid ≡ suid)
      × (r.ctr ≡ ctr)
      × (r.cj
          ≡ xchacha_encrypt_detached P found.k0 (ciphersp_aad P s) (make_account_plaintext rlsj ctr)
              nonce)
      × (r.signature ≡ P.sign found.ssk (encode_roupspa_account_record s.uid suid r.cj ctr))

  seal_account-IsSealed :
      (found : RecoveredIdentification P) (suid rlsj : Bytes) (ctr : ℕ) (nonce : Bytes)
      → IsSealed found suid rlsj ctr nonce (seal_account P s found suid rlsj ctr nonce)
  unfolding seal_account
  seal_account-IsSealed found suid rlsj ctr nonce = (refl, refl, refl, refl, refl)

  -- A registration: what the client's identification gives seals the secret `rlsj` at the counter 0,
  -- and the login server gets the verifier of that secret.
  abbrev pub PlansRegistration : P.Scalar → Bytes → Bytes → Plan
  PlansRegistration blind rlsj nonce key r operation =
      (found : RecoveredIdentification P) × (trace : ProtocolTrace) × (common_identification P s
          s.password identification [] blind
        ≡ ok (found, trace))
      × (key ≡ record { uid = s.uid; suid = shared_suid P s found.rsp })
      × IsSealed found key.suid rlsj 0 nonce r
      × (operation ≡ LoginServer.registration (hash_vinfo P rlsj s.lsj))

  -- A secret update: the secret `rlsj` is sealed at the counter after that of the account that was
  -- read, and the login server gets both verifiers.
  abbrev pub PlansUpdate : P.Scalar → Bytes → Bytes → Plan
  PlansUpdate blind rlsj nonce key r operation =
      (found : RecoveredIdentification P) × (identified : ProtocolTrace) × (old : RecoveredAccount
        P)
      × (trace : ProtocolTrace) × (common_identification P s s.password identification [] blind
          ≡ ok (found, identified))
      × (key ≡ record { uid = s.uid; suid = shared_suid P s found.rsp })
      × (read_account P s key found.k0 found.svk identified ≡ ok (old, trace))
      × IsSealed found key.suid rlsj (old.account.ctr + 1) nonce r
      × (operation
          ≡ LoginServer.secret_update (hash_vinfo P old.rlsj s.lsj) (hash_vinfo P rlsj s.lsj))

  -- The client `t` has a planned operation in flight for the family, and the login server waits for
  -- it.
  pub record Begun (plan : Plan) (key : AccountFamilyKey) (t : RoUpSpaSystem P) : Type 0 where
    pub context : AccountOperationContext P
    pub wanted : PendingLsOperation
    pub planned : plan key context.account wanted
    pub present : t.account_operations key ≡ some context
    pub operation : context.ls_operation ≡ wanted
    pub pending : t.login_server.pending t.uid ≡ some wanted
    pub current : (j : Bytes) → t.login_server.current j ≡ s.login_server.current j
    pub consistent : IsConsistent t.login_server
    pub sound : AccountsSound P t
    pub uid : t.uid ≡ s.uid
    pub qsp : t.qsp ≡ s.qsp

  -- Either the login server is as it was, or the operation has begun.
  abbrev pub Begins : Plan → Outcome P AccountFamilyKey → Type 0
  Begins plan (err e, t) = t.login_server ≡ s.login_server
  Begins plan (ok key, t) = Begun plan key t

  module _ (sound : AccountsSound P s) where
    finish_begin-Begins :
        (plan : Plan) (kind : AccountWriteKind) (key : AccountFamilyKey) (r : SignedAccountRecord P)
        (bytes : ℕ) (trace : ProtocolTrace) (operation : PendingLsOperation) (prepared : Prepared)
        → plan key r operation
        → family P r ≡ key
        → PreparedFor s.login_server s.uid operation prepared
        → Begins plan (finish_begin P s kind key r bytes trace prepared)
    unfolding finish_begin
    finish_begin-Begins plan kind key r bytes trace operation (err e) planned filed h = refl
    finish_begin-Begins plan kind key r bytes trace operation (ok (server, reported)) planned filed
          h =
        record {
          context = _;
          wanted = operation;
          planned = planned;
          present = insert_self s.account_operations key _;
          operation = h.0;
          pending = h.1;
          current = h.2;
          consistent = h.3;
          sound = record {
            numbered = sound.numbered;
            operations = λ j.
                insert-OperationSound P s s.providers key j _ sound
                  (λ other. AllAlike-refl P j s.providers) (filed, tt);
          };
          uid = refl;
          qsp = refl;
        }

    module _ (consistent : IsConsistent s.login_server) where
      -- The start of a registration of the secret `rlsj`.
      pub begin_registration-Begins :
          (blind : P.Scalar) (rlsj nonce : Bytes)
          → Begins
              (PlansRegistration blind rlsj nonce)
              (begin_registration_with_rng P s blind rlsj nonce)
      unfolding begin_registration_with_rng
      begin_registration-Begins blind rlsj nonce =
          elim (Result-cases (common_identification P s s.password identification [] blind)) [
            | inr (e, f) ↦ rw (f, begin_registration_with_rng) refl
            | inl ((recovered, trace), f) ↦
                elim (Bool-cases (
                  not (
                    is_idle (
                      account_operation_state P s
                        (record { uid = s.uid; suid = shared_suid P s recovered.rsp }))))) [
                          | inl busy ↦ rw (f, begin_registration_with_rng, busy) refl
                          | inr quiet ↦
                              rw (f, begin_registration_with_rng, quiet)
                                (finish_begin-Begins (PlansRegistration blind rlsj nonce)
                                  registration _ _ _ trace _ _
                                  (
                                    recovered,
                                    trace,
                                    f,
                                    refl,
                                    seal_account-IsSealed recovered _ rlsj 0 nonce,
                                    refl,
                                  )
                                  (unfold seal_account in refl)
                                  (prepare_registration-PreparedFor s.login_server s.uid
                                    (hash_vinfo P rlsj s.lsj) consistent))
                        ]
          ]

      begin_update_of-Begins :
          (plan : Plan) (recovered : RecoveredIdentification P) (suid old_rlsj rlsj nonce : Bytes)
          (old_ctr : ℕ) (trace : ProtocolTrace)
          → plan
              (record { uid = s.uid; suid = suid })
              (seal_account P s recovered suid rlsj (old_ctr + 1) nonce)
              (LoginServer.secret_update (hash_vinfo P old_rlsj s.lsj) (hash_vinfo P rlsj s.lsj))
          → Begins plan (
              begin_update_of P s recovered
                (record { uid = s.uid; suid = suid })
                old_ctr
                old_rlsj
                rlsj
                nonce
                trace)
      unfolding begin_update_of
      begin_update_of-Begins plan recovered suid old_rlsj rlsj nonce old_ctr trace planned =
          elim (Option-cases (checked_succ old_ctr)) [
            | inl over ↦ rw (over, begin_update_of) refl
            | inr (ctr, next) ↦
                let same : old_ctr + 1 ≡ ctr = ground (arith, next) in
                rw (next, begin_update_of)
                  (finish_begin-Begins plan secret_update _ _ _ trace _ _
                    (subst
                      (λ n.
                        plan (record { uid = s.uid; suid = suid })
                          (seal_account P s recovered suid rlsj n nonce)
                          (LoginServer.secret_update (hash_vinfo P old_rlsj s.lsj)
                            (hash_vinfo P rlsj s.lsj)))
                      same planned)
                    (unfold seal_account in refl)
                    (prepare_secret_update-PreparedFor s.login_server s.uid _ _ consistent))
          ]

      -- The start of a secret update to the secret `rlsj`, from the account that was read.
      pub begin_secret_update-Begins :
          (blind : P.Scalar) (rlsj nonce : Bytes)
          → Begins
              (PlansUpdate blind rlsj nonce)
              (begin_secret_update_with_rng P s blind rlsj nonce)
      unfolding begin_secret_update_with_rng
      begin_secret_update-Begins blind rlsj nonce =
          elim (Result-cases (common_identification P s s.password identification [] blind)) [
            | inr (e, f) ↦ rw (f, begin_secret_update_with_rng) refl
            | inl ((recovered, identified), f) ↦
                let key : AccountFamilyKey = record {
                  uid = s.uid;
                  suid = shared_suid P s recovered.rsp;
                } in
                elim (Result-cases (read_account P s key recovered.k0 recovered.svk identified)) [
                  | inr (e, g) ↦ rw (f, begin_secret_update_with_rng, g) refl
                  | inl ((old, trace), g) ↦
                      rw (f, begin_secret_update_with_rng, g)
                        (begin_update_of-Begins (PlansUpdate blind rlsj nonce) recovered _ old.rlsj
                          rlsj nonce old.account.ctr trace
                          (
                            recovered,
                            identified,
                            old,
                            trace,
                            f,
                            refl,
                            g,
                            seal_account-IsSealed recovered _ rlsj (old.account.ctr + 1) nonce,
                            refl,
                          ))
                ]
          ]
