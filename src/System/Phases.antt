-- ===== src/System/Phases.antt =====
-- crates/upspa-quorum/src/protocols/roupspa.rs: the phases as a whole. A phase begins, writes to every
-- provider that is reachable, and delivers the Store if the write is ready.
pub mod Reaching
pub mod Liveness
pub mod Registration
pub mod Attempt
pub mod Begun
pub mod Completion
pub mod Stores
pub mod Root
pub mod Password
use threshold_password_authe.Base.{
  ℕ, zero, suc, ◌+◌, Bytes, Result, ok, err, Bool, true, List, [], ◌∷◌, map, codes, Option, none,
  some, if◌then◌else◌,
}
use threshold_password_authe.Primitives.{Primitives}
use threshold_password_authe.Crypto.{hash_vinfo}
use threshold_password_authe.Messages.{login_server_registration_bytes, status_bytes}
use threshold_password_authe.Messages.Trace.{
  ProtocolTrace, identification, ls_authentication, user, login_server, all_responses, push,
  next_stage_id,
}
use threshold_password_authe.LoginServer.{authenticate}
use threshold_password_authe.Provider.{RoUpSpaProvider, AccountFamilyKey}
use threshold_password_authe.Thresholds.Errors.{PhaseError}
use threshold_password_authe.System.Types.{
  PhaseResult, completed, aborted, AccountWriteKind, registration, secret_update, RoUpSpaSystem,
  Outcome, digest_bytes, operation_seed,
}
use threshold_password_authe.System.Reads.{common_identification, shared_suid}
use threshold_password_authe.System.AccountRead.{read_account}
use threshold_password_authe.System.Account.{attempt_account_write}
use threshold_password_authe.System.Account.Begin.{
  begin_registration_with_rng, begin_secret_update_with_rng,
}
use threshold_password_authe.System.Account.Deliver.{deliver_account_store}
use threshold_password_authe.System.Password.{
  begin_password_update_with_rng, attempt_password_update_write,
}
use threshold_password_authe.System.Password.Deliver.{deliver_password_update_store}

-- What an account operation draws from its generator: the blinding scalar, the secret, the nonce.
pub record AccountDraws (P : Primitives) : Type 0 where
  pub blind : P.Scalar
  pub rlsj : Bytes
  pub nonce : Bytes

-- What a password update draws: a blinding scalar for each password, and the nonce.
pub record PasswordDraws (P : Primitives) : Type 0 where
  pub blind : P.Scalar
  pub new_blind : P.Scalar
  pub nonce : Bytes

module _ (P : Primitives) where
  -- The indices, from `index` upwards, of the providers that are reachable.
  unfoldable pub reachable_from : ℕ → List (RoUpSpaProvider P) → List ℕ
  reachable_from index [] = []
  reachable_from index (p ∷ ps) =
      let rest = reachable_from (index + 1) ps in if p.reachable then index ∷ rest else rest

  unfoldable pub reachable_indices : RoUpSpaSystem P → List ℕ
  unfolding reachable_from
  reachable_indices s = reachable_from 0 s.providers

  -- `unwrap_or_else`: the result, or `Aborted` with the last trace.
  unfoldable pub or_aborted : Outcome P PhaseResult → PhaseResult × RoUpSpaSystem P
  or_aborted (ok result, s) = (result, s)
  or_aborted (err error, s) = (aborted error s.last_trace, s)

  -- The `match` on the result of a write: a Store follows where it is ready.
  unfoldable pub after_write :
      (RoUpSpaSystem P → Outcome P PhaseResult)
      → Outcome P PhaseResult
      → PhaseResult × RoUpSpaSystem P
  unfolding or_aborted
  after_write deliver (ok (PhaseResult.ready_for_terminal_store n required digest trace), s) =
      or_aborted (deliver s)
  after_write deliver (ok (completed n digest decision trace), s) =
      (completed n digest decision trace, s)
  after_write deliver (ok (aborted error trace), s) = (aborted error trace, s)
  after_write deliver (ok (PhaseResult.unresolved n required digest trace), s) =
      (PhaseResult.unresolved n required digest trace, s)
  after_write deliver (err error, s) = (aborted error s.last_trace, s)

  -- What both account phases do once they have begun.
  unfoldable pub after_begin :
      AccountWriteKind → Outcome P AccountFamilyKey → PhaseResult × RoUpSpaSystem P
  unfolding after_write reachable_indices
  after_begin kind (err error, s) = (aborted error s.last_trace, s)
  after_begin kind (ok key, s) =
      after_write (λ t. deliver_account_store P t key)
        (attempt_account_write P kind s key (reachable_indices s))

  unfoldable pub registration_with_rng :
      RoUpSpaSystem P → AccountDraws P → PhaseResult × RoUpSpaSystem P
  unfolding after_begin
  registration_with_rng s d =
      after_begin registration (begin_registration_with_rng P s d.blind d.rlsj d.nonce)

  unfoldable pub secret_update_with_rng :
      RoUpSpaSystem P → AccountDraws P → PhaseResult × RoUpSpaSystem P
  unfolding after_begin
  secret_update_with_rng s d =
      after_begin secret_update (begin_secret_update_with_rng P s d.blind d.rlsj d.nonce)

  -- The part of an authentication after the reads.
  unfoldable pub decide : RoUpSpaSystem P → Bytes → ProtocolTrace → Outcome P Bool
  decide s rlsj trace = (
    ok (authenticate s.login_server s.uid (hash_vinfo P rlsj s.lsj)),
    record s {
      last_trace = push trace (record {
        stage_id = next_stage_id trace;
        stage = ls_authentication;
        sender_role = user;
        receiver_role = login_server;
        recipient_count = 1;
        request_bytes = login_server_registration_bytes s.uid;
        response_bytes = status_bytes;
        wait_policy = all_responses;
        acknowledgements = 1;
      });
    },
  )

  -- An error leaves the client as it was, its last trace too.
  unfoldable pub authenticate_with_rng : RoUpSpaSystem P → P.Scalar → Outcome P Bool
  unfolding decide
  authenticate_with_rng s blind =
      elim (common_identification P s s.password identification [] blind) [
        | err e ↦ (err e, s)
        | ok (recovered, identified) ↦
            let key : AccountFamilyKey = record {
              uid = s.uid;
              suid = shared_suid P s recovered.rsp;
            } in
            elim (read_account P s key recovered.k0 recovered.svk identified) [
              | err e ↦ (err e, s)
              | ok (account, trace) ↦ decide s account.rlsj trace
            ]
      ]

  -- `draw` is the generator: what it gives for a seed.
  unfoldable pub authentication :
      (Bytes → P.Scalar) → RoUpSpaSystem P → PhaseResult × RoUpSpaSystem P
  unfolding authenticate_with_rng operation_seed
  authentication draw s =
      let (seed, counted) = operation_seed P s (codes "authenticate") in
      let (result, t) = authenticate_with_rng counted (draw seed) in
      elim result [
        | ok decision ↦ (
          completed (if decision then 1 else 0) (digest_bytes P t.uid) (some decision) t.last_trace,
          t,
        )
        | err error ↦ (aborted error t.last_trace, t)
      ]

  unfoldable pub password_update_with_rng :
      RoUpSpaSystem P → PasswordDraws P → PhaseResult × RoUpSpaSystem P
  unfolding after_write reachable_indices
  password_update_with_rng s d =
      let (begun, t) = begin_password_update_with_rng P s d.blind d.new_blind d.nonce in
      elim begun [
        | err error ↦ (aborted error t.last_trace, t)
        | ok started ↦
            after_write (deliver_password_update_store P)
              (attempt_password_update_write P t (reachable_indices t))
      ]

  -- The seeded forms of the phases.
  unfoldable pub registration_phase :
      (Bytes → AccountDraws P) → RoUpSpaSystem P → PhaseResult × RoUpSpaSystem P
  registration_phase draw s =
      let (seed, counted) = operation_seed P s (codes "registration") in
      registration_with_rng counted (draw seed)

  unfoldable pub secret_update_phase :
      (Bytes → AccountDraws P) → RoUpSpaSystem P → PhaseResult × RoUpSpaSystem P
  secret_update_phase draw s =
      let (seed, counted) = operation_seed P s (codes "secret-update") in
      secret_update_with_rng counted (draw seed)

  unfoldable pub password_update_phase :
      (Bytes → PasswordDraws P) → RoUpSpaSystem P → PhaseResult × RoUpSpaSystem P
  password_update_phase draw s =
      let (seed, counted) = operation_seed P s (codes "password-update") in
      password_update_with_rng counted (draw seed)

  unfoldable pub provider_share_bytes : RoUpSpaSystem P → List (Option Bytes)
  provider_share_bytes s =
      map (λ p. elim (p.shares s.uid) [ none ↦ none | some share ↦ some (P.scalar_bytes share) ])
        s.providers
