-- ===== src/System/Setup.antt =====
-- crates/upspa-quorum/src/protocols/roupspa.rs: a new client with its providers, and the set-up that
-- gives each provider its share and the first identification record.
pub mod Install
pub mod Completion
pub mod Start
pub mod Unlock
use threshold_password_authe.Base.{
  ℕ, zero, suc, ◌+◌, ◌%◌, Bytes, bytes_eq, Result, ok, err, ◌>>=◌, Map, empty, insert, contains_key,
  Eq, Bool, true, false, not, ◌||◌, List, [], ◌∷◌, map, length, set, get_elem?, any, keep, Option,
  none, some, if◌then◌else◌, ℕ_discrete,
}
use Prim.Native.Nat.{min}
use threshold_password_authe.Primitives.{Primitives}
use threshold_password_authe.Crypto.{
  toprf_gen, oprf_finalize, hash_to_point, xchacha_encrypt_detached,
}
use threshold_password_authe.Messages.{
  setup_write_request_bytes, status_bytes, encode_roupspa_identification_record,
}
use threshold_password_authe.Messages.Trace.{
  ProtocolTrace, setup_write, user, provider, all_responses, push,
}
use threshold_password_authe.LoginServer
use threshold_password_authe.Provider.{
  RoUpSpaProvider, ProviderError, SignedIdentificationRecord, install_setup,
}
use threshold_password_authe.Provider.Reads
use threshold_password_authe.Thresholds.{validate_thresholds}
use threshold_password_authe.Thresholds.Errors.{
  PhaseError, invalid_provider_index, duplicate_setup, setup_requires_all_providers,
  provider_rejected,
}
use threshold_password_authe.System.Types.{
  PhaseResult, completed, aborted, RoUpSpaSystem, Outcome, digest_bytes, cipherid_aad,
}
use threshold_password_authe.System.Plaintext.{make_identification_plaintext}

instance abbrev pub id_eq : Eq ℕ
id_eq = record { dec = ℕ_discrete }

-- What a set-up draws from its generator, in the order of the source.
pub record SetupDraws (P : Primitives) : Type 0 where
  pub a0 : P.Scalar
  pub coeffs : List P.Scalar
  pub ssk : P.SigningKey
  pub rsp : Bytes
  pub k0 : Bytes
  pub nonce : Bytes

module _ (P : Primitives) where
  -- `id as u32` for `rounds` ids from `id` upwards.
  unfoldable pub new_providers : ℕ → ℕ → List (RoUpSpaProvider P)
  unfolding Reads.new
  new_providers zero id = []
  new_providers (suc rounds) id = Reads.new P (id % 4294967296) ∷ new_providers rounds (id + 1)

  -- The fields that `with_identity` gives a client.
  abbrev pub new_client : ℕ → ℕ → ℕ → Bytes → Bytes → Bytes → Bytes → Bytes → RoUpSpaSystem P
  new_client nsp tsp qsp uid lsj password new_password seed = record {
    nsp = nsp;
    tsp = tsp;
    qsp = qsp;
    uid = uid;
    lsj = lsj;
    password = password;
    new_password = new_password;
    providers = new_providers nsp 1;
    login_server = LoginServer.new;
    last_trace = [];
    initialized = false;
    seed = seed;
    operation_counter = 0;
    account_operations = empty;
    identification_operations = empty;
    initial_toprf_key_commitment = none;
    toprf_share_commitments = empty;
  }

  -- Also `new`, which passes the default identity.
  unfoldable pub with_identity :
      ℕ → ℕ → ℕ → Bytes → Bytes → Bytes → Bytes → Bytes → Result PhaseError (RoUpSpaSystem P)
  unfolding new_providers
  with_identity nsp tsp qsp uid lsj password new_password seed =
      validate_thresholds nsp tsp qsp >>= λ _.
      ok (new_client nsp tsp qsp uid lsj password new_password seed)

  unfoldable pub set_provider_reachable : RoUpSpaSystem P → ℕ → Bool → Outcome P (Unit {0})
  set_provider_reachable s index reachable = elim (get_elem? s.providers index) [
    | none ↦ (err (invalid_provider_index index), s)
    | some p ↦
        (ok tt, record s { providers = set s.providers index (record p { reachable = reachable }) })
  ]

  abbrev restore : RoUpSpaProvider P → RoUpSpaProvider P
  restore p = record p { reachable = true }

  unfoldable pub silence : List (RoUpSpaProvider P) → ℕ → List (RoUpSpaProvider P)
  silence ps index = elim (get_elem? ps index) [
    | none ↦ ps
    | some p ↦ set ps index (record p { reachable = false })
  ]

  -- The second loop of `set_rotating_unavailable`, for `rounds` indices from `index` upwards.
  unfoldable pub silence_from : ℕ → ℕ → ℕ → ℕ → List (RoUpSpaProvider P) → List (RoUpSpaProvider P)
  unfolding silence
  silence_from nsp offset zero index ps = ps
  silence_from nsp offset (suc rounds) index ps =
      silence_from nsp offset rounds (index + 1) (silence ps ((offset + index) % nsp))

  unfoldable pub set_rotating_unavailable : RoUpSpaSystem P → ℕ → ℕ → RoUpSpaSystem P
  unfolding silence_from
  set_rotating_unavailable s unavailable offset =
      let restored = map restore s.providers in
      record s { providers = silence_from s.nsp offset (min unavailable s.nsp) 0 restored }

  unfoldable pub reachable_count : RoUpSpaSystem P → ℕ
  reachable_count s = length (keep (λ p. p.reachable) s.providers)

  -- The loop of the set-up over shares and providers, which the first error ends: the error, the
  -- providers, and the commitments to the shares.
  unfoldable pub install_all :
      Bytes
      → P.VerifyingKey
      → SignedIdentificationRecord P
      → List (ℕ × P.Scalar)
      → List (RoUpSpaProvider P)
      → Map ℕ Bytes
      → Option ProviderError × List (RoUpSpaProvider P) × Map ℕ Bytes
  install_all uid svk r [] ps commitments = (none, ps, commitments)
  install_all uid svk r ((id, share) ∷ shares) [] commitments = (none, [], commitments)
  install_all uid svk r ((id, share) ∷ shares) (p ∷ ps) commitments =
      elim (install_setup P p uid svk r share) [
        | err e ↦ (some e, p ∷ ps, commitments)
        | ok q ↦
            let rest =
              install_all uid svk r shares ps (insert commitments id (P.scalar_bytes share)) in
            (rest.0, q ∷ rest.1, rest.2)
      ]

  -- The first identification record, sealed under the client's password.
  unfoldable pub setup_record : RoUpSpaSystem P → SetupDraws P → SignedIdentificationRecord P
  setup_record s d =
      let state_key = oprf_finalize P s.password (P.point_mul (hash_to_point P s.password) d.a0) in
      record {
        cid =
            xchacha_encrypt_detached P state_key (cipherid_aad P s)
              (make_identification_plaintext P d.ssk d.rsp d.k0 0) d.nonce;
        ctrid = 0;
        signature = none;
      }

  -- What follows the loop: the error that ended it, if any, the providers and the commitments.
  unfoldable pub finish_setup :
      RoUpSpaSystem P
      → ProtocolTrace
      → P.Scalar
      → SignedIdentificationRecord P
      → Option ProviderError × List (RoUpSpaProvider P) × Map ℕ Bytes
      → PhaseResult × RoUpSpaSystem P
  finish_setup s trace toprf_key r (some e, providers, commitments) = (
    aborted (provider_rejected e) trace,
    record s { providers = providers; toprf_share_commitments = commitments; last_trace = trace },
  )
  finish_setup s trace toprf_key r (none, providers, commitments) = (
    completed s.nsp (digest_bytes P (encode_roupspa_identification_record s.uid r.cid r.ctrid)) none
        trace,
    record s {
      providers = providers;
      toprf_share_commitments = commitments;
      last_trace = trace;
      initialized = true;
      initial_toprf_key_commitment = some (digest_bytes P (P.scalar_bytes toprf_key));
    },
  )

  -- The part of the set-up after its checks.
  unfoldable pub run_setup :
      RoUpSpaSystem P → SetupDraws P → ProtocolTrace → PhaseResult × RoUpSpaSystem P
  unfolding finish_setup install_all
  run_setup s d trace =
      let (toprf_key, shares) = toprf_gen P s.nsp d.a0 d.coeffs in
      let r = setup_record s d in
      finish_setup s trace toprf_key r
        (install_all s.uid (P.verifying_key d.ssk) r shares s.providers s.toprf_share_commitments)

  -- The two checks, in their order.
  unfoldable pub setup_refusal : RoUpSpaSystem P → Option PhaseError
  setup_refusal s =
      if s.initialized
        || any (λ p. contains_key p.identifications s.uid || contains_key p.shares s.uid)
            s.providers
      then some duplicate_setup
      else if any (λ p. not p.reachable) s.providers
      then some setup_requires_all_providers
      else none

  abbrev setup_trace : RoUpSpaSystem P → ProtocolTrace
  setup_trace s = push [] (record {
    stage_id = 1;
    stage = setup_write;
    sender_role = user;
    receiver_role = provider;
    recipient_count = s.nsp;
    request_bytes = setup_write_request_bytes s.uid;
    response_bytes = status_bytes;
    wait_policy = all_responses;
    acknowledgements = s.nsp;
  })

  unfoldable pub setup_with_rng : RoUpSpaSystem P → SetupDraws P → PhaseResult × RoUpSpaSystem P
  unfolding setup_refusal run_setup
  setup_with_rng s d =
      let trace = setup_trace s in
      elim (setup_refusal s) [
        | some error ↦ (aborted error trace, record s { last_trace = trace })
        | none ↦ run_setup s d trace
      ]
