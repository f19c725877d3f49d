-- ===== src/Tests/Sharing.antt =====
-- The theorem on the threshold OPRF at a concrete polynomial over the field of three elements.
use threshold_password_authe.Base.{
  ℕ, inr, none, Bytes, ◌≡◌, refl, ok, false, bytes_eq, ℕ_discrete, le_bytes, [], ◌∷◌, map, arith,
}
use mathlib.Core.List.{List, Memᴰ}
use threshold_password_authe.Crypto.{
  lagrange_coeffs_at, hash_to_point, toprf_gen, hash_roupspa_suid, lagrange_coeffs_at_zero,
  oprf_finalize, toprf_client_eval_from_partials,
}
use threshold_password_authe.Crypto.Lagrange.{lagrange_coeffs_at-zero}
use threshold_password_authe.Crypto.Oprf.{toprf_client_eval-toprf_gen}
use threshold_password_authe.Messages.Trace.{ProtocolTrace, identification}
use threshold_password_authe.Thresholds.{validate_thresholds}
use threshold_password_authe.System.Types.{RoUpSpaSystem}
use threshold_password_authe.Provider.{install_setup, accept_registration_account}
use threshold_password_authe.System.Reads.{
  common_identification, root_operation_state, validate_identification_record,
  account_operation_state, shared_suid,
}
use threshold_password_authe.System.Reads.Unlock.{common_identification-Seals}
use threshold_password_authe.System.Setup.{
  SetupDraws, new_client, new_providers, with_identity, setup_with_rng, setup_record,
  set_provider_reachable,
}
use threshold_password_authe.LoginServer.{new}
use threshold_password_authe.Messages.{encode_roupspa_account_record}
use threshold_password_authe.System.Plaintext.{make_account_plaintext}
use threshold_password_authe.System.Account.{account_write}
use threshold_password_authe.System.Account.Begin.{seal_account}
use threshold_password_authe.LoginServer.Consistency.{IsConsistent}
use threshold_password_authe.System.Types.{PhaseResult}
use threshold_password_authe.System.Account.Invariant.{AccountsSound}
use threshold_password_authe.System.Phases.{AccountDraws, registration_with_rng}
use threshold_password_authe.System.Phases.Registration.{registration_completes}
use threshold_password_authe.System.Setup.Start.{first_setup_sound}
use threshold_password_authe.System.Setup.Unlock.{drawn, setup_record-Seals, first_setup_unlocks}
use threshold_password_authe.Tests.Toy.{text32, alice}
use threshold_password_authe.Tests.Ternary.{
  Trit, nil, unit, pair, times, ternary, ternary-IsField, ternary-IsAction, ternary-IsLawful,
}

-- The key two, shared with the slope one: the shares of 2 and 1 are one and nothing.
abbrev chosen : List (ℕ × Trit)
chosen = (2, unit) ∷ (1, nil) ∷ []

toprf_client_eval-toprf_gen_example :
    toprf_client_eval_from_partials ternary
      (3 ∷ [])
      pair
      (map (λ s. times (times (hash_to_point ternary (3 ∷ [])) pair) s.1) chosen)
      (lagrange_coeffs_at_zero ternary (2 ∷ 1 ∷ []))
    ≡ oprf_finalize ternary (3 ∷ []) (times (hash_to_point ternary (3 ∷ [])) pair)
unfolding toprf_gen
toprf_client_eval-toprf_gen_example =
    toprf_client_eval-toprf_gen ternary ternary-IsField ternary-IsAction (3 ∷ []) pair pair
      (unit ∷ []) 2 chosen (omega arith) (Memᴰ.tail (Memᴰ.head refl), (Memᴰ.head refl, tt))
      (((λ e. cc), tt), (tt, tt)) (omega arith) (λ e. cc)

-- A client of three providers, any two of which unlock its root.
abbrev client : RoUpSpaSystem ternary
client = new_client ternary 3 2 3 alice (9 ∷ []) (3 ∷ []) (2 ∷ []) []

abbrev setup_draws : SetupDraws ternary
setup_draws = record {
  a0 = pair;
  coeffs = unit ∷ [];
  ssk = 6;
  rsp = text32;
  k0 = text32;
  nonce = [];
}

pub client_created : with_identity ternary 3 2 3 alice (9 ∷ []) (3 ∷ []) (2 ∷ []) [] ≡ ok client
unfolding with_identity validate_thresholds
client_created = refl

first_setup_unlocks_example :
    (after : ProtocolTrace) × (common_identification ternary
        (setup_with_rng ternary client setup_draws).1
        (3 ∷ [])
        identification
        []
        pair
      ≡ ok (
        drawn ternary ternary-IsLawful ternary-IsField ternary-IsAction client setup_draws,
        after,
      ))
unfolding setup_with_rng new_providers toprf_gen install_setup setup_record
first_setup_unlocks_example =
    first_setup_unlocks ternary ternary-IsLawful ternary-IsField ternary-IsAction client setup_draws
      3 2 3 alice (9 ∷ []) (3 ∷ []) (2 ∷ []) [] identification [] pair (omega arith) client_created
      (((λ e. cc), ((λ e. cc), tt)), (((λ e. cc), tt), (tt, tt))) (omega arith) (λ e. cc) refl refl

-- The client when the second of its providers has gone away.
abbrev reduced : RoUpSpaSystem ternary
reduced = (set_provider_reachable ternary (setup_with_rng ternary client setup_draws).1 1 false).1

common_identification-Seals_example :
    (after : ProtocolTrace) × (common_identification ternary reduced (3 ∷ []) identification [] pair
      ≡ ok (
        drawn ternary ternary-IsLawful ternary-IsField ternary-IsAction client setup_draws,
        after,
      ))
unfolding setup_with_rng new_providers toprf_gen install_setup setup_record set_provider_reachable
    root_operation_state bytes_eq ℕ_discrete validate_identification_record
common_identification-Seals_example =
    common_identification-Seals ternary ternary-IsLawful ternary-IsField ternary-IsAction 6
      (setup_record ternary client setup_draws) (pair ∷ unit ∷ []) reduced (3 ∷ []) identification
      [] pair (drawn ternary ternary-IsLawful ternary-IsField ternary-IsAction client setup_draws)
      refl refl
      (
        (_, _, refl, refl, refl, refl, refl, refl, refl),
        (
          (_, _, refl, refl, refl, refl, refl, refl, refl),
          ((_, _, refl, refl, refl, refl, refl, refl, refl), tt),
        ),
      )
      refl (((λ e. cc), tt), (tt, tt)) (omega arith) (omega arith) (omega arith) (λ e. cc)
      (setup_record-Seals ternary ternary-IsLawful ternary-IsField ternary-IsAction client
        setup_draws reduced refl refl refl)

abbrev set_up : RoUpSpaSystem ternary
set_up = (setup_with_rng ternary client setup_draws).1

abbrev account_draws : AccountDraws ternary
account_draws = record { blind = pair; rlsj = text32; nonce = [] }

set_up_sound : AccountsSound ternary set_up × IsConsistent set_up.login_server
set_up_sound =
    first_setup_sound ternary 3 2 3 alice (9 ∷ []) (3 ∷ []) (2 ∷ []) [] client setup_draws
      (omega arith) client_created

set_up_unlocked :
    (after : ProtocolTrace) × (common_identification ternary set_up (3 ∷ []) identification [] pair
      ≡ ok (
        drawn ternary ternary-IsLawful ternary-IsField ternary-IsAction client setup_draws,
        after,
      ))
unfolding setup_with_rng new_providers toprf_gen install_setup setup_record
set_up_unlocked =
    first_setup_unlocks ternary ternary-IsLawful ternary-IsField ternary-IsAction client setup_draws
      3 2 3 alice (9 ∷ []) (3 ∷ []) (2 ∷ []) [] identification [] pair (omega arith) client_created
      (((λ e. cc), ((λ e. cc), tt)), (((λ e. cc), tt), (tt, tt))) (omega arith) (λ e. cc) refl refl

registration_completes_example :
    (exact : Bytes) × (after : ProtocolTrace) × ((registration_with_rng ternary set_up
        account_draws).0
      ≡ PhaseResult.completed 3 exact none after)
unfolding setup_with_rng new_providers toprf_gen install_setup setup_record bytes_eq ℕ_discrete
    account_operation_state new account_write accept_registration_account seal_account
    encode_roupspa_account_record le_bytes shared_suid hash_roupspa_suid make_account_plaintext
registration_completes_example =
    registration_completes ternary set_up account_draws
      (drawn ternary ternary-IsLawful ternary-IsField ternary-IsAction client setup_draws)
      set_up_unlocked.0 set_up_unlocked.1 set_up_sound.0 set_up_sound.1 refl refl refl
      (inr (_, refl, refl), (inr (_, refl, refl), (inr (_, refl, refl), tt))) (omega arith)
      (omega arith)

lagrange_coeffs_at-zero_example :
    lagrange_coeffs_at ternary (2 ∷ 1 ∷ []) nil ≡ lagrange_coeffs_at_zero ternary (2 ∷ 1 ∷ [])
lagrange_coeffs_at-zero_example =
    lagrange_coeffs_at-zero ternary ternary-IsField (2 ∷ 1 ∷ []) (((λ e. cc), tt), (tt, tt))
