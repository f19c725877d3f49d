-- ===== src/Tests/Phases.antt =====
-- The theorems on whole phases, on a client that has been set up with four providers.
use threshold_password_authe.Base.{◌≡◌, refl, ok, true, false, [], ◌∷◌, arith}
use threshold_password_authe.Crypto.Combinations.{next_combination}
use threshold_password_authe.Crypto.Combinations.Scan.{IsAnswer, next_combination-IsAnswer}
use threshold_password_authe.LoginServer.Consistency.{IsConsistent}
use threshold_password_authe.Thresholds.{validate_thresholds}
use threshold_password_authe.System.Types.{RoUpSpaSystem}
use threshold_password_authe.System.Account.Invariant.{AccountsSound}
use threshold_password_authe.System.Setup.{
  SetupDraws, new_client, with_identity, setup_with_rng, new_providers,
}
use threshold_password_authe.System.Setup.Completion.{IsCompleted, AllOrNone, setup-AllOrNone}
use threshold_password_authe.System.Setup.Start.{first_setup-IsCompleted, first_setup_sound}
use threshold_password_authe.System.Phases.{
  AccountDraws, PasswordDraws, registration_with_rng, secret_update_with_rng,
  password_update_with_rng,
}
use threshold_password_authe.System.Phases.Completion.{
  StoresOrKeeps, registration-StoresOrKeeps, secret_update-StoresOrKeeps,
}
use threshold_password_authe.System.Phases.Begun.{PlansRegistration, PlansUpdate}
use threshold_password_authe.System.Phases.Root.{PlansRoot}
use threshold_password_authe.System.Phases.Password.{UpdatesOrKeeps, password_update-UpdatesOrKeeps}
use threshold_password_authe.Tests.Toy.{toy, text32, alice}

abbrev client : RoUpSpaSystem toy
client = new_client toy 4 2 3 alice (9 ∷ []) (3 ∷ []) (2 ∷ []) []

abbrev setup_draws : SetupDraws toy
setup_draws = record { a0 = 5; coeffs = 4 ∷ []; ssk = 6; rsp = text32; k0 = text32; nonce = [] }

abbrev draws : AccountDraws toy
draws = record { blind = 3; rlsj = text32; nonce = [] }

abbrev password_draws : PasswordDraws toy
password_draws = record { blind = 3; new_blind = 4; nonce = [] }

pub client_created : with_identity toy 4 2 3 alice (9 ∷ []) (3 ∷ []) (2 ∷ []) [] ≡ ok client
unfolding with_identity validate_thresholds
client_created = refl

first_setup-IsCompleted_example :
    IsCompleted toy client setup_draws (setup_with_rng toy client setup_draws)
first_setup-IsCompleted_example =
    first_setup-IsCompleted toy 4 2 3 alice (9 ∷ []) (3 ∷ []) (2 ∷ []) [] client setup_draws
      (omega arith) client_created

setup-AllOrNone_example : AllOrNone toy client setup_draws (setup_with_rng toy client setup_draws)
unfolding new_providers
setup-AllOrNone_example =
    setup-AllOrNone toy client setup_draws refl (omega arith) (refl, (refl, (refl, (refl, tt))))

-- The client after its set-up: what its phases want holds.
abbrev set_up : RoUpSpaSystem toy
set_up = (setup_with_rng toy client setup_draws).1

set_up_sound : AccountsSound toy set_up × IsConsistent set_up.login_server
set_up_sound =
    first_setup_sound toy 4 2 3 alice (9 ∷ []) (3 ∷ []) (2 ∷ []) [] client setup_draws (omega arith)
      client_created

registration-StoresOrKeeps_example :
    StoresOrKeeps toy set_up
      (PlansRegistration toy set_up 3 text32 [])
      (registration_with_rng toy set_up draws)
registration-StoresOrKeeps_example =
    registration-StoresOrKeeps toy set_up draws set_up_sound.0 set_up_sound.1

secret_update-StoresOrKeeps_example :
    StoresOrKeeps toy set_up
      (PlansUpdate toy set_up 3 text32 [])
      (secret_update_with_rng toy set_up draws)
secret_update-StoresOrKeeps_example =
    secret_update-StoresOrKeeps toy set_up draws set_up_sound.0 set_up_sound.1

password_update-UpdatesOrKeeps_example :
    UpdatesOrKeeps toy set_up
      (PlansRoot toy set_up 3 4 [])
      (password_update_with_rng toy set_up password_draws)
password_update-UpdatesOrKeeps_example =
    password_update-UpdatesOrKeeps toy set_up password_draws set_up_sound.0.numbered

next_combination-IsAnswer_example :
    IsAnswer 5 (0 ∷ 3 ∷ 4 ∷ []) (next_combination (0 ∷ 3 ∷ 4 ∷ []) 5)
next_combination-IsAnswer_example = next_combination-IsAnswer 5 (0 ∷ 3 ∷ 4 ∷ []) (omega arith)

next_combination_run : next_combination (0 ∷ 3 ∷ 4 ∷ []) 5 ≡ (true, 1 ∷ 2 ∷ 3 ∷ [])
unfolding next_combination
next_combination_run = refl

next_combination_last : next_combination (2 ∷ 3 ∷ 4 ∷ []) 5 ≡ (false, 2 ∷ 3 ∷ 4 ∷ [])
unfolding next_combination
next_combination_last = refl
