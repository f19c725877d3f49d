-- ===== src/Tests/Recovery.antt =====
-- Concrete runs of UpSPA's client: a finalization that is retained half-way, and a registration.
use threshold_password_authe.Base.{
  ℕ, ◌≡◌, ◌≤◌, ok_or, ◌>>=◌, checked_succ, refl, Bytes, bytes_eq, List, [], ◌∷◌, none, some, ok,
  err, true, false, length, ◌+◌, zero, suc, get_elem?, insert, empty, insert_self, add_member,
  no_members, arith, Result, Option,
}
use threshold_password_authe.Base.IdSet.{mem}
use threshold_password_authe.Crypto.{CtBlob}
use threshold_password_authe.Tests.Toy.{toy, alice, blob, text32, zeros}
use threshold_password_authe.UpSpa.LoginServer
use threshold_password_authe.UpSpa.Provider.Records
use threshold_password_authe.UpSpa.Provider.Records.{UpSpaProvider, UpSpaAccountSlot}
use threshold_password_authe.UpSpa.System.Types.{
  PhaseKind, store, account, PendingFinalization, UpSpaSystem, Outcome, IdentifiedState,
  all_providers, operation_in_progress, account_counter_overflow,
}
use threshold_password_authe.UpSpa.System.Setup.{SetupDraws, setup, setup_root}
use threshold_password_authe.UpSpa.System.Identification.{identify_into_trace, identify}
use threshold_password_authe.UpSpa.System.Finalization.{
  retry_finalization, unacknowledged, attempted, attempt_providers, terminal_handler,
  attempt_login_server,
}
use threshold_password_authe.UpSpa.System.Finalization.Attempts.{Holds}
use threshold_password_authe.UpSpa.System.Finalization.Settled.{Settled}
use threshold_password_authe.UpSpa.System.Finalization.Recovery.{IsSound}
use threshold_password_authe.UpSpa.System.Finalization.Progress.{
  CanFinish, IsOver, retry_finalization-IsOver,
}
use threshold_password_authe.UpSpa.System.Finalization.Measure.{attempted_left}
use threshold_password_authe.UpSpa.System.Accounts.{AccountDraws, registration, secret_update}
use threshold_password_authe.UpSpa.System.Accounts.Completion.{
  CanRegister, IsRegistered, registration-IsRegistered,
}
use threshold_password_authe.UpSpa.System.Passwords.{PasswordDraws, update_password}
use threshold_password_authe.UpSpa.System.Authentication.{authentication}
use threshold_password_authe.UpSpa.System.Locking.{IsLocked}
use threshold_password_authe.UpSpa.System.Entries.{Entry, newest_entry}
use threshold_password_authe.UpSpa.System.Entries.Newest.{IsIn}
use threshold_password_authe.UpSpa.System.Authentication.{authenticate_with, log_in}
use threshold_password_authe.UpSpa.System.Authentication.Newest.{selected_highest}
use threshold_password_authe.UpSpa.System.Locking.History
use threshold_password_authe.UpSpa.System.Locking.History.{run-IsLocked, retained_refused}

abbrev with_slot : ℕ → Bytes → UpSpaAccountSlot → UpSpaProvider toy
with_slot index suid slot = record {
  provider_index = index;
  reachable = true;
  identifications = empty;
  pending_identifications = empty;
  accounts = insert empty suid slot;
  account_responses_enabled = true;
  finalization_faults = no_members;
}

-- The first provider has acknowledged the Store, the second has not.
abbrev retained : PendingFinalization toy
retained = record {
  phase = PhaseKind.registration;
  action = store;
  provider_positions = 0 ∷ 1 ∷ [];
  acknowledged_positions = 0 ∷ [];
  login_server_required = true;
  login_server_processed = true;
  payload = account ((7 ∷ []) ∷ (8 ∷ []) ∷ []) blob (LoginServer.registration (9 ∷ [])) false;
  trace = [];
  stage_id = 3;
  original_error = none;
}

abbrev halfway : UpSpaSystem toy
halfway = record {
  nsp = 2;
  tsp = 1;
  providers =
      with_slot 1 (7 ∷ []) (record { committed = some blob; pending = none })
      ∷ with_slot 2 (8 ∷ []) (record { committed = none; pending = some blob })
      ∷ [];
  login_server = record {
    reachable = true;
    current = insert empty alice (9 ∷ []);
    pending = empty;
    completed = insert empty alice (LoginServer.registration (9 ∷ []));
  };
  active_operations = add_member no_members alice;
  pending_finalizations = insert empty alice retained;
  last_trace = [];
}

first-Settled :
    (i : ℕ)
    → mem i (0 ∷ []) ≡ true
    → Holds toy
        (terminal_handler toy store retained.payload)
        (Settled toy store retained.payload)
        i
        (get_elem? halfway.providers i)
unfolding Settled bytes_eq threshold_password_authe.Base.ℕ_discrete
first-Settled zero m = (refl, refl)
first-Settled (suc i) m = absurd (ground (arith, m))

halfway-IsSound : IsSound toy halfway.providers retained
halfway-IsSound = record {
  positions = (omega arith, tt);
  acknowledged = tt;
  within = λ i m. ground (arith, m);
  settled = first-Settled;
}

halfway-CanFinish : CanFinish toy halfway alice retained
unfolding unacknowledged terminal_handler attempt_login_server bytes_eq
    threshold_password_authe.Base.ℕ_discrete threshold_password_authe.Crypto.Blob.blob_eq
halfway-CanFinish = record { providers = (refl, tt); login_server = refl }

retry_finalization-IsOver_example :
    IsOver toy halfway alice retained (retry_finalization toy halfway alice)
    × ((retry_finalization toy halfway alice).1.active_operations alice ≡ false)
retry_finalization-IsOver_example =
    retry_finalization-IsOver toy halfway alice retained (insert_self empty alice retained)
      halfway-IsSound halfway-CanFinish

attempted_left_example :
    length (unacknowledged toy (attempted toy halfway alice retained))
      + (attempt_providers toy halfway retained).2
    ≡ length (unacknowledged toy retained)
attempted_left_example = attempted_left toy halfway alice retained (omega arith, tt)

halfway-IsLocked : IsLocked toy halfway
halfway-IsLocked uid h = ground (arith, h)

run-IsLocked_example :
    IsLocked toy (History.run toy halfway (History.retries alice ∷ History.retries alice ∷ []))
run-IsLocked_example =
    run-IsLocked toy halfway (History.retries alice ∷ History.retries alice ∷ []) halfway-IsLocked

abbrev set_up_draws : SetupDraws toy
set_up_draws = record {
  rsp = text32;
  master_key = 3;
  coefficients = 2 ∷ [];
  signing_key = 5;
  k0 = text32;
  nonce = zeros 24;
}

abbrev account_draws : AccountDraws toy
account_draws = record { blinding = 4; rlsj = text32; nonce = zeros 24 }

abbrev password_draws : PasswordDraws toy
password_draws = record {
  blinding = 4;
  master_key = 1;
  coefficients = 2 ∷ [];
  nonce = zeros 24;
  times = 5 ∷ 6 ∷ [];
}

retained_refused_example :
    (setup toy halfway alice (1 ∷ []) set_up_draws ≡ (err operation_in_progress, halfway))
    × (registration toy halfway alice (1 ∷ []) (2 ∷ []) account_draws
        ≡ (err operation_in_progress, halfway))
    × (secret_update toy halfway alice (1 ∷ []) (2 ∷ []) account_draws
        ≡ (err operation_in_progress, halfway))
    × (update_password toy halfway alice (1 ∷ []) (3 ∷ []) password_draws
        ≡ (err operation_in_progress, halfway))
    × (identify toy halfway alice (1 ∷ []) all_providers 4 ≡ (err operation_in_progress, halfway))
    × (authentication toy halfway alice (1 ∷ []) (2 ∷ []) 4 ≡ (err operation_in_progress, halfway))
unfolding bytes_eq threshold_password_authe.Base.ℕ_discrete
retained_refused_example =
    retained_refused toy halfway alice (1 ∷ []) (3 ∷ []) (2 ∷ []) all_providers 4 set_up_draws
      account_draws password_draws halfway-IsLocked refl

abbrev blank : ℕ → UpSpaProvider toy
blank index = Records.new toy index

abbrev fresh : UpSpaSystem toy
fresh = record {
  nsp = 2;
  tsp = 2;
  providers = blank 1 ∷ blank 2 ∷ [];
  login_server = LoginServer.new;
  active_operations = no_members;
  pending_finalizations = empty;
  last_trace = [];
}

enrolled : UpSpaSystem toy
enrolled = (setup toy fresh alice (1 ∷ []) set_up_draws).1

held : UpSpaSystem toy
held = record enrolled { active_operations = add_member enrolled.active_operations alice }

identified : Outcome toy (IdentifiedState toy)
identified = identify_into_trace toy held alice (1 ∷ []) all_providers [] 1 4

recovered : IdentifiedState toy
recovered = record {
  signing_key = 5;
  rsp = text32;
  k0 = text32;
  cid = setup_root toy alice (1 ∷ []) set_up_draws;
  svk = 5;
  responding_providers = 1 ∷ 2 ∷ [];
}

identified_ok : identified ≡ (ok recovered, identified.1)
unfolding identified recovered identify_into_trace held enrolled setup Records.new bytes_eq
    threshold_password_authe.Base.ℕ_discrete threshold_password_authe.Crypto.Blob.blob_eq
identified_ok = refl

can_register : CanRegister toy (identified.1) alice (2 ∷ []) recovered
unfolding identified recovered identify_into_trace held enrolled setup Records.new bytes_eq
    threshold_password_authe.Base.ℕ_discrete threshold_password_authe.Crypto.Blob.blob_eq
    threshold_password_authe.UpSpa.System.Prepare.suids_at LoginServer.new
can_register = (
  ((refl, (refl, (refl, refl))), ((refl, (refl, (refl, refl))), tt)),
  ((refl, (refl, refl)), refl),
)

not_busy : enrolled.active_operations alice ≡ false
unfolding enrolled setup Records.new bytes_eq threshold_password_authe.Base.ℕ_discrete
not_busy = refl

nothing_pending : enrolled.pending_finalizations alice ≡ none
unfolding enrolled setup Records.new bytes_eq threshold_password_authe.Base.ℕ_discrete
nothing_pending = refl

registration-IsRegistered_example :
    IsRegistered toy
      (identified.1)
      alice
      (2 ∷ [])
      account_draws
      recovered
      (registration toy enrolled alice (1 ∷ []) (2 ∷ []) account_draws)
    × ((registration toy enrolled alice (1 ∷ []) (2 ∷ []) account_draws).1.active_operations alice
        ≡ false)
unfolding identified held
registration-IsRegistered_example =
    registration-IsRegistered toy enrolled (identified.1) alice (1 ∷ []) (2 ∷ []) account_draws
      recovered not_busy nothing_pending identified_ok can_register

abbrev read_entries : List Entry
read_entries = (2 ∷ [], 5) ∷ (3 ∷ [], 4) ∷ []

selected_highest_example :
    (e : Entry) × (IsIn e ((1 ∷ [], 0) ∷ read_entries))
    × ((a : Entry) → IsIn a ((1 ∷ [], 0) ∷ read_entries) → a.1 ≤ e.1)
    × (authenticate_with toy enrolled alice (2 ∷ []) [] ((1 ∷ [], 0) ∷ read_entries)
        ≡ log_in toy enrolled alice (2 ∷ []) [] (some e))
    × (newest_entry ((1 ∷ [], 0) ∷ read_entries) 3
        ≡ (ok_or (checked_succ (e.1)) account_counter_overflow >>= λ counter. ok (e, counter)))
unfolding enrolled setup Records.new bytes_eq threshold_password_authe.Base.ℕ_discrete
selected_highest_example =
    selected_highest toy enrolled alice (2 ∷ []) [] (1 ∷ [], 0) read_entries 3 (omega arith)
