-- ===== src/Tests/Coordinated.antt =====
-- Concrete runs of UpSPA: its clock, login server, providers and client.
use threshold_password_authe.Base.{
  ℕ, ◌≤◌, ◌<◌, ◌≡◌, refl, sym, Bytes, bytes_eq, List, [], ◌∷◌, Option, none, some, ok, err, Bool,
  true, false, not, is_ok, is_some, insert, empty, insert_self, arith, Map, contains_key, length,
  ◌+◌, u64_max,
}
use threshold_password_authe.Crypto.{CtBlob}
use threshold_password_authe.Tests.Toy.{toy, toy-IsLawful, alice, blob, zeros}
use threshold_password_authe.UpSpa.TwoPhase.{CellRun}
use threshold_password_authe.UpSpa.Clock.{now, now_advances, replaced}
use threshold_password_authe.UpSpa.Messages.{
  UpSpaPasswordUpdateRequest, encode_upspa_password_update,
}
use threshold_password_authe.UpSpa.Messages.Encoding.{encode_update-injective}
use threshold_password_authe.UpSpa.LoginServer
use threshold_password_authe.UpSpa.LoginServer.Contract
use threshold_password_authe.UpSpa.LoginServer.Contract.{view, server_run-CellRun}
use threshold_password_authe.UpSpa.Provider.Records
use threshold_password_authe.UpSpa.Provider.Records.{UpSpaProvider, UpSpaAccountSlot}
use threshold_password_authe.UpSpa.Provider.Calls
use threshold_password_authe.UpSpa.Provider.Contract.{account_view, actions_of, account_run-CellRun}
use threshold_password_authe.UpSpa.Provider.Validity.{
  ProposalsValid, run-ProposalsValid, new-ProposalsValid,
}
use threshold_password_authe.UpSpa.Provider.Updates.{Advances, run-Advances}

two_calls : List Contract.Call
two_calls =
    Contract.prepares_registration alice (3 ∷ [])
    ∷ Contract.stores_operation alice (LoginServer.registration (3 ∷ []))
    ∷ []

server_run-CellRun_example :
    CellRun Bytes
      (Contract.actions_of LoginServer.new two_calls alice)
      (view LoginServer.new alice)
      (view (Contract.run LoginServer.new two_calls) alice)
server_run-CellRun_example = server_run-CellRun LoginServer.new two_calls alice

now_advances_example :
    (12 < now 10 3 (12 ∷ [])) × (10 ≤ now 10 3 (12 ∷ [])) × (now 10 3 (12 ∷ []) ≤ u64_max)
unfolding replaced
now_advances_example = now_advances 10 3 (12 ∷ []) (omega arith) (omega arith)

abbrev root_blob : CtBlob
root_blob = record { nonce = zeros 24; ct = zeros 96; tag = zeros 16 }

encode_update-injective_example :
    (alice ≡ alice)
    × (root_blob ≡ root_blob)
    × (◌≡◌ {A = ℕ} 3 3)
    × (◌≡◌ {A = ℕ} 17 17)
    × (◌≡◌ {A = ℕ} 4 4)
encode_update-injective_example =
    encode_update-injective toy toy-IsLawful alice alice root_blob root_blob 3 3 17 17 4 4
      (omega arith) (omega arith) (record { nonce = refl; ct = refl; tag = refl })
      (record { nonce = refl; ct = refl; tag = refl }) (omega arith) (omega arith) (omega arith)
      (omega arith) refl

abbrev proposal : UpSpaPasswordUpdateRequest toy
proposal = record {
  uid = alice;
  cidnew = root_blob;
  share_new = 3;
  time = 17;
  provider_index = 1;
  signature = toy.sign 5 (encode_upspa_password_update toy alice root_blob 3 17 1);
}

password_calls : List (Calls.Call toy)
password_calls =
    Calls.sets_up alice 5 root_blob 2
    ∷ Calls.prepares_password proposal
    ∷ Calls.stores_password proposal
    ∷ []

account_calls : List (Calls.Call toy)
account_calls = Calls.prepares_registration (7 ∷ []) blob ∷ Calls.stores_account (7 ∷ []) blob ∷ []

account_run-CellRun_example :
    CellRun CtBlob
      (actions_of toy (Records.new toy 1) account_calls (7 ∷ []))
      (account_view toy (Records.new toy 1) (7 ∷ []))
      (account_view toy (Calls.run toy (Records.new toy 1) account_calls) (7 ∷ []))
account_run-CellRun_example = account_run-CellRun toy (Records.new toy 1) account_calls (7 ∷ [])

run-ProposalsValid_example : ProposalsValid toy (Calls.run toy (Records.new toy 1) password_calls)
run-ProposalsValid_example =
    run-ProposalsValid toy (Records.new toy 1) password_calls (new-ProposalsValid toy 1)

run-Advances_example :
    Advances toy
      ((Records.new toy 1).identifications alice)
      ((Calls.run toy (Records.new toy 1) password_calls).identifications alice)
run-Advances_example =
    run-Advances toy (Records.new toy 1) password_calls alice (new-ProposalsValid toy 1)

-- The signed proposal is accepted and stored.
stored_time :
    (elim ((Calls.run toy (Records.new toy 1) password_calls).identifications alice) as (λ o. ℕ) [
      | none ↦ 0
      | some held ↦ held.last_password_update_time
    ])
    ≡ 17
unfolding Calls.run password_calls Calls.step
    threshold_password_authe.UpSpa.Provider.Passwords.store_password_update
    threshold_password_authe.UpSpa.Provider.Passwords.prepare_password_update Records.setup
    Records.new bytes_eq threshold_password_authe.Base.ℕ_discrete
    threshold_password_authe.Base.le_bytes threshold_password_authe.Crypto.Blob.encode
    threshold_password_authe.Crypto.Blob.blob_eq
stored_time = refl
