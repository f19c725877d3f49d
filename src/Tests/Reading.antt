-- ===== src/Tests/Reading.antt =====
-- The theorems on reads and selections at concrete inputs.
use threshold_password_authe.Base.{
  ◌≡◌, refl, inl, inr, bytes_eq, ok, true, get_elem?, le_bytes, none, some, List, [], ◌∷◌, arith,
  ℕ_discrete, eqb, leb, any,
}
use threshold_password_authe.Messages.{encode_roupspa_account_record}
use threshold_password_authe.System.Plaintext.{make_account_plaintext}
use threshold_password_authe.Messages.Trace.{ProtocolTrace}
use threshold_password_authe.Provider.{
  RoUpSpaProvider, key_eq, account_eq, account_response, SignedAccountRecord, account_signed_bytes,
}
use threshold_password_authe.System.Types.{RecoveredAccount, RecoveredIdentification}
use threshold_password_authe.System.Reads.{account_operation_state}
use threshold_password_authe.System.Selection.{unique_maximum}
use threshold_password_authe.System.Selection.Maximum.{IsTop, unique_maximum_sound}
use threshold_password_authe.System.AccountRead.{checked_account, read_account, account_candidate}
use threshold_password_authe.System.AccountRead.Freshness.{read_account_fresh, candidate-Holds}
use threshold_password_authe.System.Account.Begin.{seal_account}
use threshold_password_authe.System.Account.Cycle.{checked_account-seal}
use threshold_password_authe.Thresholds.{validate_thresholds}
use threshold_password_authe.System.Account.Quorum.{Holds}
use threshold_password_authe.System.Synchronization.{
  synchronize_account, expected_key, first_active_key, record_candidate, recovered_record,
  install_record, synchronized, others,
}
use threshold_password_authe.System.Synchronization.Recovery.{synchronize_account_fresh}
use threshold_password_authe.Tests.Toy.{
  toy, toy-IsLawful, text32, alice_key, system, keeper, rooted,
}

unique_maximum_sound_example :
    IsTop (λ n. n) 7 (3 ∷ 7 ∷ 7 ∷ []) × (any (eqb 7) (3 ∷ 7 ∷ 7 ∷ []) ≡ true)
unfolding unique_maximum
unique_maximum_sound_example =
    unique_maximum_sound eqb (λ n. n) (λ n. ground arith) (λ a b h. ground arith) "account" 7
      (3 ∷ 7 ∷ 7 ∷ []) refl

abbrev recovered : RecoveredIdentification toy
recovered = record { ssk = 5; svk = 5; rsp = text32; k0 = text32; ctrid = 0 }

checked_account-seal_example :
    checked_account toy
      (system [])
      alice_key
      text32
      5
      (seal_account toy (system []) recovered text32 text32 4 [])
    ≡ some (record {
      account = seal_account toy (system []) recovered text32 text32 4 [];
      rlsj = text32;
    })
checked_account-seal_example =
    checked_account-seal toy toy-IsLawful (system []) recovered text32 text32 [] 4 refl refl
      (omega arith)

-- The record that the client seals at the counter 1.
abbrev sealed : SignedAccountRecord toy
unfolding seal_account
sealed = seal_account toy (system []) recovered text32 text32 1 []

abbrev opened_account : RecoveredAccount toy
unfolding sealed
opened_account = record { account = sealed; rlsj = text32 }

abbrev holders : List (RoUpSpaProvider toy)
holders = keeper sealed 1 ∷ keeper sealed 2 ∷ rooted none 3 ∷ []

abbrev opened_at :
    checked_account toy (system holders) alice_key text32 5 sealed ≡ some opened_account
unfolding sealed seal_account
opened_at =
    checked_account-seal toy toy-IsLawful (system holders) recovered text32 text32 [] 1 refl refl
      (omega arith)

read_account_fresh_example :
    (after : ProtocolTrace) × (read_account toy (system holders) alice_key text32 5 []
      ≡ ok (opened_account, after))
unfolding sealed account_operation_state account_candidate account_response bytes_eq ℕ_discrete
    key_eq
read_account_fresh_example =
    read_account_fresh toy (system holders) alice_key text32 5 opened_account opened_at
      (λ p. leb p.id 2) [] refl (inr refl, (inr refl, (inl refl, tt)))
      (
        rw
            (candidate-Holds toy (system holders) alice_key text32 5 opened_account opened_at
              (keeper sealed 1) refl refl)
            (inr refl),
        (
          rw
              (candidate-Holds toy (system holders) alice_key text32 5 opened_account opened_at
                (keeper sealed 2) refl refl)
              (inr refl),
          (tt, tt),
        ),
      )
      (omega arith) (omega arith) (omega arith)

-- The third provider has missed the write of `sealed`, and is brought up to date.
synchronize_account_fresh_example :
    (q : RoUpSpaProvider toy) × (get_elem?
        (synchronize_account toy (system holders) alice_key 2).1.providers
        2
      ≡ some q)
    × Holds toy alice_key sealed q
unfolding sealed seal_account validate_thresholds synchronize_account account_operation_state
    expected_key first_active_key install_record recovered_record record_candidate account_response
    unique_maximum synchronized bytes_eq ℕ_discrete key_eq account_eq others
    encode_roupspa_account_record le_bytes make_account_plaintext account_signed_bytes
synchronize_account_fresh_example =
    synchronize_account_fresh toy (system holders) alice_key sealed 2 (λ p. leb p.id 2) _ refl
      (inr refl, (inr refl, (inl refl, tt))) (inr refl, (inr refl, (tt, tt))) (omega arith) refl
