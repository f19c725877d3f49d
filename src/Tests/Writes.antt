-- ===== src/Tests/Writes.antt =====
-- The theorems on writes and on repeated deliveries at concrete inputs.
use threshold_password_authe.Base.{
  ◌≡◌, refl, inl, inr, bytes_eq, ok, none, some, List, [], ◌∷◌, arith, ℕ_discrete, insert, remove,
  empty, le_bytes, from_le_bytes,
}
use threshold_password_authe.Messages.{encode_roupspa_account_record}
use threshold_password_authe.System.Plaintext.{parse_account_plaintext}
use threshold_password_authe.Messages.Trace.{ProtocolTrace}
use threshold_password_authe.LoginServer
use threshold_password_authe.LoginServer.{
  LoginServer, operation_eq, store, discard, prepare_registration, pending_operation_mismatch,
}
use threshold_password_authe.Provider.{
  RoUpSpaProvider, key_eq, account_eq, identification_eq, SignedAccountRecord, account_signed_bytes,
  mark_account_status,
}
use threshold_password_authe.System.Types.{
  completed, digest_bytes, exact_identification_tuple, InFlightOperation,
}
use threshold_password_authe.System.AccountRead.{checked_account, opened, read_account}
use threshold_password_authe.System.Account.Commit.{deliver_commits}
use threshold_password_authe.System.Account.Cycle.{read-deliver}
use threshold_password_authe.System.Account.Deliver.{deliver_account_store, acknowledged_set}
use threshold_password_authe.System.Password.Deliver.{deliver_password_update_store}
use threshold_password_authe.System.Password.Commit.{Updated, deliver_password_commits}
use threshold_password_authe.Tests.Toy.{
  toy, text32, zeros, alice, alice_key, signed, r0, replica, root1, root_replica, rooted, keeper,
  context_of, password_context, server, system,
}
use threshold_password_authe.Tests.Registering.{
  keepers, ready, with_operation, ready-AccountsSound, server-IsConsistent,
}

abbrev done : InFlightOperation
done = InFlightOperation.ready_for_terminal_store [] (1 ∷ 2 ∷ []) (1 ∷ 2 ∷ [])

abbrev proposers : List (RoUpSpaProvider toy)
proposers = rooted (some root1) 1 ∷ rooted (some root1) 2 ∷ rooted none 3 ∷ []

deliver_password_commits_example :
    let s = record (system proposers) {
      identification_operations = insert (λ j. none) alice (password_context done);
    } in
    (trace : ProtocolTrace) × ((deliver_password_update_store toy s).0
      ≡ ok (completed 2 (digest_bytes toy (exact_identification_tuple toy alice root1)) none trace))
    × Updated toy s (deliver_password_update_store toy s).1 (password_context done) (1 ∷ 2 ∷ [])
unfolding bytes_eq ℕ_discrete acknowledged_set
deliver_password_commits_example =
    deliver_password_commits toy
      (record (system proposers) {
        identification_operations = insert (λ j. none) alice (password_context done);
      })
      (password_context done) (1 ∷ 2 ∷ []) refl refl ((_, refl), ((_, refl), ((_, refl), tt)))
      (inr (_, refl, refl), (inr (_, refl, refl), (inl refl, tt)))

read-deliver_example :
    let t = (deliver_account_store toy (with_operation keepers ready) alice_key).1 in
    (after : ProtocolTrace) × (read_account toy t alice_key (zeros 16) 5 []
      ≡ ok (record { account = r0; rlsj = text32 }, after))
unfolding bytes_eq ℕ_discrete key_eq acknowledged_set checked_account account_signed_bytes
    encode_roupspa_account_record le_bytes opened parse_account_plaintext from_le_bytes
    deliver_account_store store operation_eq mark_account_status
read-deliver_example =
    read-deliver toy (with_operation keepers ready)
      (deliver_account_store toy (with_operation keepers ready) alice_key).1 alice_key
      (context_of ready) (1 ∷ 2 ∷ []) (zeros 16) 5 (record { account = r0; rlsj = text32 }) []
      (deliver_commits toy (with_operation keepers ready) alice_key (context_of ready) (1 ∷ 2 ∷ [])
        ready-AccountsSound server-IsConsistent refl refl refl).2
      refl refl (refl, (refl, (refl, tt))) refl refl (omega arith) (omega arith)

abbrev r1 : SignedAccountRecord toy
r1 = signed 1 9

-- The keeper of the first record after the update to the second.
abbrev updated : RoUpSpaProvider toy
updated = record (keeper r0 1) { accounts = insert (keeper r0 1).accounts alice_key (replica r1) }

-- The rooted provider after the proposal.
abbrev proposed : RoUpSpaProvider toy
proposed = record (rooted none 1) {
  identifications = insert (rooted none 1).identifications alice (root_replica (some root1));
}

abbrev operation : LoginServer.PendingLsOperation
operation = LoginServer.registration text32

abbrev stored : LoginServer
stored = record server {
  current = insert server.current alice text32;
  pending = remove server.pending alice;
  last_stored = insert server.last_stored alice operation;
  last_discarded = remove server.last_discarded alice;
}

abbrev discarded : LoginServer
discarded = record server {
  pending = remove server.pending alice;
  last_discarded = insert server.last_discarded alice operation;
}

abbrev blank : LoginServer
blank = record server { pending = empty }
