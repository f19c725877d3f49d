-- ===== src/Tests/Registering.antt =====
-- Systems with a registration in flight, for the tests.
use threshold_password_authe.Base.{
  refl, sym, ap, bytes_eq, none, some, List, [], ◌∷◌, insert, insert_self, insert_ne, empty,
  ℕ_discrete, arith, inl, inr,
}
use mathlib.Core.Path.{subst}
use threshold_password_authe.LoginServer
use threshold_password_authe.LoginServer.{LoginServer, PendingLsOperation, operation_eq}
use threshold_password_authe.LoginServer.Consistency.{IsConsistent, FitsPending}
use threshold_password_authe.Provider.{RoUpSpaProvider, AccountFamilyKey, key_eq}
use threshold_password_authe.System.Types.{
  RoUpSpaSystem, AccountOperationContext, exact_account_tuple, InFlightOperation,
  prepared_at_login_server,
}
use threshold_password_authe.System.Account.Invariant.{AccountsSound, OperationSound}
use threshold_password_authe.Tests.Toy.{
  toy, text32, alice, alice_key, r0, rooted, keeper, context_of, server, system,
}

-- Two of three providers keep the record of a registration that is ready for its Store.
abbrev pub keepers : List (RoUpSpaProvider toy)
keepers = keeper r0 1 ∷ keeper r0 2 ∷ rooted none 3 ∷ []

abbrev pub ready : InFlightOperation
ready =
    InFlightOperation.ready_for_terminal_store (exact_account_tuple toy r0) (1 ∷ 2 ∷ [])
      (1 ∷ 2 ∷ [])

abbrev pub with_operation : List (RoUpSpaProvider toy) → InFlightOperation → RoUpSpaSystem toy
with_operation providers state = record (system providers) {
  account_operations = insert empty alice_key (context_of state);
}

only_OperationSound :
    (providers : List (RoUpSpaProvider toy)) (context : AccountOperationContext toy)
    (j : AccountFamilyKey)
    → OperationSound toy 2 providers alice_key (some context)
    → OperationSound toy 2 providers j (insert empty alice_key context j)
only_OperationSound providers context j w = elim (key_eq.dec j alice_key) [
  | yes same ↦
      subst (λ k. OperationSound toy 2 providers k (insert empty alice_key context k)) (sym same)
        (subst (OperationSound toy 2 providers alice_key)
          (sym (insert_self empty alice_key context)) w)
  | no other ↦
      subst (OperationSound toy 2 providers j) (sym (insert_ne empty alice_key j context other)) tt
]

pub ready-AccountsSound : AccountsSound toy (with_operation keepers ready)
unfolding bytes_eq ℕ_discrete key_eq
ready-AccountsSound = record {
  numbered = (refl, (refl, (refl, tt)));
  operations = λ j. only_OperationSound keepers (context_of ready) j (
    refl,
    (
      refl,
      refl,
      omega arith,
      ((omega arith, (omega arith, tt)), (omega arith, (omega arith, tt))),
      (inr refl, (inr refl, (inl refl, tt))),
    ),
  );
}

abbrev pub fresh : List (RoUpSpaProvider toy)
fresh = rooted none 1 ∷ rooted none 2 ∷ rooted none 3 ∷ []

-- The same registration before its first write.
abbrev pub prepared : InFlightOperation
prepared = prepared_at_login_server (exact_account_tuple toy r0)

pub prepared-AccountsSound : AccountsSound toy (with_operation fresh prepared)
prepared-AccountsSound = record {
  numbered = (refl, (refl, (refl, tt)));
  operations = λ j. only_OperationSound fresh (context_of prepared) j (refl, tt);
}

pub server-IsConsistent : IsConsistent server
unfolding bytes_eq ℕ_discrete
server-IsConsistent j = elim (bytes_eq.dec j alice) [
  | yes same ↦
      subst (FitsPending none)
        (sym (ap (insert empty alice (LoginServer.registration text32)) same)) refl
  | no other ↦
      subst (FitsPending none)
        (sym (insert_ne empty alice j (LoginServer.registration text32) other)) tt
]
