-- ===== src/UpSpa/System/Entries.antt =====
-- crates/upspa/src/protocols/system.rs: the newest of the account entries that a client has read.
pub mod Newest
use threshold_password_authe.Base.{
  ℕ, Bytes, bytes_eq, Result, ok, ok_or, ◌>>=◌, List, [], ◌∷◌, checked_succ, leb, Option, none,
  some, if◌then◌else◌,
}
use threshold_password_authe.UpSpa.System.Types.{
  PhaseError, insufficient_account_responses, account_counter_overflow,
}

-- A secret and its counter, as an account holds them.
abbrev pub Entry : Type 0
Entry = Bytes × ℕ

-- `sort_by_key` on the counter: a stable sort.
unfoldable pub place : Entry → List Entry → List Entry
place entry [] = entry ∷ []
place entry (e ∷ es) =
    let rest = place entry es in if leb (entry.1) (e.1) then entry ∷ e ∷ es else e ∷ rest

unfoldable pub sort_by_counter : List Entry → List Entry
unfolding place
sort_by_counter [] = []
sort_by_counter (e ∷ es) = place e (sort_by_counter es)

unfoldable pub last : List Entry → Option Entry
last [] = none
last (e ∷ []) = some e
last (e ∷ f ∷ es) = last (f ∷ es)

-- The newest of the entries that were read, and the counter after it. There is at least one
-- provider, so the source finds one.
unfoldable pub newest_entry : List Entry → ℕ → Result PhaseError (Entry × ℕ)
unfolding sort_by_counter last
newest_entry entries required =
    ok_or (last (sort_by_counter entries)) (insufficient_account_responses 0 required) >>= λ newest.
    ok_or (checked_succ (newest.1)) account_counter_overflow >>= λ counter. ok (newest, counter)
