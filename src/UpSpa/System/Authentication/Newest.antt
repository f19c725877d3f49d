-- ===== src/UpSpa/System/Authentication/Newest.antt =====
-- crates/upspa/src/protocols/system.rs: the account entry that a login and a secret update go on with.
use threshold_password_authe.Base.{
  ℕ, ◌≤◌, ◌≡◌, Bytes, ok, ok_or, ◌>>=◌, checked_succ, List, ◌∷◌, length, ltb, false, some, arith,
  ap, refl, ◌∙◌,
}
use threshold_password_authe.Primitives.{Primitives}
use threshold_password_authe.UpSpa.Messages.Trace.{ProtocolTrace}
use threshold_password_authe.UpSpa.System.Types.{UpSpaSystem, account_counter_overflow}
use threshold_password_authe.UpSpa.System.Entries.{Entry, newest_entry, sort_by_counter, last}
use threshold_password_authe.UpSpa.System.Entries.Newest.{IsIn, last_sorted}
use threshold_password_authe.UpSpa.System.Authentication.{authenticate_with, log_in}

module _ (P : Primitives) where
  newest_entry_from :
      (e : Entry) (entries : List Entry) (required : ℕ)
      → last (sort_by_counter entries) ≡ some e
      → newest_entry entries required
        ≡ (ok_or (checked_succ (e.1)) account_counter_overflow >>= λ counter. ok (e, counter))
  unfolding newest_entry
  newest_entry_from e entries required h = rw (h, newest_entry) refl

  authenticate_with_enough :
      (s : UpSpaSystem P) (uid lsj : Bytes) (trace : ProtocolTrace) (entries : List Entry)
      → s.tsp ≤ length entries
      → authenticate_with P s uid lsj trace entries
        ≡ log_in P s uid lsj trace (last (sort_by_counter entries))
  unfolding authenticate_with
  authenticate_with_enough s uid lsj trace entries h =
      let enough : ltb (length entries) s.tsp ≡ false = ground arith in
      rw (enough, authenticate_with) refl

  -- Let UpSPA's client have read account entries, at least one and at least `tsp`. There is one of
  -- them, with no higher counter among them, such that a login goes on with it, and a secret update
  -- goes on with it and with the counter after its own, or stops when that overflows.
  pub selected_highest :
      (s : UpSpaSystem P) (uid lsj : Bytes) (trace : ProtocolTrace) (x : Entry) (xs : List Entry)
      (required : ℕ)
      → s.tsp ≤ length (x ∷ xs)
      → (e : Entry) × (IsIn e (x ∷ xs))
        × ((a : Entry) → IsIn a (x ∷ xs) → a.1 ≤ e.1)
        × (authenticate_with P s uid lsj trace (x ∷ xs) ≡ log_in P s uid lsj trace (some e))
        × (newest_entry (x ∷ xs) required
            ≡ (ok_or (checked_succ (e.1)) account_counter_overflow >>= λ counter. ok (e, counter)))
  selected_highest s uid lsj trace x xs required enough =
      let (e, found, member, highest) = last_sorted x xs in
      (
        e,
        member,
        highest,
        authenticate_with_enough s uid lsj trace (x ∷ xs) enough
            ∙ ap (log_in P s uid lsj trace) found,
        newest_entry_from e (x ∷ xs) required found,
      )
