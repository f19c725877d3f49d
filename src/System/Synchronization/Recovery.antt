-- ===== src/System/Synchronization/Recovery.antt =====
-- synchronization.rs: a synchronization that succeeds brings back the record that a quorum keeps.
use threshold_password_authe.Base.{
  ℕ, zero, suc, ◌+◌, ◌*◌, ◌≤◌, ◌<◌, ◌≡◌, refl, ◌⊎◌, inl, inr, bytes_eq, ok, is_some, insert,
  insert_self, Bool, true, false, ◌&&◌, List, [], ◌∷◌, length, set, get_elem?, any, keep, All,
  Option, none, some, arith, Option-cases, Result-cases,
}
use mathlib.Core.Path.{subst}
use threshold_password_authe.Primitives.{Primitives}
use threshold_password_authe.Thresholds.{validate_thresholds}
use threshold_password_authe.Thresholds.Intersection.{count, count-and}
use threshold_password_authe.Provider.{
  RoUpSpaProvider, AccountFamilyKey, key_eq, SignedAccountRecord, account_response, active,
}
use threshold_password_authe.Provider.Counters.{current_of}
use threshold_password_authe.System.Types.{RoUpSpaSystem}
use threshold_password_authe.System.Selection.Maximum.{IsTop, unique_maximum_complete}
use threshold_password_authe.System.Reads.{choose, same_account}
use threshold_password_authe.System.AccountRead.Freshness.{same_account_refl, same_account-ctr}
use threshold_password_authe.System.Account.Quorum.{Holds}
use threshold_password_authe.System.Synchronization.{
  SynchronizationOutcome, others, asked, record_candidate, recovered_record, install_record,
  expected_key, synchronize_account, synchronized,
}

module _ {A : Type 0} where
  length-others : (i : ℕ) (xs : List A) → i < length xs → length (others i xs) + 1 ≡ length xs
  unfolding others
  length-others i [] h = absurd (omega arith)
  length-others zero (x ∷ xs) h = omega arith
  length-others (suc i) (x ∷ xs) h = omega (arith, length-others i xs (omega arith))

  count-others : (p : A → Bool) (i : ℕ) (xs : List A) → count p xs ≤ count p (others i xs) + 1
  unfolding others
  count-others p i [] = omega arith
  count-others p zero (x ∷ xs) = ground arith
  count-others p (suc i) (x ∷ xs) = omega (arith, count-others p i xs)

  All-others {κ} : (Q : A → Type κ) (i : ℕ) (xs : List A) → All Q xs → All Q (others i xs)
  unfolding others
  All-others Q i [] h = tt
  All-others Q zero (x ∷ xs) h = h.1
  All-others Q (suc i) (x ∷ xs) h = (h.0, All-others Q i xs h.1)

  get_elem?-bound : (i : ℕ) (xs : List A) (x : A) → get_elem? xs i ≡ some x → i < length xs
  get_elem?-bound i [] x h = absurd (cc)
  get_elem?-bound zero (y ∷ xs) x h = omega arith
  get_elem?-bound (suc i) (y ∷ xs) x h = omega (arith, get_elem?-bound i xs x h)

  get_elem?-set : (i : ℕ) (xs : List A) (x : A) → i < length xs → get_elem? (set xs i x) i ≡ some x
  get_elem?-set i [] x h = absurd (omega arith)
  get_elem?-set zero (y ∷ xs) x h = refl
  get_elem?-set (suc i) (y ∷ xs) x h = get_elem?-set i xs x (omega arith)

  length-choose-le :
      {B : Type 0} (f : A → Option B) (reach : A → Bool) (xs : List A)
      → length (choose f (keep reach xs)) ≤ count (λ x. is_some (f x)) xs
  length-choose-le f reach [] = omega arith
  length-choose-le f reach (x ∷ xs) = ground (arith, length-choose-le f reach xs)

module _ (P : Primitives) where
  -- What a provider has stored is the record, or an older one.
  abbrev pub StoredOlder : SignedAccountRecord P → Option (SignedAccountRecord P) → Type 0
  StoredOlder r none = Unit {0}
  StoredOlder r (some b) = (b.ctr < r.ctr) ⊎ (b ≡ r)

  module _ (key : AccountFamilyKey) (svk : P.VerifyingKey) (r : SignedAccountRecord P) where
    abbrev taken : RoUpSpaProvider P → Option (SignedAccountRecord P)
    taken = record_candidate P key svk

    -- A candidate is the provider's stored record, and the provider was reached.
    candidate_stored :
        (p : RoUpSpaProvider P) (b : SignedAccountRecord P)
        → taken p ≡ some b
        → (current_of P (p.accounts key) ≡ some b) × (p.reachable ≡ true)
    unfolding record_candidate account_response
    candidate_stored p b h = ground arith

    choose-IsTop :
        (ps : List (RoUpSpaProvider P))
        → All (λ p. StoredOlder r (current_of P (p.accounts key))) ps
        → IsTop (λ b. b.ctr) r (choose taken (keep (λ p. p.reachable) ps))
    choose-IsTop [] h = tt
    choose-IsTop (p ∷ ps) h = elim (Option-cases (taken p)) [
      | inl e ↦ ground (arith, choose-IsTop ps h.1)
      | inr (b, e) ↦
          let c = candidate_stored p b e in
          let o : StoredOlder r (some b) = subst (StoredOlder r) c.0 h.0 in
          ground (arith, choose-IsTop ps h.1, c.1, o)
    ]

    any-choose :
        (hold : RoUpSpaProvider P → Bool) (ps : List (RoUpSpaProvider P))
        → All (λ p. (hold p ≡ false) ⊎ Holds P key r p) ps
        → 1 ≤ count (λ p. is_some (taken p) && hold p) ps
        → any (same_account P r) (choose taken (keep (λ p. p.reachable) ps)) ≡ true
    any-choose hold [] h c = absurd (omega arith)
    any-choose hold (p ∷ ps) h c = elim (Option-cases (taken p)) [
      | inl e ↦ ground (arith, any-choose hold ps h.1)
      | inr (b, e) ↦
          let d = candidate_stored p b e in
          elim h.0 [
            | inl out ↦ ground (arith, any-choose hold ps h.1, d.1)
            | inr keeps ↦
                let f : b ≡ r = ground (arith, d.0) in ground (arith, d.1, f, same_account_refl P r)
          ]
    ]

    recovered_record-top :
        (qsp : ℕ) (cs : List (SignedAccountRecord P)) (x : SignedAccountRecord P)
        → recovered_record P qsp cs ≡ ok x
        → IsTop (λ b. b.ctr) r cs
        → any (same_account P r) cs ≡ true
        → (recovered_record P qsp cs ≡ ok r)
    unfolding recovered_record
    recovered_record-top qsp cs x h t m = ground (
      arith,
      unique_maximum_complete (same_account P) (λ b. b.ctr) (same_account_refl P)
          (same_account-ctr P) "account" r cs t m,
    )

    recovered_record-length :
        (qsp : ℕ) (cs : List (SignedAccountRecord P)) (x : SignedAccountRecord P)
        → recovered_record P qsp cs ≡ ok x
        → qsp ≤ length cs
    unfolding recovered_record
    recovered_record-length qsp cs x h = ground arith

    -- A synchronization that succeeds has installed the recovered record.
    install_record_ok :
        (s : RoUpSpaSystem P) (index : ℕ) (p : RoUpSpaProvider P) (outcome : SynchronizationOutcome)
        → (install_record P s key index p svk).0 ≡ ok outcome
        → (x : SignedAccountRecord P) × (recovered_record P s.qsp (choose taken (asked P s index))
            ≡ ok x)
          × ((install_record P s key index p svk).1.providers
              ≡ set s.providers index (record p {
                accounts = insert p.accounts key (record { current = some x; status = active });
              }))
    unfolding install_record synchronized
    install_record_ok s index p outcome h =
        elim (Result-cases (recovered_record P s.qsp (choose taken (asked P s index)))) [
          | inl (x, e) ↦ (x, e, rw (install_record, e, synchronized))
          | inr (x, e) ↦ absurd (ground arith)
        ]

  -- The key that a synchronization that succeeds has used.
  synchronize_account_ok :
      (s : RoUpSpaSystem P) (key : AccountFamilyKey) (index : ℕ) (outcome : SynchronizationOutcome)
      → (synchronize_account P s key index).0 ≡ ok outcome
      → (p : RoUpSpaProvider P) × (svk : P.VerifyingKey) × (get_elem? s.providers index ≡ some p)
        × (synchronize_account P s key index ≡ install_record P s key index p svk)
  unfolding synchronize_account
  synchronize_account_ok s key index outcome h = elim (Option-cases (get_elem? s.providers index)) [
    | inl e ↦ absurd (ground arith)
    | inr (p, e) ↦ elim (Option-cases (expected_key P s p key.uid)) [
      | inl f ↦ absurd (ground arith)
      | inr (svk, f) ↦ (p, svk, e, ground arith)
    ]
  ]

  overlap : (nsp tsp qsp : ℕ) → validate_thresholds nsp tsp qsp ≡ ok tt → nsp + 1 ≤ 2 * qsp
  unfolding validate_thresholds
  overlap nsp tsp qsp h = ground arith

  -- Let a quorum keep a record, let whatever any provider has stored for its family be that record
  -- or an older one, and let the thresholds be valid. Then a synchronization of the family that
  -- succeeds leaves the recovering provider with exactly that record, active.
  pub synchronize_account_fresh :
      (s : RoUpSpaSystem P) (key : AccountFamilyKey) (r : SignedAccountRecord P) (index : ℕ)
      (hold : RoUpSpaProvider P → Bool) (outcome : SynchronizationOutcome)
      → validate_thresholds (length s.providers) s.tsp s.qsp ≡ ok tt
      → All (λ p. (hold p ≡ false) ⊎ Holds P key r p) s.providers
      → All (λ p. StoredOlder r (current_of P (p.accounts key))) s.providers
      → s.qsp ≤ count hold s.providers
      → (synchronize_account P s key index).0 ≡ ok outcome
      → (q : RoUpSpaProvider P) × (get_elem? (synchronize_account P s key index).1.providers index
          ≡ some q)
        × Holds P key r q
  synchronize_account_fresh s key r index hold outcome valid held older quorum h =
      let (p, svk, e, same) = synchronize_account_ok s key index outcome h in
      let ps = others index s.providers in
      let inside = get_elem?-bound index s.providers p e in
      let (x, found, installed) =
        install_record_ok key svk r s index p outcome (subst (λ o. o.0 ≡ ok outcome) same h) in
      let cs = choose (taken key svk r) (asked P s index) in
      let enough = recovered_record-length key svk r s.qsp cs x found in
      let common = count-and (λ q. is_some (taken key svk r q)) hold ps in
      let top =
        recovered_record-top key svk r s.qsp cs x found
          (choose-IsTop key svk r ps (
            All-others (λ q. StoredOlder r (current_of P (q.accounts key))) index s.providers
              older))
          (any-choose key svk r hold ps
            (All-others (λ q. (hold q ≡ false) ⊎ Holds P key r q) index s.providers held)
            (omega (
              arith,
              common,
              enough,
              overlap (length s.providers) s.tsp s.qsp valid,
              length-others index s.providers inside,
              count-others hold index s.providers,
              length-choose-le (taken key svk r) (λ q. q.reachable) ps,
            ))) in
      let is_r : x ≡ r = ground (arith, found, top) in
      rw (same, installed, is_r)
        (_, get_elem?-set index s.providers _ inside, insert_self p.accounts key _)
