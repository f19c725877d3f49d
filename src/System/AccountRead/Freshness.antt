-- ===== src/System/AccountRead/Freshness.antt =====
-- roupspa.rs: a read that reaches enough providers sees the record that a quorum keeps.
use threshold_password_authe.Base.{
  ℕ, ◌+◌, ◌≤◌, ◌<◌, ◌≡◌, refl, ◌⊎◌, inl, inr, Bytes, ok, Bool, true, false, ◌&&◌, List, [], ◌∷◌,
  length, any, keep, All, Option, none, some, arith, Bool-cases,
}
use threshold_password_authe.Primitives.{Primitives}
use threshold_password_authe.Messages.Trace.{ProtocolTrace}
use threshold_password_authe.Thresholds.Intersection.{count, count-and}
use threshold_password_authe.Provider.{
  RoUpSpaProvider, AccountFamilyKey, SignedAccountRecord, account_response, AccountReplica,
  ReplicaStatus,
}
use threshold_password_authe.System.Types.{idle, RoUpSpaSystem, RecoveredAccount}
use threshold_password_authe.System.Selection.Maximum.{IsTop, unique_maximum_complete}
use threshold_password_authe.System.Reads.{choose, same_account, contacted, account_operation_state}
use threshold_password_authe.System.AccountRead.{
  checked_account, account_candidate, select_account, read_account,
}
use threshold_password_authe.System.Account.Quorum.{Holds}

module _ {A B : Type 0} (f : A → Option B) (reach hold : A → Bool) (b : B) where
  -- Every element that is reached and holds gives `b`.
  length-choose :
      (xs : List A)
      → All (λ x. ((reach x && hold x) ≡ false) ⊎ (f x ≡ some b)) xs
      → count (λ x. reach x && hold x) xs ≤ length (choose f (keep reach xs))
  length-choose [] h = omega arith
  length-choose (x ∷ xs) h = ground (arith, length-choose xs h.1)

  any-choose :
      (same : B → B → Bool) (xs : List A)
      → same b b ≡ true
      → All (λ x. ((reach x && hold x) ≡ false) ⊎ (f x ≡ some b)) xs
      → 1 ≤ count (λ x. reach x && hold x) xs
      → any (same b) (choose f (keep reach xs)) ≡ true
  any-choose same [] r h c = absurd (omega arith)
  any-choose same (x ∷ xs) r h c = ground (arith, any-choose same xs r h.1)

module _ (P : Primitives) where
  -- What a provider would answer is the record, or an older one, or nothing that is taken.
  abbrev pub Older : RecoveredAccount P → Option (RecoveredAccount P) → Type 0
  Older a none = Unit {0}
  Older a (some b) = (b.account.ctr < a.account.ctr) ⊎ (b ≡ a)

  choose-IsTop :
      (a : RecoveredAccount P) (f : RoUpSpaProvider P → Option (RecoveredAccount P))
      (reach : RoUpSpaProvider P → Bool) (ps : List (RoUpSpaProvider P))
      → All (λ p. Older a (f p)) ps
      → IsTop (λ b. b.account.ctr) a (choose f (keep reach ps))
  choose-IsTop a f reach [] h = tt
  choose-IsTop a f reach (p ∷ ps) h = ground (arith, choose-IsTop a f reach ps h.1)

  pub same_account_refl : (r : SignedAccountRecord P) → same_account P r r ≡ true
  same_account_refl r = ground arith

  pub same_account-ctr : (r t : SignedAccountRecord P) → same_account P r t ≡ true → r.ctr ≡ t.ctr
  same_account-ctr r t h = ground arith

  select_account-top :
      (required : ℕ) (a : RecoveredAccount P) (xs : List (RecoveredAccount P))
      → 1 ≤ required
      → required ≤ length xs
      → IsTop (λ b. b.account.ctr) a xs
      → any (λ b. same_account P a.account b.account) xs ≡ true
      → select_account P required xs ≡ ok a
  unfolding select_account
  select_account-top required a [] h k t m = absurd (omega arith)
  select_account-top required a (c ∷ cs) h k t m = ground (
    arith,
    unique_maximum_complete (λ x y. same_account P x.account y.account) (λ x. x.account.ctr)
        (λ x. same_account_refl x.account) (λ x y. same_account-ctr x.account y.account) "account" a
        (c ∷ cs) t m,
  )

  module _ (s : RoUpSpaSystem P) (key : AccountFamilyKey) (k0 : Bytes) (svk : P.VerifyingKey)
      (a : RecoveredAccount P) (opens : checked_account P s key k0 svk a.account ≡ some a) where
    abbrev answers : RoUpSpaProvider P → Option (RecoveredAccount P)
    answers = account_candidate P s key k0 svk

    pub candidate-Holds :
        (p : RoUpSpaProvider P) → Holds P key a.account p → p.reachable ≡ true → answers p ≡ some a
    unfolding account_candidate account_response
    candidate-Holds p h r = ground (arith, opens)

    pub candidate_unreachable : (p : RoUpSpaProvider P) → p.reachable ≡ false → answers p ≡ none
    unfolding account_candidate account_response
    candidate_unreachable p r = ground arith

    pub candidate_stale :
        (p : RoUpSpaProvider P) (replica : AccountReplica P)
        → p.accounts key ≡ some replica
        → replica.status ≡ ReplicaStatus.stale
        → answers p ≡ none
    unfolding account_candidate account_response
    candidate_stale p replica e f = ground arith

    reached_holders :
        (hold : RoUpSpaProvider P → Bool) (ps : List (RoUpSpaProvider P))
        → All (λ p. (hold p ≡ false) ⊎ Holds P key a.account p) ps
        → All (λ p. ((p.reachable && hold p) ≡ false) ⊎ (answers p ≡ some a)) ps
    reached_holders hold [] h = tt
    reached_holders hold (p ∷ ps) (inl out, h) = (inl (ground arith), reached_holders hold ps h)
    reached_holders hold (p ∷ ps) (inr keeps, h) = elim (Bool-cases p.reachable) [
      | inl r ↦ (inr (candidate-Holds p keeps r), reached_holders hold ps h)
      | inr r ↦ (inl (ground arith), reached_holders hold ps h)
    ]

    -- Let a record open under the client's keys, let a quorum of the providers keep it, let what
    -- every provider would answer be older or the same, let the threshold be positive and no
    -- operation be in flight. Then a read that reaches at least `nsp - qsp + tsp` providers returns
    -- that record.
    pub read_account_fresh :
        (hold : RoUpSpaProvider P → Bool) (trace : ProtocolTrace)
        → account_operation_state P s key ≡ idle
        → All (λ p. (hold p ≡ false) ⊎ Holds P key a.account p) s.providers
        → All (λ p. Older a (answers p)) s.providers
        → 1 ≤ s.tsp
        → s.qsp ≤ count hold s.providers
        → length s.providers + s.tsp ≤ count (λ p. p.reachable) s.providers + s.qsp
        → (after : ProtocolTrace) × (read_account P s key k0 svk trace ≡ ok (a, after))
    unfolding read_account
    read_account_fresh hold trace quiet held older one quorum reach =
        let ps = s.providers in
        let yes_all = reached_holders hold ps held in
        let common = count-and (λ p. p.reachable) hold ps in
        let same = λ (b c : RecoveredAccount P). same_account P b.account c.account in
        let found = choose answers (contacted P s) in
        let enough = length-choose answers (λ p. p.reachable) hold a ps yes_all in
        let picked : select_account P s.tsp found ≡ ok a =
          select_account-top s.tsp a found one (omega (arith, common, enough))
            (choose-IsTop a answers (λ p. p.reachable) ps older)
            (any-choose answers (λ p. p.reachable) hold a same ps (same_account_refl a.account)
              yes_all (omega (arith, common))) in
        rw (quiet, read_account, picked) (_, refl)
