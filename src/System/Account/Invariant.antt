-- ===== src/System/Account/Invariant.antt =====
-- roupspa.rs: what holds of every account operation in flight, at any time.
use threshold_password_authe.Base.{
  ℕ, ◌≤◌, ◌<◌, ◌≡◌, refl, sym, ◌∙◌, ◌≢◌, inl, inr, bytes_eq, ok, List, [], ◌∷◌, length, insert,
  insert_self, insert_ne, Option, none, some, arith, Option-cases, Result-cases, leb, Bool-cases,
}
use mathlib.Core.Path.{subst}
use threshold_password_authe.Base.IdSet.{IdSet, WithinIds}
use threshold_password_authe.Primitives.{Primitives}
use threshold_password_authe.Provider.{
  RoUpSpaProvider, AccountFamilyKey, key_eq, SignedAccountRecord, family,
}
use threshold_password_authe.System.Types.{
  InFlightOperation, idle, prepared_at_login_server, prepared_for_provider_write,
  provider_write_started, AccountOperationContext, RoUpSpaSystem, exact_account_tuple,
}
use threshold_password_authe.System.Writes.{
  validate_provider_targets, written_state, accepted_account, write_all,
}
use threshold_password_authe.System.Account.{
  account_write, plan_account_write, run_account_write, retry_inflight_account_write,
}
use threshold_password_authe.System.Writes.Counting.{Numbered}
use threshold_password_authe.System.Account.Quorum.{AcceptedHold, write_all-AcceptedHold}
use threshold_password_authe.System.Account.Frame.{
  AllAlike, AllAlike-length, AllAlike-AcceptedHold, write_all-AllAlike,
}

module _ (P : Primitives) where
  -- A write in flight is of its exact record, its two sets agree, it is ready exactly when they
  -- reach the quorum size, and every provider in them keeps the record.
  abbrev pub StateSound :
      ℕ
      → List (RoUpSpaProvider P)
      → AccountFamilyKey
      → SignedAccountRecord P
      → InFlightOperation
      → Type 0
  StateSound qsp providers key r idle = Unit {0}
  StateSound qsp providers key r (prepared_at_login_server digest) = Unit {0}
  StateSound qsp providers key r (prepared_for_provider_write digest) = Unit {0}
  StateSound qsp providers key r (provider_write_started exact accepted acknowledged) =
      (exact ≡ exact_account_tuple P r)
      × (acknowledged ≡ accepted)
      × (length accepted < qsp)
      × WithinIds (length providers) accepted
      × AcceptedHold P key r accepted providers
  StateSound qsp providers key r
        (InFlightOperation.ready_for_terminal_store exact accepted acknowledged) =
      (exact ≡ exact_account_tuple P r)
      × (acknowledged ≡ accepted)
      × (qsp ≤ length accepted)
      × WithinIds (length providers) accepted
      × AcceptedHold P key r accepted providers

  abbrev pub OperationSound :
      ℕ → List (RoUpSpaProvider P) → AccountFamilyKey → Option (AccountOperationContext P) → Type 0
  OperationSound qsp providers key none = Unit {0}
  OperationSound qsp providers key (some context) =
      (family P context.account ≡ key) × StateSound qsp providers key context.account context.state

  -- The providers are numbered from one, and every account operation is sound.
  pub record AccountsSound (s : RoUpSpaSystem P) : Type 0 where
    pub numbered : Numbered P 1 s.providers
    pub operations :
        (key : AccountFamilyKey) → OperationSound s.qsp s.providers key (s.account_operations key)

  StateSound-alike :
      (qsp : ℕ) (ps qs : List (RoUpSpaProvider P)) (key : AccountFamilyKey)
      (r : SignedAccountRecord P) (state : InFlightOperation)
      → AllAlike P key ps qs
      → StateSound qsp ps key r state
      → StateSound qsp qs key r state
  StateSound-alike qsp ps qs key r idle a v = tt
  StateSound-alike qsp ps qs key r (prepared_at_login_server digest) a v = tt
  StateSound-alike qsp ps qs key r (prepared_for_provider_write digest) a v = tt
  StateSound-alike qsp ps qs key r (provider_write_started exact accepted acknowledged) a v = (
    v.0,
    v.1,
    v.2,
    subst (λ n. WithinIds n accepted) (AllAlike-length P key ps qs a) v.3,
    AllAlike-AcceptedHold P key r accepted ps qs a v.4,
  )
  StateSound-alike qsp ps qs key r
        (InFlightOperation.ready_for_terminal_store exact accepted acknowledged) a v =
      (
        v.0,
        v.1,
        v.2,
        subst (λ n. WithinIds n accepted) (AllAlike-length P key ps qs a) v.3,
        AllAlike-AcceptedHold P key r accepted ps qs a v.4,
      )

  pub OperationSound-alike :
      (qsp : ℕ) (ps qs : List (RoUpSpaProvider P)) (key : AccountFamilyKey)
      (o : Option (AccountOperationContext P))
      → AllAlike P key ps qs
      → OperationSound qsp ps key o
      → OperationSound qsp qs key o
  OperationSound-alike qsp ps qs key none a v = tt
  OperationSound-alike qsp ps qs key (some context) a v =
      (v.0, StateSound-alike qsp ps qs key context.account context.state a v.1)

  -- The state that an attempt leaves, from the providers and the set that its loop left.
  written_state-Sound :
      (qsp : ℕ) (ps : List (RoUpSpaProvider P)) (key : AccountFamilyKey) (r : SignedAccountRecord P)
      (accepted : IdSet)
      → WithinIds (length ps) accepted
      → AcceptedHold P key r accepted ps
      → StateSound qsp ps key r (written_state qsp (exact_account_tuple P r) accepted)
  unfolding written_state
  written_state-Sound qsp ps key r accepted sorted hold =
      elim (Bool-cases (leb qsp (length accepted))) [
        | inl e ↦ rw (e, written_state) (refl, refl, ground arith, sorted, hold)
        | inr e ↦ rw (e, written_state) (refl, refl, ground arith, sorted, hold)
      ]

  AcceptedHold-nil :
      (key : AccountFamilyKey) (r : SignedAccountRecord P) (ps : List (RoUpSpaProvider P))
      → AcceptedHold P key r [] ps
  AcceptedHold-nil key r [] = tt
  AcceptedHold-nil key r (p ∷ ps) = (inl refl, AcceptedHold-nil key r ps)

  abbrev SetSound :
      List (RoUpSpaProvider P) → AccountFamilyKey → SignedAccountRecord P → IdSet → Type 0
  SetSound ps key r accepted = WithinIds (length ps) accepted × AcceptedHold P key r accepted ps

  -- The set from which an attempt goes on.
  accepted_account-Sound :
      (qsp : ℕ) (ps : List (RoUpSpaProvider P)) (key : AccountFamilyKey) (r : SignedAccountRecord P)
      (state : InFlightOperation) (accepted : IdSet)
      → accepted_account state ≡ ok accepted
      → StateSound qsp ps key r state
      → SetSound ps key r accepted
  unfolding accepted_account
  accepted_account-Sound qsp ps key r idle accepted e v = absurd (cc)
  accepted_account-Sound qsp ps key r (prepared_at_login_server digest) accepted e v =
      subst (SetSound ps key r) {x = []} (cc) ((tt, tt), AcceptedHold-nil key r ps)
  accepted_account-Sound qsp ps key r (prepared_for_provider_write digest) accepted e v =
      absurd (cc)
  accepted_account-Sound qsp ps key r (provider_write_started exact a k) accepted e v =
      subst (SetSound ps key r) {x = a} (cc) (v.3, v.4)
  accepted_account-Sound qsp ps key r (InFlightOperation.ready_for_terminal_store exact a k)
        accepted e v =
      subst (SetSound ps key r) {x = a} (cc) (v.3, v.4)

  -- A new context in one family's place, with the others alike.
  pub insert-OperationSound :
      (s : RoUpSpaSystem P) (qs : List (RoUpSpaProvider P)) (key j : AccountFamilyKey)
      (context : AccountOperationContext P)
      → AccountsSound s
      → (j ≢ key → AllAlike P j s.providers qs)
      → OperationSound s.qsp qs key (some context)
      → OperationSound s.qsp qs j (insert s.account_operations key context j)
  insert-OperationSound s qs key j context v alike w = elim (key_eq.dec j key) [
    | yes same ↦
        subst (λ k. OperationSound s.qsp qs k (insert s.account_operations key context k))
          (sym same)
          (subst (OperationSound s.qsp qs key) (sym (insert_self s.account_operations key context))
            w)
    | no other ↦
        subst (OperationSound s.qsp qs j) (sym (insert_ne s.account_operations key j context other))
          (OperationSound-alike s.qsp s.providers qs j (s.account_operations j) (alike other)
            (v.operations j))
  ]

  run_account_write-Sound :
      (s : RoUpSpaSystem P) (key : AccountFamilyKey) (context : AccountOperationContext P)
      (targets before : IdSet)
      → AccountsSound s
      → family P context.account ≡ key
      → SetSound s.providers key context.account before
      → AccountsSound (run_account_write P s key context targets before).1
  unfolding run_account_write
  run_account_write-Sound s key context targets before v filed b =
      let write = account_write P context.kind context.account in
      let out = write_all P write targets (s.providers, before) in
      let sound =
        write_all-AcceptedHold P context.kind context.account targets (s.providers, before)
          (
            v.numbered,
            b.0,
            subst (λ k. AcceptedHold P k context.account before s.providers) (sym filed) b.1,
          ) in
      record {
        numbered = sound.0;
        operations = λ j.
            insert-OperationSound s out.0 key j _ v
              (λ other.
                write_all-AllAlike P context.kind context.account j targets (s.providers, before)
                  (λ e. other (e ∙ filed)))
              (
                filed,
                written_state-Sound s.qsp out.0 key context.account out.1 sound.1
                    (subst (λ k. AcceptedHold P k context.account out.1 out.0) filed sound.2),
              );
      }

  -- Let the operations in flight be sound. They are sound after any attempt at an account write, on
  -- whatever provider indices and whether it fails or not.
  pub retry-AccountsSound :
      (s : RoUpSpaSystem P) (key : AccountFamilyKey) (indices : List ℕ)
      → AccountsSound s
      → AccountsSound (retry_inflight_account_write P s key indices).1
  unfolding retry_inflight_account_write
  retry-AccountsSound s key indices v = elim (Option-cases (s.account_operations key)) [
    | inl e ↦ rw (e, retry_inflight_account_write) v
    | inr (context, e) ↦
        let w = subst (OperationSound s.qsp s.providers key) e (v.operations key) in
        elim (Result-cases (validate_provider_targets (length s.providers) indices)) [
          | inr (x, f) ↦ rw (e, retry_inflight_account_write, f, plan_account_write) v
          | inl (targets, f) ↦ elim (Result-cases (accepted_account context.state)) [
            | inr (x, g) ↦ rw (e, retry_inflight_account_write, f, plan_account_write, g) v
            | inl (before, g) ↦
                rw (e, retry_inflight_account_write, f, plan_account_write, g)
                  (run_account_write-Sound s key context targets before v w.0 (
                    accepted_account-Sound s.qsp s.providers key context.account context.state
                      before g w.1))
          ]
        ]
  ]
