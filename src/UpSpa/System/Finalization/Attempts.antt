-- ===== src/UpSpa/System/Finalization/Attempts.antt =====
-- crates/upspa/src/protocols/system.rs: the loop of an attempt, for any handler. Whoever has
-- acknowledged has done what was asked, and whoever can do so acknowledges.
use threshold_password_authe.Base.{
  ℕ, ◌≡◌, ◌≢◌, refl, List, [], ◌∷◌, get_elem?, set, is_ok, true, false, Option, none, some, arith,
  All, eqb, ◌||◌, Option-cases, Bool-cases, inl, inr, ℕ_discrete,
}
use threshold_password_authe.Base.IdSet.{IdSet, mem, IsAbove, IsSorted, mem-insert, insert-IsSorted}
use threshold_password_authe.Primitives.{Primitives}
use threshold_password_authe.UpSpa.Provider.{UpSpaProvider}
use threshold_password_authe.UpSpa.System.Finalization.{Handler, attempt_at, attempt_all}
use threshold_password_authe.UpSpa.System.Finalization.Positions.{
  IsAbove-IsSorted, IsAbove-weaken, set_self, set_other,
}

module _ (P : Primitives) (handler : Handler P) (S : ℕ → UpSpaProvider P → Type 0) where
  abbrev pub Holds : ℕ → Option (UpSpaProvider P) → Type 0
  Holds i none = ⊥
  Holds i (some p) = S i p

  -- Every acknowledged position has what `S` says.
  abbrev pub AllHold : List (UpSpaProvider P) → IdSet → Type 0
  AllHold ps acknowledged = (i : ℕ) → mem i acknowledged ≡ true → Holds i (get_elem? ps i)

  abbrev Acknowledges : Type 0
  Acknowledges =
      (i : ℕ) (p : UpSpaProvider P) → is_ok ((handler i p).0) ≡ true → S i ((handler i p).1)

  Holds-other :
      (i j : ℕ) (ps : List (UpSpaProvider P)) (q : UpSpaProvider P)
      → j ≢ i
      → Holds j (get_elem? ps j)
      → Holds j (get_elem? (set ps i q) j)
  Holds-other i j ps q n h = rw (set_other i j ps q n) h

  attempt_at-AllHold :
      (law : Acknowledges) (i : ℕ) (ps : List (UpSpaProvider P)) (acknowledged : IdSet) (n : ℕ)
      → mem i acknowledged ≡ false
      → AllHold ps acknowledged
      → AllHold
          ((attempt_at P handler i (ps, acknowledged, n)).0)
          ((attempt_at P handler i (ps, acknowledged, n)).1)
  unfolding attempt_at
  attempt_at-AllHold law i ps acknowledged n fresh v = elim (Option-cases (get_elem? ps i)) [
    | inl e ↦ rw (e, attempt_at) v
    | inr (p, e) ↦ elim (Bool-cases (is_ok ((handler i p).0))) [
      | inl good ↦
          rw (e, good, attempt_at)
            (λ j m. elim (ℕ_discrete j i) [
              | yes same ↦ rw (same, set_self i ps p ((handler i p).1) e) (law i p good)
              | no other ↦
                  Holds-other i j ps ((handler i p).1) other
                    (v j (ground (arith, mem-insert j i acknowledged, m)))
            ])
      | inr bad ↦
          rw (e, bad, attempt_at)
            (λ j m. elim (ℕ_discrete j i) [
              | yes same ↦ absurd (ground (arith, m))
              | no other ↦ Holds-other i j ps ((handler i p).1) other (v j m)
            ])
    ]
  ]

  mem-attempt_at :
      (i j : ℕ) (ps : List (UpSpaProvider P)) (acknowledged : IdSet) (n : ℕ)
      → mem j ((attempt_at P handler i (ps, acknowledged, n)).1) ≡ true
      → (eqb j i || mem j acknowledged) ≡ true
  unfolding attempt_at
  mem-attempt_at i j ps acknowledged n m = ground (arith, mem-insert j i acknowledged)

  attempt_at-IsSorted :
      (i : ℕ) (ps : List (UpSpaProvider P)) (acknowledged : IdSet) (n : ℕ)
      → IsSorted acknowledged
      → IsSorted ((attempt_at P handler i (ps, acknowledged, n)).1)
  unfolding attempt_at
  attempt_at-IsSorted i ps acknowledged n v = ground (arith, insert-IsSorted i acknowledged)

  abbrev pub Fresh : List ℕ → IdSet → Type 0
  Fresh positions acknowledged = All (λ i. mem i acknowledged ≡ false) positions

  pub Fresh-after :
      (i : ℕ) (positions : List ℕ) (ps : List (UpSpaProvider P)) (acknowledged : IdSet) (n : ℕ)
      → IsAbove i positions
      → Fresh positions acknowledged
      → Fresh positions ((attempt_at P handler i (ps, acknowledged, n)).1)
  Fresh-after i [] ps acknowledged n a f = tt
  Fresh-after i (j ∷ positions) ps acknowledged n a f = (
    elim (Bool-cases (mem j ((attempt_at P handler i (ps, acknowledged, n)).1))) [
      | inl m ↦ absurd (ground (arith, mem-attempt_at i j ps acknowledged n m, f.0, a.0))
      | inr m ↦ m
    ],
    Fresh-after i positions ps acknowledged n (IsAbove-weaken i j positions (a.0) (a.1)) (f.1),
  )

  pub attempt_all-AllHold :
      (law : Acknowledges) (positions : List ℕ) (ps : List (UpSpaProvider P)) (acknowledged : IdSet)
      (n : ℕ)
      → IsSorted positions
      → Fresh positions acknowledged
      → AllHold ps acknowledged
      → AllHold
          ((attempt_all P handler positions (ps, acknowledged, n)).0)
          ((attempt_all P handler positions (ps, acknowledged, n)).1)
  unfolding attempt_all
  attempt_all-AllHold law [] ps acknowledged n s f v = v
  attempt_all-AllHold law (i ∷ positions) ps acknowledged n s f v =
      let one = attempt_at P handler i (ps, acknowledged, n) in
      attempt_all-AllHold law positions (one.0) (one.1) (one.2) (IsAbove-IsSorted i positions s)
        (Fresh-after i positions ps acknowledged n s (f.1))
        (attempt_at-AllHold law i ps acknowledged n (f.0) v)

  pub attempt_all-IsSorted :
      (positions : List ℕ) (ps : List (UpSpaProvider P)) (acknowledged : IdSet) (n : ℕ)
      → IsSorted acknowledged
      → IsSorted ((attempt_all P handler positions (ps, acknowledged, n)).1)
  unfolding attempt_all
  attempt_all-IsSorted [] ps acknowledged n v = v
  attempt_all-IsSorted (i ∷ positions) ps acknowledged n v =
      let one = attempt_at P handler i (ps, acknowledged, n) in
      attempt_all-IsSorted positions (one.0) (one.1) (one.2)
        (attempt_at-IsSorted i ps acknowledged n v)

  -- Only positions of the attempt are added.
  pub mem-attempt_all :
      (positions : List ℕ) (j : ℕ) (ps : List (UpSpaProvider P)) (acknowledged : IdSet) (n : ℕ)
      → mem j ((attempt_all P handler positions (ps, acknowledged, n)).1) ≡ true
      → (mem j positions || mem j acknowledged) ≡ true
  unfolding attempt_all
  mem-attempt_all [] j ps acknowledged n m = m
  mem-attempt_all (i ∷ positions) j ps acknowledged n m =
      let one = attempt_at P handler i (ps, acknowledged, n) in
      ground (
        arith,
        mem-attempt_all positions j (one.0) (one.1) (one.2) m,
        mem-attempt_at i j ps acknowledged n,
      )

  -- The handler of the provider at a position would succeed.
  abbrev pub ReadyAt : ℕ → Option (UpSpaProvider P) → Type 0
  ReadyAt i none = ⊥
  ReadyAt i (some p) = is_ok ((handler i p).0) ≡ true

  abbrev pub AllReady : List ℕ → List (UpSpaProvider P) → Type 0
  AllReady positions ps = All (λ i. ReadyAt i (get_elem? ps i)) positions

  attempt_at_keeps :
      (i j : ℕ) (ps : List (UpSpaProvider P)) (acknowledged : IdSet) (n : ℕ)
      → mem j acknowledged ≡ true
      → mem j ((attempt_at P handler i (ps, acknowledged, n)).1) ≡ true
  unfolding attempt_at
  attempt_at_keeps i j ps acknowledged n m = ground (arith, mem-insert j i acknowledged)

  attempt_at_ready :
      (i : ℕ) (ps : List (UpSpaProvider P)) (acknowledged : IdSet) (n : ℕ)
      → ReadyAt i (get_elem? ps i)
      → mem i ((attempt_at P handler i (ps, acknowledged, n)).1) ≡ true
  unfolding attempt_at
  attempt_at_ready i ps acknowledged n h = ground (arith, mem-insert i i acknowledged)

  attempt_at_other :
      (i j : ℕ) (ps : List (UpSpaProvider P)) (acknowledged : IdSet) (n : ℕ)
      → j ≢ i
      → get_elem? ((attempt_at P handler i (ps, acknowledged, n)).0) j ≡ get_elem? ps j
  unfolding attempt_at
  attempt_at_other i j ps acknowledged n other = elim (Option-cases (get_elem? ps i)) [
    | inl e ↦ rw (e, attempt_at) refl
    | inr (p, e) ↦ ground (arith, set_other i j ps ((handler i p).1) other)
  ]

  AllReady-after :
      (i : ℕ) (positions : List ℕ) (ps : List (UpSpaProvider P)) (acknowledged : IdSet) (n : ℕ)
      → IsAbove i positions
      → AllReady positions ps
      → AllReady positions ((attempt_at P handler i (ps, acknowledged, n)).0)
  AllReady-after i [] ps acknowledged n a r = tt
  AllReady-after i (j ∷ positions) ps acknowledged n a r = (
    rw (attempt_at_other i j ps acknowledged n (λ e. absurd (omega (arith, a.0, e)))) (r.0),
    AllReady-after i positions ps acknowledged n (IsAbove-weaken i j positions (a.0) (a.1)) (r.1),
  )

  pub attempt_all_keeps :
      (positions : List ℕ) (j : ℕ) (ps : List (UpSpaProvider P)) (acknowledged : IdSet) (n : ℕ)
      → mem j acknowledged ≡ true
      → mem j ((attempt_all P handler positions (ps, acknowledged, n)).1) ≡ true
  unfolding attempt_all
  attempt_all_keeps [] j ps acknowledged n m = m
  attempt_all_keeps (i ∷ positions) j ps acknowledged n m =
      let one = attempt_at P handler i (ps, acknowledged, n) in
      attempt_all_keeps positions j (one.0) (one.1) (one.2)
        (attempt_at_keeps i j ps acknowledged n m)

  -- Every position whose handler would succeed acknowledges.
  pub attempt_all_complete :
      (positions : List ℕ) (j : ℕ) (ps : List (UpSpaProvider P)) (acknowledged : IdSet) (n : ℕ)
      → IsSorted positions
      → AllReady positions ps
      → mem j positions ≡ true
      → mem j ((attempt_all P handler positions (ps, acknowledged, n)).1) ≡ true
  unfolding attempt_all
  attempt_all_complete [] j ps acknowledged n s r m = absurd (ground (arith, m))
  attempt_all_complete (i ∷ positions) j ps acknowledged n s r m =
      let one = attempt_at P handler i (ps, acknowledged, n) in
      elim (ℕ_discrete j i) [
        | yes same ↦ rw same (
            attempt_all_keeps positions i (one.0) (one.1) (one.2)
              (attempt_at_ready i ps acknowledged n (r.0)))
        | no other ↦
            attempt_all_complete positions j (one.0) (one.1) (one.2)
              (IsAbove-IsSorted i positions s)
              (AllReady-after i positions ps acknowledged n s (r.1)) (ground (arith, m))
      ]
