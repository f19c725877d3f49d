-- ===== src/System/Phases/Reaching.antt =====
-- roupspa.rs: a write to every reachable provider. Where each of them accepts, each is counted once.
use threshold_password_authe.Base.{
  ℕ, ◌+◌, ◌≤◌, ◌<◌, ◌≡◌, refl, sym, ap, ◌∙◌, ◌⊎◌, inl, inr, ok, List, [], ◌∷◌, ◌++◌, length, set,
  get_elem?, All, some, arith, Bool-cases, true, false, leb, if◌then◌else◌, length-append,
}
use mathlib.Core.List.{append_assoc, append-nil}
use threshold_password_authe.Base.IdSet.{IdSet}
use threshold_password_authe.Base.IdSet
use threshold_password_authe.Primitives.{Primitives}
use threshold_password_authe.Provider.{RoUpSpaProvider}
use threshold_password_authe.Thresholds.Intersection.{count}
use threshold_password_authe.System.Writes.{
  Write, write_one, write_all, check_targets, validate_provider_targets,
}
use threshold_password_authe.System.Writes.Counting.{Numbered}
use threshold_password_authe.System.Phases.{reachable_from}

-- A number above a set goes to its end.
insert_above : (a : ℕ) (ids : IdSet) → All (λ x. x < a) ids → IdSet.insert a ids ≡ ids ++ (a ∷ [])
insert_above a [] h = refl
insert_above a (x ∷ ids) h = ground (arith, insert_above a ids h.1)

All-below-append :
    (a b : ℕ) (ids : IdSet)
    → a ≤ b
    → All (λ x. x < a) ids
    → a < b
    → All (λ x. x < b) (ids ++ (a ∷ []))
All-below-append a b [] h k l = (l, tt)
All-below-append a b (x ∷ ids) h k l = (omega (arith, k.0), All-below-append a b ids h k.1 l)

All-below-weaken : (a b : ℕ) (ids : IdSet) → a ≤ b → All (λ x. x < a) ids → All (λ x. x < b) ids
All-below-weaken a b [] h k = tt
All-below-weaken a b (x ∷ ids) h k = (omega (arith, k.0), All-below-weaken a b ids h k.1)

get_elem?-middle {ℓ} :
    {A : Type ℓ} (pre : List A) (x : A) (post : List A)
    → get_elem? (pre ++ x ∷ post) (length pre) ≡ some x
get_elem?-middle [] x post = refl
get_elem?-middle (y ∷ pre) x post = get_elem?-middle pre x post

set-middle {ℓ} :
    {A : Type ℓ} (pre : List A) (x y : A) (post : List A)
    → set (pre ++ x ∷ post) (length pre) y ≡ (pre ++ (y ∷ [])) ++ post
set-middle [] x y post = refl
set-middle (z ∷ pre) x y post = ap (◌∷◌ z) (set-middle pre x y post)

module _ (P : Primitives) where
  reachable_from-near :
      (i : ℕ) (p : RoUpSpaProvider P) (ps : List (RoUpSpaProvider P))
      → p.reachable ≡ true
      → reachable_from P i (p ∷ ps) ≡ i ∷ reachable_from P (i + 1) ps
  unfolding reachable_from
  reachable_from-near i p ps near =
      ap (λ b. if b then i ∷ reachable_from P (i + 1) ps else reachable_from P (i + 1) ps) near

  reachable_from-away :
      (i : ℕ) (p : RoUpSpaProvider P) (ps : List (RoUpSpaProvider P))
      → p.reachable ≡ false
      → reachable_from P i (p ∷ ps) ≡ reachable_from P (i + 1) ps
  unfolding reachable_from
  reachable_from-away i p ps away =
      ap (λ b. if b then i ∷ reachable_from P (i + 1) ps else reachable_from P (i + 1) ps) away

  -- The targets that are sent are those that were chosen.
  check_targets_reachable :
      (n i : ℕ) (ps : List (RoUpSpaProvider P)) (unique : IdSet)
      → i + length ps ≤ n
      → All (λ x. x < i) unique
      → check_targets n (reachable_from P i ps) unique ≡ ok (unique ++ reachable_from P i ps)
  unfolding reachable_from check_targets
  check_targets_reachable n i [] unique h k = ap ok (sym (append-nil unique))
  check_targets_reachable n i (p ∷ ps) unique h k = elim (Bool-cases p.reachable) [
    | inr away ↦
        rw (away, reachable_from)
          (check_targets_reachable n (i + 1) ps unique (omega arith)
            (All-below-weaken i (i + 1) unique (omega arith) k))
    | inl near ↦
        let fits : leb n i ≡ false = ground arith in
        rw (near, reachable_from, fits)
          (ap (check_targets n (reachable_from P (i + 1) ps)) (insert_above i unique k)
            ∙ check_targets_reachable n (i + 1) ps (unique ++ (i ∷ [])) (omega arith)
                (All-below-append i (i + 1) unique (omega arith) k (omega arith))
            ∙ ap ok (append_assoc unique (i ∷ []) (reachable_from P (i + 1) ps)))
  ]

  module _ (write : Write P) where
    abbrev pub Accepts : RoUpSpaProvider P → Type 0
    Accepts p = (q : RoUpSpaProvider P) × (write p ≡ ok q) × (q.id ≡ p.id)

    write_one-Accepts :
        (pre : List (RoUpSpaProvider P)) (p q : RoUpSpaProvider P) (ps : List (RoUpSpaProvider P))
        (accepted : IdSet)
        → write p ≡ ok q
        → write_one P write (length pre) (pre ++ p ∷ ps, accepted)
          ≡ ((pre ++ (q ∷ [])) ++ ps, IdSet.insert q.id accepted)
    unfolding write_one
    write_one-Accepts pre p q ps accepted e =
        rw (get_elem?-middle pre p ps, write_one, e)
          (ap (λ qs. (qs, IdSet.insert q.id accepted)) (set-middle pre p q ps))

    pub write_all_reachable :
        (i : ℕ) (pre ps : List (RoUpSpaProvider P)) (accepted : IdSet)
        → length pre ≡ i
        → Numbered P (i + 1) ps
        → All (λ x. x < i + 1) accepted
        → All (λ p. (p.reachable ≡ false) ⊎ Accepts p) ps
        → length (write_all P write (reachable_from P i ps) (pre ++ ps, accepted)).1
          ≡ length accepted + count (λ p. p.reachable) ps
    unfolding write_all reachable_from
    write_all_reachable i pre [] accepted l n k h = omega arith
    write_all_reachable i pre (p ∷ ps) accepted l n k h = elim (Bool-cases p.reachable) [
      | inr away ↦
          ap (λ is. length (write_all P write is (pre ++ p ∷ ps, accepted)).1)
            (reachable_from-away i p ps away)
          ∙ ap (λ qs. length (write_all P write (reachable_from P (i + 1) ps) (qs, accepted)).1)
              (sym (append_assoc pre (p ∷ []) ps))
          ∙ write_all_reachable (i + 1) (pre ++ (p ∷ [])) ps accepted
              (omega (arith, l, length-append pre (p ∷ []))) n.1
              (All-below-weaken (i + 1) (i + 1 + 1) accepted (omega arith) k) h.1
          ∙ ground arith
      | inl near ↦
          let (q, e, same) = accepts p h.0 near in
          let number : q.id ≡ i + 1 = same ∙ n.0 in
          ap (λ is. length (write_all P write is (pre ++ p ∷ ps, accepted)).1)
            (reachable_from-near i p ps near)
          ∙ ap
              (λ j.
                length
                  (write_all P write (reachable_from P (i + 1) ps)
                    (write_one P write j (pre ++ p ∷ ps, accepted))).1)
              (sym l)
          ∙ ap (λ progress. length (write_all P write (reachable_from P (i + 1) ps) progress).1)
              (write_one-Accepts pre p q ps accepted e)
          ∙ ap
              (λ a.
                length
                  (write_all P write (reachable_from P (i + 1) ps) ((pre ++ (q ∷ [])) ++ ps, a)).1)
              (ap (λ j. IdSet.insert j accepted) number ∙ insert_above (i + 1) accepted k)
          ∙ write_all_reachable (i + 1) (pre ++ (q ∷ [])) ps (accepted ++ ((i + 1) ∷ []))
              (omega (arith, l, length-append pre (q ∷ []))) n.1
              (All-below-append (i + 1) (i + 1 + 1) accepted (omega arith) k (omega arith)) h.1
          ∙ counted accepted (i + 1) p ps near
    ]
      where
        accepts :
            (p : RoUpSpaProvider P)
            → (p.reachable ≡ false) ⊎ Accepts p
            → p.reachable ≡ true
            → Accepts p
        accepts p (inl away) near = absurd (cc)
        accepts p (inr a) near = a

        counted :
            (ids : IdSet) (a : ℕ) (p : RoUpSpaProvider P) (ps : List (RoUpSpaProvider P))
            → p.reachable ≡ true
            → length (ids ++ (a ∷ [])) + count (λ p. p.reachable) ps
              ≡ length ids + count (λ p. p.reachable) (p ∷ ps)
        counted ids a p ps near = ground (arith, length-append ids (a ∷ []))

  length-reachable_from :
      (i : ℕ) (ps : List (RoUpSpaProvider P))
      → length (reachable_from P i ps) ≡ count (λ p. p.reachable) ps
  unfolding reachable_from
  length-reachable_from i [] = refl
  length-reachable_from i (p ∷ ps) = ground (arith, length-reachable_from (i + 1) ps)

  -- The targets of a write to every reachable provider are valid, if there is one.
  pub targets_reachable :
      (ps : List (RoUpSpaProvider P))
      → 1 ≤ count (λ p. p.reachable) ps
      → validate_provider_targets (length ps) (reachable_from P 0 ps) ≡ ok (reachable_from P 0 ps)
  unfolding validate_provider_targets
  targets_reachable ps h =
      nonempty (reachable_from P 0 ps) (omega (arith, length-reachable_from 0 ps))
      ∙ check_targets_reachable (length ps) 0 ps [] (omega arith) tt
    where
      nonempty :
          (indices : List ℕ)
          → 1 ≤ length indices
          → validate_provider_targets (length ps) indices ≡ check_targets (length ps) indices []
      nonempty [] k = absurd (omega arith)
      nonempty (i ∷ indices) k = refl
