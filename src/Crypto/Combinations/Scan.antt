-- ===== src/Crypto/Combinations/Scan.antt =====
-- crypto.rs: `next_combination` computes the next selection.
use threshold_password_authe.Base.{
  ℕ, zero, suc, ◌+◌, ◌-◌, ◌≤◌, ◌≡◌, refl, sym, ap, ◌∙◌, inl, inr, Bool, true, false, List, [], ◌∷◌,
  length, set, eqb, ltb, Option, none, some, arith, Bool-cases, if◌then◌else◌,
}
use mathlib.Core.Path.{subst}
use threshold_password_authe.Crypto.Combinations.{
  nth, scan, refill, raise, step_at, next_combination,
}
use threshold_password_authe.Crypto.Combinations.Order.{
  IsSelection, IsSelection-bound, IsNext, IsLast, Outcome, run, successor, successor-Outcome,
}

-- The scan of a longer list, from that of its tail.
abbrev bump : ℕ → ℕ → ℕ
bump first zero = first
bump first (suc s) = suc (suc s)

scan-cons :
    (m k x i : ℕ) (xs : List ℕ)
    → suc k ≤ m
    → scan m (suc k) (x ∷ xs) (suc i) ≡ bump (if eqb x (m - suc k) then 0 else 1) (scan m k xs i)
unfolding scan
scan-cons m k x zero xs h = let e : m - suc k + 0 ≡ m - suc k = omega arith in rw e
scan-cons m k x (suc i) xs h =
    let e : m - suc k + suc i ≡ m - k + i = omega arith in
    rw e (ground (arith, scan-cons m k x i xs h))

refill-cons :
    (x j rounds : ℕ) (xs : List ℕ) → refill (x ∷ xs) (suc j) rounds ≡ x ∷ refill xs j rounds
unfolding refill
refill-cons x j zero xs = refl
refill-cons x j (suc rounds) xs =
    let e : suc j + 1 ≡ suc (j + 1) = omega arith in
    rw e (refill-cons x (j + 1) rounds (set xs (j + 1) (nth xs j + 1)))

refill-run : (y : ℕ) (xs : List ℕ) → refill (y ∷ xs) 0 (length xs) ≡ y ∷ run (y + 1) (length xs)
unfolding refill run
refill-run y [] = refl
refill-run y (x ∷ xs) =
    refill-cons y 0 (length xs) ((y + 1) ∷ xs) ∙ ap (◌∷◌ y) (refill-run (y + 1) xs)

raise_first : (x : ℕ) (xs : List ℕ) → raise (x ∷ xs) 0 ≡ run (x + 1) (suc (length xs))
unfolding raise run
raise_first x xs =
    let e : suc (length xs) - (0 + 1) ≡ length xs = omega arith in rw e (refill-run (x + 1) xs)

raise_later : (x j : ℕ) (xs : List ℕ) → raise (x ∷ xs) (suc j) ≡ x ∷ raise xs j
unfolding raise
raise_later x j xs =
    let e : suc (length xs) - (suc j + 1) ≡ length xs - (j + 1) = omega arith in
    rw e (refill-cons x j (length xs - (j + 1)) (set xs j (nth xs j + 1)))

abbrev reported : List ℕ → Option (List ℕ) → Bool × List ℕ
reported xs none = (false, xs)
reported xs (some ys) = (true, ys)

reported-none : (xs : List ℕ) (o : Option (List ℕ)) → (false, xs) ≡ reported xs o → o ≡ none
reported-none xs none h = refl
reported-none xs (some ys) h = cc

reported-some : (xs ys : List ℕ) (o : Option (List ℕ)) → (true, ys) ≡ reported xs o → o ≡ some ys
reported-some xs ys none h = cc
reported-some xs ys (some zs) h = cc

successor-cons :
    (m x s : ℕ) (xs : List ℕ)
    → x + 1 + length xs ≤ m
    → step_at xs s ≡ reported xs (successor m xs)
    → step_at (x ∷ xs) (bump (if eqb x (m - suc (length xs)) then 0 else 1) s)
      ≡ reported (x ∷ xs) (successor m (x ∷ xs))
unfolding successor
successor-cons m x (suc s) xs h e =
    rw (reported-some xs (raise xs s) (successor m xs) e, raise_later x s xs)
successor-cons m x zero xs h e =
    let missing = reported-none xs (successor m xs) e in
    elim (Bool-cases (eqb x (m - suc (length xs)))) [
      | inl full ↦
          let f : ltb (x + 1 + length xs) m ≡ false = ground arith in
          rw (full, missing, successor, f)
      | inr room ↦
          let f : ltb (x + 1 + length xs) m ≡ true = ground arith in
          rw (room, missing, successor, f, raise_first x xs)
    ]

step_at-scan :
    (m low : ℕ) (xs : List ℕ)
    → low ≤ m
    → IsSelection m low xs
    → step_at xs (scan m (length xs) xs (length xs)) ≡ reported xs (successor m xs)
unfolding successor scan
step_at-scan m low [] h v = refl
step_at-scan m low (x ∷ xs) h v =
    let bound = IsSelection-bound m (x + 1) xs (omega arith) v.2 in
    rw (scan-cons m (length xs) x (length xs) xs (omega (arith, bound)))
      (successor-cons m x _ xs bound (step_at-scan m (x + 1) xs (omega arith) v.2))

-- The answer `true` comes with the next selection, and `false` with the given one, which is the last.
abbrev pub IsAnswer : ℕ → List ℕ → Bool × List ℕ → Type 0
IsAnswer m xs (true, ys) = IsNext m 0 xs ys
IsAnswer m xs (false, ys) = (ys ≡ xs) × IsLast m 0 xs

reported-IsAnswer :
    (m : ℕ) (xs : List ℕ) (o : Option (List ℕ)) → Outcome m 0 xs o → IsAnswer m xs (reported xs o)
reported-IsAnswer m xs none h = (refl, h)
reported-IsAnswer m xs (some ys) h = h

next_combination-successor :
    (m : ℕ) (xs : List ℕ)
    → IsSelection m 0 xs
    → next_combination xs m ≡ reported xs (successor m xs)
unfolding next_combination successor
next_combination-successor m [] v = refl
next_combination-successor m (x ∷ xs) v =
    let bound = IsSelection-bound m 0 (x ∷ xs) (omega arith) v in
    let fits : ltb m (suc (length xs)) ≡ false = ground (arith, bound) in
    let some_positions : eqb (suc (length xs)) 0 ≡ false = ground arith in
    rw (some_positions, fits) (step_at-scan m 0 (x ∷ xs) (omega arith) v)

-- Given a strictly increasing selection of positions below `m`, `next_combination` answers `true`
-- with the next selection of the same size in lexicographic order, with none in between, or it
-- answers `false`, leaves the selection as it is, and no selection of that size comes after it.
pub next_combination-IsAnswer :
    (m : ℕ) (xs : List ℕ) → IsSelection m 0 xs → IsAnswer m xs (next_combination xs m)
next_combination-IsAnswer m xs v =
    subst (IsAnswer m xs) (sym (next_combination-successor m xs v))
      (reported-IsAnswer m xs (successor m xs) (successor-Outcome m 0 xs v))
