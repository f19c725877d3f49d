-- ===== src/Crypto/Combinations/Order.antt =====
-- crypto.rs: selections of positions in lexicographic order, and the next one by recursion.
use threshold_password_authe.Base.{
  ℕ, zero, suc, ◌+◌, ◌≤◌, ◌<◌, ◌≡◌, refl, ap, ◌⊎◌, inl, inr, List, [], ◌∷◌, length, ltb, Option,
  none, some, arith, Option-cases, Bool-cases, if◌then◌else◌,
}
use mathlib.Core.Path.{subst}

-- Strictly increasing positions from `low` upwards and below `m`.
abbrev pub IsSelection : ℕ → ℕ → List ℕ → Type 0
IsSelection m low [] = Unit {0}
IsSelection m low (x ∷ xs) = (low ≤ x) × (x < m) × IsSelection m (x + 1) xs

-- The lexicographic order on lists of one length.
abbrev pub Before : List ℕ → List ℕ → Type 0
Before [] ys = ⊥
Before (x ∷ xs) [] = ⊥
Before (x ∷ xs) (y ∷ ys) = (x < y) ⊎ ((x ≡ y) × Before xs ys)

-- `n` positions from `x` upwards.
unfoldable pub run : ℕ → ℕ → List ℕ
run x zero = []
run x (suc n) = x ∷ run (x + 1) n

-- The next selection by recursion on the list.
unfoldable pub successor : ℕ → List ℕ → Option (List ℕ)
successor m [] = none
successor m (x ∷ xs) = elim (successor m xs) [
  | some ys ↦ some (x ∷ ys)
  | none ↦ if ltb (x + 1 + length xs) m then some (run (x + 1) (suc (length xs))) else none
]

length-run : (x n : ℕ) → length (run x n) ≡ n
unfolding run
length-run x zero = refl
length-run x (suc n) = ap suc (length-run (x + 1) n)

run-IsSelection : (m low x n : ℕ) → low ≤ x → x + n ≤ m → IsSelection m low (run x n)
unfolding run
run-IsSelection m low x zero h k = tt
run-IsSelection m low x (suc n) h k =
    (h, omega arith, run-IsSelection m (x + 1) (x + 1) n (omega arith) (omega arith))

-- A selection of `n` positions needs `n` of them below `m`.
pub IsSelection-bound :
    (m low : ℕ) (xs : List ℕ) → low ≤ m → IsSelection m low xs → low + length xs ≤ m
IsSelection-bound m low [] h v = omega arith
IsSelection-bound m low (x ∷ xs) h v =
    omega (arith, IsSelection-bound m (x + 1) xs (omega arith) v.2)

-- Nothing from `x` upwards comes before the run from `x`.
run_least :
    (m x : ℕ) (zs : List ℕ)
    → IsSelection m x zs
    → Before (run x (length zs)) zs ⊎ (run x (length zs) ≡ zs)
unfolding run
run_least m x [] v = inr refl
run_least m x (z ∷ zs) v = elim (Bool-cases (ltb x z)) [
  | inl lt ↦ inl (inl (ground arith))
  | inr ge ↦
      let e : x ≡ z = ground arith in
      elim (run_least m (x + 1) zs (rw e v.2)) [
        | inl b ↦ inl (inr (e, b))
        | inr same ↦ inr (ground (arith, same))
      ]
]

-- What a successor is: a selection of the same size above the given one, and no other in between.
abbrev pub IsNext : ℕ → ℕ → List ℕ → List ℕ → Type 0
IsNext m low xs ys =
    IsSelection m low ys
    × Before xs ys
    × (length ys ≡ length xs)
    × ((zs : List ℕ)
        → length zs ≡ length xs
        → IsSelection m low zs
        → Before xs zs
        → Before ys zs ⊎ (ys ≡ zs))

abbrev pub IsLast : ℕ → ℕ → List ℕ → Type 0
IsLast m low xs = (zs : List ℕ) → length zs ≡ length xs → IsSelection m low zs → Before xs zs → ⊥

abbrev pub Outcome : ℕ → ℕ → List ℕ → Option (List ℕ) → Type 0
Outcome m low xs none = IsLast m low xs
Outcome m low xs (some ys) = IsNext m low xs ys

cons-IsNext :
    (m low x : ℕ) (xs ys : List ℕ)
    → low ≤ x
    → x < m
    → IsNext m (x + 1) xs ys
    → IsNext m low (x ∷ xs) (x ∷ ys)
cons-IsNext m low x xs ys h k (valid, above, size, least) =
    ((h, k, valid), inr (refl, above), ap suc size, below)
  where
    below :
        (zs : List ℕ)
        → length zs ≡ length (x ∷ xs)
        → IsSelection m low zs
        → Before (x ∷ xs) zs
        → Before (x ∷ ys) zs ⊎ (x ∷ ys ≡ zs)
    below [] e v b = absurd b
    below (z ∷ zs) e v (inl lt) = inl (inl lt)
    below (z ∷ zs) e v (inr (same, b)) = elim (least zs (omega arith) (rw same v.2) b) [
      | inl c ↦ inl (inr (same, c))
      | inr c ↦ inr (ground (arith, same, c))
    ]

raised-IsNext :
    (m low x : ℕ) (xs : List ℕ)
    → low ≤ x
    → x + 1 + length xs < m
    → IsLast m (x + 1) xs
    → IsNext m low (x ∷ xs) (run (x + 1) (suc (length xs)))
raised-IsNext m low x xs h k last = (
  run-IsSelection m low (x + 1) (suc (length xs)) (omega arith) (omega arith),
  unfold run in inl (omega arith),
  length-run (x + 1) (suc (length xs)),
  least,
)
  where
    least :
        (zs : List ℕ)
        → length zs ≡ length (x ∷ xs)
        → IsSelection m low zs
        → Before (x ∷ xs) zs
        → Before (run (x + 1) (suc (length xs))) zs ⊎ (run (x + 1) (suc (length xs)) ≡ zs)
    least [] e v b = absurd b
    least (z ∷ zs) e v (inl lt) = rw (← e) (run_least m (x + 1) (z ∷ zs) (omega arith, v.1, v.2))
    least (z ∷ zs) e v (inr (same, b)) = absurd (last zs (omega arith) (rw same v.2) b)

full-IsLast :
    (m low x : ℕ) (xs : List ℕ)
    → m ≤ x + 1 + length xs
    → IsLast m (x + 1) xs
    → IsLast m low (x ∷ xs)
full-IsLast m low x xs h last [] e v b = b
full-IsLast m low x xs h last (z ∷ zs) e v (inl lt) =
    omega (arith, IsSelection-bound m (z + 1) zs (omega arith) v.2)
full-IsLast m low x xs h last (z ∷ zs) e v (inr (same, b)) = last zs (omega arith) (rw same v.2) b

pub successor-Outcome :
    (m low : ℕ) (xs : List ℕ) → IsSelection m low xs → Outcome m low xs (successor m xs)
unfolding successor
successor-Outcome m low [] v = λ zs e w b. b
successor-Outcome m low (x ∷ xs) v = elim (Option-cases (successor m xs)) [
  | inr (ys, e) ↦
      rw (e, successor)
        (cons-IsNext m low x xs ys v.0 v.1
          (subst (Outcome m (x + 1) xs) e (successor-Outcome m (x + 1) xs v.2)))
  | inl e ↦
      let last : IsLast m (x + 1) xs =
        subst (Outcome m (x + 1) xs) e (successor-Outcome m (x + 1) xs v.2) in
      elim (Bool-cases (ltb (x + 1 + length xs) m)) [
        | inl room ↦ rw (e, successor, room) (raised-IsNext m low x xs v.0 (ground arith) last)
        | inr full ↦ rw (e, successor, full) (full-IsLast m low x xs (ground arith) last)
      ]
]
