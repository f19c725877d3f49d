-- ===== src/Thresholds/Intersection.antt =====
-- roupspa.rs: what the threshold check buys. Two quorums share a threshold of providers.
use threshold_password_authe.Base.{
  ℕ, zero, suc, ◌+◌, ◌-◌, ◌*◌, ◌≤◌, ◌<◌, ◌≡◌, ok, some, Bool, ◌&&◌, List, [], ◌∷◌, length, arith,
  Bool-cases, inl, inr, if◌then◌else◌,
}
use threshold_password_authe.Thresholds.{
  intersects, validate_thresholds, find_quorum, minimum_quorum_size,
}

module _ {ℓ} {A : Type ℓ} where
  -- How many elements pass a test.
  abbrev pub count : (A → Bool) → List A → ℕ
  count p [] = 0
  count p (x ∷ xs) = (if p x then 1 else 0) + count p xs

  pub count-and :
      (p q : A → Bool) (xs : List A)
      → count p xs + count q xs ≤ length xs + count (λ x. p x && q x) xs
  count-and p q [] = omega arith
  count-and p q (x ∷ xs) = ground (arith, count-and p q xs)

-- Let the thresholds `nsp`, `tsp` and `qsp` be valid. Then any two sets that each hold at least
-- `qsp` of the `nsp` providers have at least `tsp` providers in common.
pub quorums_intersect {ℓ} :
    {A : Type ℓ} (nsp tsp qsp : ℕ) (a b : A → Bool) (providers : List A)
    → validate_thresholds nsp tsp qsp ≡ ok tt
    → length providers ≡ nsp
    → qsp ≤ count a providers
    → qsp ≤ count b providers
    → tsp ≤ count (λ x. a x && b x) providers
unfolding validate_thresholds
quorums_intersect nsp tsp qsp a b providers valid size ha hb =
    ground (arith, count-and a b providers)

-- What `find` gives, against any other candidate `j`.
find_quorum_lem :
    (nsp tsp rounds qsp j : ℕ)
    → qsp + rounds ≡ nsp + 1
    → qsp ≤ nsp
    → tsp ≤ nsp
    → qsp ≤ j
    → tsp + nsp < 2 * j + 1
    → (q : ℕ) × (find_quorum nsp tsp rounds qsp ≡ some q)
      × (qsp ≤ q)
      × (q ≤ nsp)
      × (tsp + nsp < 2 * q + 1)
      × (q ≤ j)
unfolding find_quorum
find_quorum_lem nsp tsp zero qsp j h l k le i = absurd (omega arith)
find_quorum_lem nsp tsp (suc rounds) qsp j h l k le i = elim (Bool-cases (intersects nsp tsp qsp)) [
  | inl hit ↦ (qsp, rw hit, omega arith, omega arith, ground arith, omega arith)
  | inr miss ↦
      let found =
        find_quorum_lem nsp tsp rounds (qsp + 1) j (omega arith) (ground arith) k (ground arith)
          i in
      (found.0, rw miss found.1, omega (arith, found.2), found.3, found.4, found.5)
]

-- Whenever some quorum size `j` is valid for `nsp` and `tsp`, `minimum_quorum_size` finds a size
-- that is valid and no larger than `j`.
pub minimum_quorum_least :
    (nsp tsp j : ℕ)
    → validate_thresholds nsp tsp j ≡ ok tt
    → (q : ℕ) × (minimum_quorum_size nsp tsp ≡ ok q)
      × (validate_thresholds nsp tsp q ≡ ok tt)
      × (q ≤ j)
unfolding validate_thresholds minimum_quorum_size
minimum_quorum_least nsp tsp j valid =
    let found =
      find_quorum_lem nsp tsp (nsp + 1 - tsp) tsp j (ground arith) (ground arith) (ground arith)
        (ground arith) (ground arith) in
    (found.0, ground arith, ground arith, found.5)

-- The largest threshold still has a valid quorum, all providers.
pub validate_all : (nsp tsp : ℕ) → 1 ≤ tsp → tsp ≤ nsp → validate_thresholds nsp tsp nsp ≡ ok tt
unfolding validate_thresholds
validate_all nsp tsp h k = ground arith
