-- ===== src/Crypto/Combinations.antt =====
-- crates/upspa-quorum/src/crypto.rs: `next_combination`, the next selection of positions in
-- lexicographic order. An index out of range, where the source would panic, reads as zero.
pub mod Order
pub mod Scan
use threshold_password_authe.Base.{
  ℕ, zero, suc, ◌+◌, ◌-◌, Bool, true, false, ◌||◌, List, [], ◌∷◌, length, set, eqb, ltb,
  if◌then◌else◌,
}

-- `idx[i]`.
abbrev pub nth : List ℕ → ℕ → ℕ
nth [] i = 0
nth (x ∷ xs) zero = x
nth (x ∷ xs) (suc i) = nth xs i

-- The `while` loop, from `i` downwards.
unfoldable pub scan : ℕ → ℕ → List ℕ → ℕ → ℕ
scan m k idx zero = 0
scan m k idx (suc i) =
    let rest = scan m k idx i in if eqb (nth idx i) (m - k + i) then rest else suc i

-- The `for` loop, for `rounds` positions from `j + 1` upwards.
unfoldable pub refill : List ℕ → ℕ → ℕ → List ℕ
refill idx j zero = idx
refill idx j (suc rounds) = refill (set idx (j + 1) (nth idx j + 1)) (j + 1) rounds

-- The writes that follow the scan, where it stopped behind the position `j`.
unfoldable pub raise : List ℕ → ℕ → List ℕ
unfolding refill
raise idx j = refill (set idx j (nth idx j + 1)) j (length idx - (j + 1))

-- What the scan found: nothing to raise, or a position.
abbrev pub step_at : List ℕ → ℕ → Bool × List ℕ
step_at idx zero = (false, idx)
step_at idx (suc j) = (true, raise idx j)

unfoldable pub next_combination : List ℕ → ℕ → Bool × List ℕ
unfolding scan raise
next_combination idx m =
    let k = length idx in if eqb k 0 || ltb m k then (false, idx) else step_at idx (scan m k idx k)
