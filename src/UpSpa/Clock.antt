-- ===== src/UpSpa/Clock.antt =====
-- crates/upspa/src/protocols/system.rs: the clocks that stamp password updates.
use threshold_password_authe.Base.{ℕ, ◌+◌, ◌%◌, ◌≤◌, ◌<◌, List, [], ◌∷◌, u64_max, arith}
use Prim.Native.Nat.{max, min}

abbrev pub saturating_add : ℕ → ℕ → ℕ
saturating_add a b = min (a + b) u64_max

-- The loop of `SystemClock::now`. `previous` is the value that was loaded, and each of `observed` is
-- what a failed exchange found in its place. The result is what the exchange that succeeds stores.
unfoldable pub now : ℕ → ℕ → List ℕ → ℕ
now wall_clock previous [] = max wall_clock (saturating_add previous 1)
now wall_clock previous (found ∷ observed) = now wall_clock found observed

-- `DeterministicTestClock`, by its value. `advance` gives what it answers and the value it leaves.
unfoldable pub advance : ℕ → ℕ → ℕ × ℕ
advance value delta = (saturating_add value delta, (value + delta) % (u64_max + 1))

-- The value that the successful exchange replaced: the last one seen.
unfoldable pub replaced : ℕ → List ℕ → ℕ
replaced previous [] = previous
replaced previous (found ∷ observed) = replaced found observed

-- Let the wall clock fit in 64 bits, and the value that the system clock's successful exchange
-- replaces be below the largest one. However many exchanges fail before it, the new time is later
-- than the replaced one, not before the wall clock, and fits in 64 bits.
pub now_advances :
    (wall_clock previous : ℕ) (observed : List ℕ)
    → replaced previous observed < u64_max
    → wall_clock ≤ u64_max
    → (replaced previous observed < now wall_clock previous observed)
      × (wall_clock ≤ now wall_clock previous observed)
      × (now wall_clock previous observed ≤ u64_max)
unfolding now replaced
now_advances wall_clock previous [] h k = (omega arith, omega arith, omega arith)
now_advances wall_clock previous (found ∷ observed) h k = now_advances wall_clock found observed h k
