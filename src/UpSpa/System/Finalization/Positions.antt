-- ===== src/UpSpa/System/Finalization/Positions.antt =====
-- Sets of positions that an attempt at a finalization works with.
use threshold_password_authe.Base.{
  not, false, ℕ, zero, suc, ◌<◌, ◌≤◌, ◌≡◌, ◌≢◌, refl, ap, List, [], ◌∷◌, length, keep, All, true,
  Bool, get_elem?, set, some, arith, ℕ_discrete, ◌&&◌,
}
use mathlib.Core.Path.{subst}
use threshold_password_authe.Base.IdSet.{IdSet, mem, IsAbove, IsSorted}

pub mem_above : (n x : ℕ) (xs : IdSet) → IsAbove n xs → mem x xs ≡ true → n < x
mem_above n x [] v h = absurd (ground arith)
mem_above n x (y ∷ ys) v h = ground (arith, mem_above y x ys)

pub IsAbove-weaken : (m n : ℕ) (xs : IdSet) → m < n → IsAbove n xs → IsAbove m xs
IsAbove-weaken m n [] h v = tt
IsAbove-weaken m n (x ∷ xs) h v = ground arith

keep-IsAbove : (p : ℕ → Bool) (n : ℕ) (xs : IdSet) → IsAbove n xs → IsAbove n (keep p xs)
keep-IsAbove p n [] v = tt
keep-IsAbove p n (x ∷ xs) v = ground (arith, keep-IsAbove p x xs, IsAbove-weaken n x (keep p xs))

pub keep-IsSorted : (p : ℕ → Bool) (xs : IdSet) → IsSorted xs → IsSorted (keep p xs)
keep-IsSorted p [] v = tt
keep-IsSorted p (x ∷ xs) v = ground (arith, keep-IsAbove p x xs, keep-IsSorted p xs)

pub IsAbove-IsSorted : (n : ℕ) (xs : IdSet) → IsAbove n xs → IsSorted xs
IsAbove-IsSorted n [] v = tt
IsAbove-IsSorted n (x ∷ xs) v = v.1

-- All of the one stand in the other.
abbrev pub IsWithin : IdSet → IdSet → Type 0
IsWithin xs ys = (x : ℕ) → mem x xs ≡ true → mem x ys ≡ true

abbrev pub AllAcked : IdSet → IdSet → Type 0
AllAcked xs ys = All (λ x. mem x ys ≡ true) xs

-- Elements above `y` are not `y`.
narrow : (y : ℕ) (xs ys : IdSet) → IsAbove y xs → AllAcked xs (y ∷ ys) → AllAcked xs ys
narrow y [] ys v h = tt
narrow y (x ∷ xs) ys v h =
    (ground (arith, h.0), narrow y xs ys (IsAbove-weaken y x xs (v.0) (v.1)) (h.1))

-- A sorted list within another is no longer than it, and is the other where it is as long.
sorted_within :
    (xs ys : IdSet)
    → IsSorted xs
    → IsSorted ys
    → AllAcked xs ys
    → (length xs ≤ length ys) × ((length ys ≤ length xs) → xs ≡ ys)
sorted_within [] [] v w h = (omega arith, λ k. refl)
sorted_within [] (y ∷ ys) v w h = (omega arith, λ k. absurd (omega arith))
sorted_within (x ∷ xs) [] v w h = absurd (ground arith)
sorted_within (x ∷ xs) (y ∷ ys) v w h = elim (ℕ_discrete x y) [
  | yes e ↦
      let rest =
        sorted_within xs ys (IsAbove-IsSorted x xs v) (IsAbove-IsSorted y ys w)
          (narrow y xs ys (subst (λ z. IsAbove z xs) e v) (h.1)) in
      (omega (arith, rest.0), λ k. λ i. e i ∷ rest.1 (omega arith) i)
  | no n ↦
      let inside : mem x ys ≡ true = ground (arith, h.0) in
      let above = mem_above y x ys w inside in
      let rest =
        sorted_within (x ∷ xs) ys v (IsAbove-IsSorted y ys w)
          (inside, narrow y xs ys (IsAbove-weaken y x xs above v) (h.1)) in
      (omega (arith, rest.0), λ k. absurd (omega (arith, rest.0)))
]

all_within : (xs ys : IdSet) → IsWithin xs ys → AllAcked xs ys
all_within [] ys h = tt
all_within (x ∷ xs) ys h = (h x (ground arith), all_within xs ys (λ z k. h z (ground (arith, k))))

-- As many sorted positions as there are, all of them among these, are these.
pub within-same :
    (xs ys : IdSet) → IsSorted xs → IsSorted ys → IsWithin xs ys → length xs ≡ length ys → xs ≡ ys
within-same xs ys v w h e = (sorted_within xs ys v w (all_within xs ys h)).1 (omega arith)

pub within-all :
    (xs ys : IdSet)
    → IsSorted xs
    → IsSorted ys
    → IsWithin xs ys
    → IsWithin ys xs
    → length xs ≡ length ys
within-all xs ys v w h k =
    let one = sorted_within xs ys v w (all_within xs ys h) in
    let two = sorted_within ys xs w v (all_within ys xs k) in omega (arith, one.0, two.0)

pub mem-keep : (p : ℕ → Bool) (x : ℕ) (xs : IdSet) → mem x (keep p xs) ≡ (p x && mem x xs)
mem-keep p x [] = ground arith
mem-keep p x (y ∷ ys) = ground (arith, mem-keep p x ys)

module _ {A : Type 0} where
  pub set_self :
      (i : ℕ) (xs : List A) (x y : A) → get_elem? xs i ≡ some x → get_elem? (set xs i y) i ≡ some y
  set_self i [] x y h = absurd (ground arith)
  set_self zero (z ∷ zs) x y h = refl
  set_self (suc i) (z ∷ zs) x y h = set_self i zs x y h

  pub set_other :
      (i j : ℕ) (xs : List A) (y : A) → j ≢ i → get_elem? (set xs i y) j ≡ get_elem? xs j
  set_other i j [] y n = refl
  set_other zero zero (z ∷ zs) y n = absurd (n refl)
  set_other zero (suc j) (z ∷ zs) y n = refl
  set_other (suc i) zero (z ∷ zs) y n = refl
  set_other (suc i) (suc j) (z ∷ zs) y n = set_other i j zs y (λ e. n (ap suc e))

pub fresh_positions :
    (positions acknowledged : IdSet)
    → All (λ i. mem i acknowledged ≡ false) (keep (λ i. not (mem i acknowledged)) positions)
fresh_positions [] acknowledged = tt
fresh_positions (i ∷ positions) acknowledged =
    ground (arith, fresh_positions positions acknowledged)
