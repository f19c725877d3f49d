-- ===== src/Base/IdSet.antt =====
-- `BTreeSet<u32>` and `BTreeSet<usize>`: a strictly increasing list.
use threshold_password_authe.Base.Tests.{ltb, eqb, if◌then◌else◌}
use threshold_password_authe.Base.Lists.{length, any, All}
use Prim.Native.Nat.{ℕ, ◌<◌, ◌≤◌}
use mathlib.Core.Path.{◌≡◌, refl}
use mathlib.Core.Bool.{Bool, ◌||◌}
use mathlib.Core.List.{List, [], ◌∷◌}
use native.Mathlib.Omega.{arith}

abbrev pub IdSet : Type 0
IdSet = List ℕ

abbrev pub mem : ℕ → IdSet → Bool
mem a = any (eqb a)

abbrev pub insert : ℕ → IdSet → IdSet
insert a [] = a ∷ []
insert a (x ∷ xs) =
    let rest = insert a xs in if ltb a x then a ∷ x ∷ xs else if eqb a x then x ∷ xs else x ∷ rest

abbrev pub IsAbove : ℕ → IdSet → Type 0
IsAbove n [] = Unit {0}
IsAbove n (x ∷ xs) = (n < x) × IsAbove x xs

-- Strictly increasing, so free of duplicates.
abbrev pub IsSorted : IdSet → Type 0
IsSorted [] = Unit {0}
IsSorted (x ∷ xs) = IsAbove x xs

pub insert-IsAbove : (n a : ℕ) (s : IdSet) → n < a → IsAbove n s → IsAbove n (insert a s)
insert-IsAbove n a [] h v = (h, tt)
insert-IsAbove n a (x ∷ xs) h v = ground (arith, insert-IsAbove x a xs)

pub insert-IsSorted : (a : ℕ) (s : IdSet) → IsSorted s → IsSorted (insert a s)
insert-IsSorted a [] v = tt
insert-IsSorted a (x ∷ xs) v = ground (arith, insert-IsAbove x a xs)

pub mem-insert : (b a : ℕ) (s : IdSet) → mem b (insert a s) ≡ (eqb b a || mem b s)
mem-insert b a [] = refl
mem-insert b a (x ∷ xs) = ground (arith, mem-insert b a xs)

pub length-insert-le : (a : ℕ) (s : IdSet) → length s ≤ length (insert a s)
length-insert-le a [] = omega arith
length-insert-le a (x ∷ xs) = ground (arith, length-insert-le a xs)

-- Ids between one and `n`, in order.
abbrev pub WithinIds : ℕ → IdSet → Type 0
WithinIds n s = IsAbove 0 s × All (λ a. a ≤ n) s

insert-All-le : (n a : ℕ) (s : IdSet) → a ≤ n → All (λ b. b ≤ n) s → All (λ b. b ≤ n) (insert a s)
insert-All-le n a [] h v = (h, tt)
insert-All-le n a (x ∷ xs) h v = ground (arith, insert-All-le n a xs)

pub insert-WithinIds :
    (n a : ℕ) (s : IdSet) → 0 < a → a ≤ n → WithinIds n s → WithinIds n (insert a s)
insert-WithinIds n a s h k v = (insert-IsAbove 0 a s h v.0, insert-All-le n a s k v.1)
