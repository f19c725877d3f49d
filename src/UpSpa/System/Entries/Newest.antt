-- ===== src/UpSpa/System/Entries/Newest.antt =====
-- crates/upspa/src/protocols/system.rs: sorting and taking the last entry gives one that was read and
-- has the highest counter.
use threshold_password_authe.Base.{
  ℕ, ◌≤◌, ◌≡◌, refl, sym, ◌∙◌, List, [], ◌∷◌, leb, some, ◌⊎◌, inl, inr, arith, Bool-cases,
}
use mathlib.Core.Path.{subst}
use threshold_password_authe.UpSpa.System.Entries.{Entry, place, sort_by_counter, last}

abbrev pub IsIn : Entry → List Entry → Type 0
IsIn e [] = ⊥
IsIn e (x ∷ xs) = (e ≡ x) ⊎ IsIn e xs

abbrev AllAtLeast : ℕ → List Entry → Type 0
AllAtLeast n [] = Unit {0}
AllAtLeast n (x ∷ xs) = (n ≤ x.1) × AllAtLeast n xs

abbrev IsOrdered : List Entry → Type 0
IsOrdered [] = Unit {0}
IsOrdered (x ∷ xs) = AllAtLeast (x.1) xs × IsOrdered xs

AllAtLeast-weaken : (m n : ℕ) (xs : List Entry) → m ≤ n → AllAtLeast n xs → AllAtLeast m xs
AllAtLeast-weaken m n [] h v = tt
AllAtLeast-weaken m n (x ∷ xs) h v = (omega (arith, v.0), AllAtLeast-weaken m n xs h (v.1))

place-AllAtLeast :
    (n : ℕ) (e : Entry) (xs : List Entry) → n ≤ e.1 → AllAtLeast n xs → AllAtLeast n (place e xs)
unfolding place
place-AllAtLeast n e [] h v = (h, tt)
place-AllAtLeast n e (x ∷ xs) h v = ground (arith, place-AllAtLeast n e xs h (v.1))

place-IsOrdered : (e : Entry) (xs : List Entry) → IsOrdered xs → IsOrdered (place e xs)
unfolding place
place-IsOrdered e [] v = (tt, tt)
place-IsOrdered e (x ∷ xs) v = elim (Bool-cases (leb (e.1) (x.1))) [
  | inl h ↦
      let le : e.1 ≤ x.1 = ground (arith, h) in
      rw (h, place) ((le, AllAtLeast-weaken (e.1) (x.1) xs le (v.0)), v)
  | inr h ↦
      rw (h, place)
        (place-AllAtLeast (x.1) e xs (ground (arith, h)) (v.0), place-IsOrdered e xs (v.1))
]

sort-IsOrdered : (xs : List Entry) → IsOrdered (sort_by_counter xs)
unfolding sort_by_counter
sort-IsOrdered [] = tt
sort-IsOrdered (x ∷ xs) = place-IsOrdered x (sort_by_counter xs) (sort-IsOrdered xs)

place_self : (e : Entry) (xs : List Entry) → IsIn e (place e xs)
unfolding place
place_self e [] = inl refl
place_self e (x ∷ xs) = ground (arith, place_self e xs)

place_keeps : (a e : Entry) (xs : List Entry) → IsIn a xs → IsIn a (place e xs)
unfolding place
place_keeps a e [] h = absurd h
place_keeps a e (x ∷ xs) h = ground (arith, place_keeps a e xs)

place_from : (a e : Entry) (xs : List Entry) → IsIn a (place e xs) → (a ≡ e) ⊎ IsIn a xs
unfolding place
place_from a e [] h = h
place_from a e (x ∷ xs) h = ground (arith, place_from a e xs)

sort_keeps : (a : Entry) (xs : List Entry) → IsIn a xs → IsIn a (sort_by_counter xs)
unfolding sort_by_counter
sort_keeps a [] h = absurd h
sort_keeps a (x ∷ xs) h = ground (
  arith,
  place_self x (sort_by_counter xs),
  place_keeps a x (sort_by_counter xs),
  sort_keeps a xs,
)

sort_from : (a : Entry) (xs : List Entry) → IsIn a (sort_by_counter xs) → IsIn a xs
unfolding sort_by_counter
sort_from a [] h = absurd h
sort_from a (x ∷ xs) h = ground (arith, place_from a x (sort_by_counter xs) h, sort_from a xs)

last-IsIn : (e : Entry) (xs : List Entry) → last xs ≡ some e → IsIn e xs
unfolding last
last-IsIn e [] h = absurd (ground (arith, h))
last-IsIn e (x ∷ []) h = inl (ground (arith, h))
last-IsIn e (x ∷ y ∷ xs) h = inr (last-IsIn e (y ∷ xs) h)

AllAtLeast-IsIn : (n : ℕ) (e : Entry) (xs : List Entry) → AllAtLeast n xs → IsIn e xs → n ≤ e.1
AllAtLeast-IsIn n e [] v h = absurd h
AllAtLeast-IsIn n e (x ∷ xs) v (inl p) = subst (λ z. n ≤ z.1) (sym p) (v.0)
AllAtLeast-IsIn n e (x ∷ xs) v (inr p) = AllAtLeast-IsIn n e xs (v.1) p

last_highest :
    (e a : Entry) (xs : List Entry) → IsOrdered xs → last xs ≡ some e → IsIn a xs → a.1 ≤ e.1
unfolding last
last_highest e a [] v h m = absurd m
last_highest e a (x ∷ []) v h (inl p) =
    let same : x ≡ e = ground (arith, h) in
    let least : e.1 ≤ e.1 = omega arith in subst (λ z. z.1 ≤ e.1) (sym (p ∙ same)) least
last_highest e a (x ∷ []) v h (inr p) = absurd p
last_highest e a (x ∷ y ∷ xs) v h (inl p) =
    subst (λ z. z.1 ≤ e.1) (sym p) (AllAtLeast-IsIn (x.1) e (y ∷ xs) (v.0) (last-IsIn e (y ∷ xs) h))
last_highest e a (x ∷ y ∷ xs) v h (inr p) = last_highest e a (y ∷ xs) (v.1) h p

last-some : (a : Entry) (xs : List Entry) → IsIn a xs → (e : Entry) × (last xs ≡ some e)
unfolding last
last-some a [] h = absurd h
last-some a (x ∷ []) h = (x, refl)
last-some a (x ∷ y ∷ xs) h = last-some y (y ∷ xs) (inl refl)

-- Sorting and taking the last of at least one entry.
pub last_sorted :
    (x : Entry) (xs : List Entry)
    → (e : Entry) × (last (sort_by_counter (x ∷ xs)) ≡ some e)
      × (IsIn e (x ∷ xs))
      × ((a : Entry) → IsIn a (x ∷ xs) → a.1 ≤ e.1)
last_sorted x xs =
    let sorted = sort_by_counter (x ∷ xs) in
    let (e, h) = last-some x sorted (sort_keeps x (x ∷ xs) (inl refl)) in
    (
      e,
      h,
      sort_from e (x ∷ xs) (last-IsIn e sorted h),
      λ a m. last_highest e a sorted (sort-IsOrdered (x ∷ xs)) h (sort_keeps a (x ∷ xs) m),
    )
