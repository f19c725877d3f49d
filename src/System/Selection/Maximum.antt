-- ===== src/System/Selection/Maximum.antt =====
-- roupspa.rs: `unique_maximum` succeeds exactly on a record that no other reaches.
use Prim.Native.String.{String}
use threshold_password_authe.Base.{
  ℕ, ◌≤◌, ◌<◌, ◌≡◌, refl, sym, ap, ◌∙◌, ◌≢◌, ◌⊎◌, inl, inr, ok, Bool, true, List, [], ◌∷◌, ◌++◌,
  map, eqb, any, All, maximum, arith, Bool-cases,
}
use threshold_password_authe.System.Selection.{collect, the_only, unique_maximum}

-- Every other element of the list has a lower counter than `x`.
abbrev pub IsTop : {A : Type 0} → (A → ℕ) → A → List A → Type 0
IsTop counter x = All (λ y. (counter y < counter x) ⊎ (y ≡ x))

module _ {A : Type 0} (same : A → A → Bool) (counter : A → ℕ)
    (same_refl : (a : A) → same a a ≡ true)
    (same_counter : (a b : A) → same a b ≡ true → counter a ≡ counter b) where
  maximum-le : (x : A) (xs : List A) → IsTop counter x xs → maximum (map counter xs) ≤ counter x
  maximum-le x [] h = omega arith
  maximum-le x (y ∷ xs) (inl lt, h) = omega (arith, maximum-le x xs h)
  maximum-le x (y ∷ xs) (inr e, h) = omega (arith, maximum-le x xs h, ap counter e)

  le-maximum : (x : A) (xs : List A) → any (same x) xs ≡ true → counter x ≤ maximum (map counter xs)
  le-maximum x [] m = absurd (cc)
  le-maximum x (y ∷ xs) m = elim (Bool-cases (same x y)) [
    | inl e ↦ omega (arith, same_counter x y e)
    | inr e ↦ omega (arith, le-maximum x xs (ground arith))
  ]

  collect_keeps :
      (x : A) (xs : List A)
      → IsTop counter x xs
      → collect same counter (counter x) xs (x ∷ []) ≡ x ∷ []
  unfolding collect
  collect_keeps x [] h = refl
  collect_keeps x (y ∷ xs) (inl lt, h) = ground (arith, collect_keeps x xs h)
  collect_keeps x (y ∷ xs) (inr e, h) =
      ground (arith, collect_keeps x xs h, same_refl x, ap (same x) e)

  collect_finds :
      (x : A) (xs : List A)
      → IsTop counter x xs
      → any (same x) xs ≡ true
      → collect same counter (counter x) xs [] ≡ x ∷ []
  unfolding collect
  collect_finds x [] h m = absurd (cc)
  collect_finds x (y ∷ xs) (inl lt, h) m = elim (Bool-cases (same x y)) [
    | inl e ↦ absurd (omega (arith, same_counter x y e))
    | inr e ↦ ground (arith, collect_finds x xs h)
  ]
  collect_finds x (y ∷ xs) (inr e, h) m = ground (arith, collect_keeps x xs h, e)

  -- Let the equality test be reflexive and relate only records of equal counters. A record that the
  -- test finds in the list, and that every record of the list equals or stays below in its counter,
  -- is what `unique_maximum` returns.
  pub unique_maximum_complete :
      (family : String) (x : A) (xs : List A)
      → IsTop counter x xs
      → any (same x) xs ≡ true
      → unique_maximum same counter family xs ≡ ok x
  unfolding unique_maximum
  unique_maximum_complete family x xs h m =
      let e : maximum (map counter xs) ≡ counter x =
        omega (arith, maximum-le x xs h, le-maximum x xs m) in
      rw (e, collect_finds x xs h m)

module _ {A : Type 0} (same : A → A → Bool) (counter : A → ℕ)
    (same_refl : (a : A) → same a a ≡ true) (same_eq : (a b : A) → same a b ≡ true → a ≡ b) where
  not-append-nil : (xs : List A) (a : A) → xs ++ (a ∷ []) ≢ []
  not-append-nil [] a e = cc
  not-append-nil (x ∷ xs) a e = cc

  -- Records that are not at the top counter, or are `x`.
  abbrev Agree : ℕ → A → List A → Type 0
  Agree top x = All (λ y. (counter y ≢ top) ⊎ (y ≡ x))

  collect_from :
      (top : ℕ) (x m : A) (ms xs : List A)
      → collect same counter top xs (m ∷ ms) ≡ x ∷ []
      → (m ≡ x) × (ms ≡ []) × Agree top x xs
  unfolding collect
  collect_from top x m ms [] h = (cc, cc, tt)
  collect_from top x m ms (y ∷ xs) h = elim (Bool-cases (eqb (counter y) top)) [
    | inr below ↦
        let r = collect_from top x m ms xs (ground arith) in (r.0, r.1, (inl (ground arith), r.2))
    | inl at ↦ elim (Bool-cases (any (λ known. same known y) (m ∷ ms))) [
      | inl seen ↦
          let r = collect_from top x m ms xs (ground arith) in
          let e : same m y ≡ true = ground (arith, r.1) in
          (r.0, r.1, (inr (sym (same_eq m y e) ∙ r.0), r.2))
      | inr new ↦
          absurd (not-append-nil ms y (collect_from top x m (ms ++ (y ∷ [])) xs (ground arith)).1)
    ]
  ]

  collect_from_nil :
      (top : ℕ) (x : A) (xs : List A)
      → collect same counter top xs [] ≡ x ∷ []
      → Agree top x xs × (counter x ≡ top) × (any (same x) xs ≡ true)
  unfolding collect
  collect_from_nil top x [] h = absurd (cc)
  collect_from_nil top x (y ∷ xs) h = elim (Bool-cases (eqb (counter y) top)) [
    | inr below ↦
        let r = collect_from_nil top x xs (ground arith) in
        ((inl (ground arith), r.0), r.1, ground (arith, r.2))
    | inl at ↦
        let r = collect_from top x y [] xs (ground arith) in
        ((inr r.0, r.2), ground (arith, ap counter r.0), ground (arith, r.0, same_refl x))
  ]

  Agree-IsTop :
      (x : A) (top : ℕ) (xs : List A)
      → counter x ≡ top
      → maximum (map counter xs) ≤ top
      → Agree top x xs
      → IsTop counter x xs
  Agree-IsTop x top [] e le h = tt
  Agree-IsTop x top (y ∷ xs) e le (inl ne, h) =
      (inl (omega arith), Agree-IsTop x top xs e (omega arith) h)
  Agree-IsTop x top (y ∷ xs) e le (inr same, h) = (inr same, Agree-IsTop x top xs e (omega arith) h)

  the_only_ok :
      (family : String) (top : ℕ) (x : A) (ms : List A)
      → the_only same counter family top ms ≡ ok x
      → ms ≡ x ∷ []
  unfolding the_only
  the_only_ok family top x [] h = absurd (cc)
  the_only_ok family top x (m ∷ []) h = cc
  the_only_ok family top x (m ∷ n ∷ ms) h = absurd (cc)

  -- Let the equality test be reflexive and sound. What `unique_maximum` returns stands in the list,
  -- and every other record equals it or stays below it in its counter.
  pub unique_maximum_sound :
      (family : String) (x : A) (xs : List A)
      → unique_maximum same counter family xs ≡ ok x
      → IsTop counter x xs × (any (same x) xs ≡ true)
  unfolding unique_maximum
  unique_maximum_sound family x xs h =
      let top = maximum (map counter xs) in
      let r = collect_from_nil top x xs (the_only_ok family top x _ h) in
      (Agree-IsTop x top xs r.1 (omega arith) r.0, r.2)
