-- ===== src/UpSpa/System/Prepare/Agreement.antt =====
-- crates/upspa/src/protocols/system.rs: when every provider accepts a prepare.
use threshold_password_authe.Base.{
  ℕ, zero, suc, ◌+◌, ◌<◌, ◌≡◌, refl, sym, ap, List, [], ◌∷◌, get_elem?, length, is_ok, true, not,
  keep, Option, some, All, Result-cases, inl, inr, arith,
}
use mathlib.Core.Path.{subst}
use threshold_password_authe.Base.IdSet.{mem, IsAbove, IsSorted}
use threshold_password_authe.Primitives.{Primitives}
use threshold_password_authe.UpSpa.Provider.{UpSpaProvider, WriteDisposition, Answer}
use threshold_password_authe.UpSpa.System.Types.{PhaseError}
use threshold_password_authe.UpSpa.System.Identification.{all_positions}
use threshold_password_authe.UpSpa.System.Prepare.{prepare_from}

all_positions-IsAbove : (k m n : ℕ) → k < m → IsAbove k (all_positions m n)
unfolding all_positions
all_positions-IsAbove k m zero h = tt
all_positions-IsAbove k m (suc n) h = (h, all_positions-IsAbove m (m + 1) n (omega arith))

pub all_positions-IsSorted : (m n : ℕ) → IsSorted (all_positions m n)
unfolding all_positions
all_positions-IsSorted m zero = tt
all_positions-IsSorted m (suc n) = all_positions-IsAbove m (m + 1) n (omega arith)

module _ (P : Primitives) where
  -- Each provider with its own input.
  abbrev pub Pairs :
      {X : Type 0} → (UpSpaProvider P → X → Type 0) → List (UpSpaProvider P) → List X → Type 0
  Pairs Q [] [] = Unit {0}
  Pairs Q [] (x ∷ xs) = ⊥
  Pairs Q (p ∷ ps) [] = ⊥
  Pairs Q (p ∷ ps) (x ∷ xs) = Q p x × Pairs Q ps xs

  pub Pairs-at :
      {X : Type 0} (Q : UpSpaProvider P → X → Type 0) (ps : List (UpSpaProvider P)) (xs : List X)
      (i : ℕ) (p : UpSpaProvider P)
      → Pairs Q ps xs
      → get_elem? ps i ≡ some p
      → (x : X) × (get_elem? xs i ≡ some x) × Q p x
  Pairs-at Q [] xs i p h e = absurd (ground arith)
  Pairs-at Q (q ∷ ps) [] i p h e = absurd h
  Pairs-at Q (q ∷ ps) (x ∷ xs) zero p h e = (x, refl, subst (λ r. Q r x) (ground (arith, e)) (h.0))
  Pairs-at Q (q ∷ ps) (x ∷ xs) (suc i) p h e = Pairs-at Q ps xs i p (h.1) e

  pub Pairs-length :
      {X : Type 0} (Q : UpSpaProvider P → X → Type 0) (ps : List (UpSpaProvider P)) (xs : List X)
      → Pairs Q ps xs
      → length ps ≡ length xs
  Pairs-length Q [] [] h = refl
  Pairs-length Q [] (x ∷ xs) h = absurd h
  Pairs-length Q (p ∷ ps) [] h = absurd h
  Pairs-length Q (p ∷ ps) (x ∷ xs) h = ap suc (Pairs-length Q ps xs (h.1))

  -- No error, and every provider is as its handler left it.
  pub prepare_from_all :
      {X : Type 0} (handler : UpSpaProvider P → X → Answer P WriteDisposition)
      (Q R : UpSpaProvider P → X → Type 0)
      → ((p : UpSpaProvider P) (x : X)
          → Q p x
          → (is_ok ((handler p x).0) ≡ true) × R ((handler p x).1) x)
      → (position : ℕ) (ps : List (UpSpaProvider P)) (xs : List X) (first : Option PhaseError)
      → Pairs Q ps xs
      → ((prepare_from P handler position ps xs first).first_error ≡ first)
        × Pairs R (prepare_from P handler position ps xs first).providers xs
  unfolding prepare_from
  prepare_from_all handler Q R law position [] [] first h = (refl, tt)
  prepare_from_all handler Q R law position [] (x ∷ xs) first h = absurd h
  prepare_from_all handler Q R law position (p ∷ ps) [] first h = absurd h
  prepare_from_all handler Q R law position (p ∷ ps) (x ∷ xs) first h =
      let one = law p x (h.0) in
      elim (Result-cases ((handler p x).0)) [
        | inl (disposition, e) ↦
            let rest = prepare_from_all handler Q R law (position + 1) ps xs first (h.1) in
            rw (e, prepare_from) (rest.0, (one.1, rest.1))
        | inr (error, e) ↦ absurd (ground (arith, one.0, e))
      ]

  -- Nothing is acknowledged at first.
  pub keep_unacknowledged : (positions : List ℕ) → keep (λ i. not (mem i [])) positions ≡ positions
  keep_unacknowledged [] = refl
  keep_unacknowledged (i ∷ positions) = ap (◌∷◌ i) (keep_unacknowledged positions)

  -- What holds at every position that has a provider holds at all positions.
  pub at_positions :
      (Q : ℕ → Option (UpSpaProvider P) → Type 0) (all ps : List (UpSpaProvider P)) (m : ℕ)
      → ((i : ℕ) (p : UpSpaProvider P) → get_elem? all i ≡ some p → Q i (some p))
      → ((i : ℕ) → get_elem? all (m + i) ≡ get_elem? ps i)
      → All (λ i. Q i (get_elem? all i)) (all_positions m (length ps))
  unfolding all_positions
  at_positions Q all [] m h e = tt
  at_positions Q all (p ∷ ps) m h e =
      let here : get_elem? all m ≡ some p =
        subst (λ k. get_elem? all k ≡ some p) (omega arith) (e 0) in
      (
        subst (Q m) (sym here) (h m p here),
        at_positions Q all ps (m + 1) h
            (λ i. subst (λ k. get_elem? all k ≡ get_elem? ps i) (omega arith) (e (suc i))),
      )

  pub Pairs-input :
      {X : Type 0} (Q : UpSpaProvider P → X → Type 0) (ps : List (UpSpaProvider P)) (xs : List X)
      (i : ℕ) (x : X)
      → Pairs Q ps xs
      → get_elem? xs i ≡ some x
      → (p : UpSpaProvider P) × (get_elem? ps i ≡ some p)
  Pairs-input Q [] [] i x h e = absurd (ground arith)
  Pairs-input Q [] (y ∷ xs) i x h e = absurd h
  Pairs-input Q (q ∷ ps) [] i x h e = absurd h
  Pairs-input Q (q ∷ ps) (y ∷ xs) zero x h e = (q, refl)
  Pairs-input Q (q ∷ ps) (y ∷ xs) (suc i) x h e = Pairs-input Q ps xs i x (h.1) e

  pub mem-all_positions :
      (ps : List (UpSpaProvider P)) (m i : ℕ) (p : UpSpaProvider P)
      → get_elem? ps i ≡ some p
      → mem (m + i) (all_positions m (length ps)) ≡ true
  unfolding all_positions
  mem-all_positions [] m i p e = absurd (ground arith)
  mem-all_positions (q ∷ ps) m zero p e = ground arith
  mem-all_positions (q ∷ ps) m (suc i) p e =
      let rest = mem-all_positions ps (m + 1) i p e in
      let same : m + 1 + i ≡ m + suc i = omega arith in
      ground (arith, subst (λ k. mem k (all_positions (m + 1) (length ps)) ≡ true) same rest)
