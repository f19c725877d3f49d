-- ===== src/UpSpa/System/Finalization/Measure.antt =====
-- crates/upspa/src/protocols/system.rs: each acknowledgement leaves one position less to retry.
use threshold_password_authe.Base.{
  ℕ, ◌+◌, ◌≡◌, refl, sym, ◌∙◌, Bytes, List, [], ◌∷◌, length, keep, get_elem?, is_ok, true, false,
  not, All, Bool, ℕ_discrete, Option-cases, Bool-cases, inl, inr, arith,
}
use mathlib.Core.Path.{subst}
use threshold_password_authe.Base.IdSet
use threshold_password_authe.Base.IdSet.{IdSet, mem, IsAbove, IsSorted, mem-insert}
use threshold_password_authe.Primitives.{Primitives}
use threshold_password_authe.UpSpa.Provider.{UpSpaProvider}
use threshold_password_authe.UpSpa.System.Types.{PendingFinalization, UpSpaSystem}
use threshold_password_authe.UpSpa.System.Finalization.{
  Handler, attempt_at, attempt_all, terminal_handler, attempt_providers, attempted, unacknowledged,
}
use threshold_password_authe.UpSpa.System.Finalization.Positions.{
  IsAbove-IsSorted, IsAbove-weaken, keep-IsSorted, IsWithin, fresh_positions,
}
use threshold_password_authe.UpSpa.System.Finalization.Attempts.{Fresh-after}

-- How many positions have not acknowledged.
left : IdSet → List ℕ → ℕ
left acknowledged positions = length (keep (λ j. not (mem j acknowledged)) positions)

left_above :
    (i : ℕ) (positions : List ℕ) (acknowledged : IdSet)
    → IsAbove i positions
    → left (IdSet.insert i acknowledged) positions ≡ left acknowledged positions
unfolding left
left_above i [] acknowledged a = refl
left_above i (j ∷ positions) acknowledged a = ground (
  arith,
  mem-insert j i acknowledged,
  left_above i positions acknowledged (IsAbove-weaken i j positions (a.0) (a.1)),
)

left-insert :
    (i : ℕ) (positions : List ℕ) (acknowledged : IdSet)
    → IsSorted positions
    → mem i positions ≡ true
    → mem i acknowledged ≡ false
    → left (IdSet.insert i acknowledged) positions + 1 ≡ left acknowledged positions
unfolding left
left-insert i [] acknowledged s m f = absurd (ground (arith, m))
left-insert i (j ∷ positions) acknowledged s m f = elim (ℕ_discrete i j) [
  | yes same ↦ ground (
    arith,
    same,
    mem-insert j i acknowledged,
    left_above i positions acknowledged (subst (λ k. IsAbove k positions) (sym same) s),
  )
  | no other ↦ ground (
    arith,
    mem-insert j i acknowledged,
    left-insert i positions acknowledged (IsAbove-IsSorted j positions s) (ground (arith, m)) f,
  )
]

module _ (P : Primitives) (handler : Handler P) where
  left-attempt_at :
      (i : ℕ) (all : List ℕ) (ps : List (UpSpaProvider P)) (acknowledged : IdSet) (n : ℕ)
      → IsSorted all
      → mem i all ≡ true
      → mem i acknowledged ≡ false
      → left ((attempt_at P handler i (ps, acknowledged, n)).1) all
          + (attempt_at P handler i (ps, acknowledged, n)).2
        ≡ left acknowledged all + n
  unfolding attempt_at
  left-attempt_at i all ps acknowledged n s m f = elim (Option-cases (get_elem? ps i)) [
    | inl e ↦ rw (e, attempt_at) refl
    | inr (p, e) ↦ elim (Bool-cases (is_ok ((handler i p).0))) [
      | inl good ↦ rw (e, good, attempt_at) (omega (arith, left-insert i all acknowledged s m f))
      | inr bad ↦ rw (e, bad, attempt_at) refl
    ]
  ]

  left-attempt_all :
      (positions all : List ℕ) (ps : List (UpSpaProvider P)) (acknowledged : IdSet) (n : ℕ)
      → IsSorted all
      → IsSorted positions
      → All (λ i. mem i all ≡ true) positions
      → All (λ i. mem i acknowledged ≡ false) positions
      → left ((attempt_all P handler positions (ps, acknowledged, n)).1) all
          + (attempt_all P handler positions (ps, acknowledged, n)).2
        ≡ left acknowledged all + n
  unfolding attempt_all
  left-attempt_all [] all ps acknowledged n sa s w f = refl
  left-attempt_all (i ∷ positions) all ps acknowledged n sa s w f =
      let one = attempt_at P handler i (ps, acknowledged, n) in
      left-attempt_all positions all (one.0) (one.1) (one.2) sa (IsAbove-IsSorted i positions s)
        (w.1) (Fresh-after P handler (λ j p. Unit {0}) i positions ps acknowledged n s (f.1))
      ∙ left-attempt_at i all ps acknowledged n sa (w.0) (f.0)

all_kept :
    (p : ℕ → Bool) (positions all : List ℕ)
    → IsWithin positions all
    → All (λ i. mem i all ≡ true) (keep p positions)
all_kept p [] all w = tt
all_kept p (i ∷ positions) all w =
    ground (arith, w i (ground arith), all_kept p positions all (λ j m. w j (ground (arith, m))))

module _ (P : Primitives) where
  -- Let the positions of a finalization be sorted. The positions that have not acknowledged after
  -- an attempt, and the acknowledgements of that attempt, are together as many as the positions
  -- that had not acknowledged before it.
  pub attempted_left :
      (s : UpSpaSystem P) (uid : Bytes) (pending : PendingFinalization P)
      → IsSorted pending.provider_positions
      → length (unacknowledged P (attempted P s uid pending)) + (attempt_providers P s pending).2
        ≡ length (unacknowledged P pending)
  unfolding attempt_providers attempted unacknowledged left
  attempted_left s uid pending v =
      let positions = pending.provider_positions in
      let acknowledged = pending.acknowledged_positions in
      left-attempt_all P (terminal_handler P pending.action pending.payload)
        (unacknowledged P pending) positions s.providers acknowledged 0 v
        (keep-IsSorted (λ j. not (mem j acknowledged)) positions v)
        (all_kept (λ j. not (mem j acknowledged)) positions positions (λ i m. m))
        (fresh_positions positions acknowledged)
      ∙ omega arith
