-- ===== src/System/Selection.antt =====
-- crates/upspa-quorum/src/protocols/roupspa.rs and synchronization.rs: choosing among the responses.
-- They are grouped by verifying key, the largest group wins, and in it the one record with the
-- largest counter.
pub mod Maximum
pub mod Groups
use Prim.Native.String.{String}
use threshold_password_authe.Base.{
  ℕ, Bytes, bytes_eq, ◌==◌, Result, ok, err, Bool, true, false, List, [], ◌∷◌, ◌++◌, map, length,
  ltb, eqb, any, maximum, Option, none, some, if◌then◌else◌,
}
use threshold_password_authe.Thresholds.Errors.{
  PhaseError, not_enough_valid_responses, inconsistent_verifying_keys, conflicting_maximum,
}

module _ {A : Type 0} where
  -- `grouped.entry(key).or_default().push(a)`.
  unfoldable pub push_group : Bytes → A → List (Bytes × List A) → List (Bytes × List A)
  push_group key a [] = (key, a ∷ []) ∷ []
  push_group key a ((k, group) ∷ groups) =
      let rest = push_group key a groups in
      if k == key then (k, group ++ (a ∷ [])) ∷ groups else (k, group) ∷ rest

  -- The loop that fills `grouped`.
  unfoldable pub group_by : (A → Bytes) → List A → List (Bytes × List A) → List (Bytes × List A)
  unfolding push_group
  group_by key [] groups = groups
  group_by key (a ∷ xs) groups = group_by key xs (push_group (key a) a groups)

  -- `sort_by_key(Reverse(len))`, a stable sort.
  unfoldable pub insert_group : List A → List (List A) → List (List A)
  insert_group g [] = g ∷ []
  insert_group g (h ∷ hs) =
      let rest = insert_group g hs in if ltb (length g) (length h) then h ∷ rest else g ∷ h ∷ hs

  unfoldable pub sort_groups : List (List A) → List (List A)
  unfolding insert_group
  sort_groups [] = []
  sort_groups (g ∷ gs) = insert_group g (sort_groups gs)

  abbrev ties : List A → List (List A) → Bool
  ties g [] = false
  ties g (h ∷ hs) = eqb (length h) (length g)

  -- The checks on the first two groups.
  unfoldable pub select_group : ℕ → List (List A) → Result PhaseError (List A)
  select_group required [] = err (not_enough_valid_responses 0 required)
  select_group required (g ∷ gs) =
      if ltb (length g) required
      then err (not_enough_valid_responses (length g) required)
      else if ties g gs
      then err inconsistent_verifying_keys
      else ok g

  unfoldable pub largest_group : ℕ → (A → Bytes) → List A → Result PhaseError (List A)
  unfolding group_by sort_groups select_group
  largest_group required key xs =
      select_group required (sort_groups (map (λ (_, group). group) (group_by key xs [])))

-- The records at the largest counter, and the check that there is one.
module _ {A : Type 0} (same : A → A → Bool) (counter : A → ℕ) where
  -- The loop that fills `maxima`.
  unfoldable pub collect : ℕ → List A → List A → List A
  collect top [] maxima = maxima
  collect top (a ∷ xs) maxima = collect top xs (
      if eqb (counter a) top
      then if any (λ known. same known a) maxima then maxima else maxima ++ (a ∷ [])
      else maxima)

  unfoldable pub the_only : String → ℕ → List A → Result PhaseError A
  the_only family top (a ∷ []) = ok a
  the_only family top _ = err (conflicting_maximum family top)

  unfoldable pub unique_maximum : String → List A → Result PhaseError A
  unfolding collect the_only
  unique_maximum family xs =
      let top = maximum (map counter xs) in the_only family top (collect top xs [])
