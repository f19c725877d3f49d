-- ===== src/System/Selection/Groups.antt =====
-- roupspa.rs: the choice of the largest group of responses, when all of them agree.
use threshold_password_authe.Base.{
  ℕ, ◌≤◌, ◌≡◌, sym, ap, ◌∙◌, Bytes, bytes_eq, List, [], ◌∷◌, ◌++◌, map, length, All, ok, arith,
}
use mathlib.Core.List.{append-nil, append_assoc}
use threshold_password_authe.System.Selection.{
  push_group, group_by, sort_groups, insert_group, select_group, largest_group,
}

module _ {A : Type 0} (key : A → Bytes) (k : Bytes) where
  push_known :
      (a : A) (group : List A) → push_group k a ((k, group) ∷ []) ≡ (k, group ++ (a ∷ [])) ∷ []
  unfolding push_group
  push_known a group = ground arith

  group_by_known :
      (xs group : List A)
      → All (λ a. key a ≡ k) xs
      → group_by key xs ((k, group) ∷ []) ≡ (k, group ++ xs) ∷ []
  unfolding group_by
  group_by_known [] group h = ap (λ g. (k, g) ∷ []) (sym (append-nil group))
  group_by_known (a ∷ xs) group h =
      ap (λ j. group_by key xs (push_group j a ((k, group) ∷ []))) h.0
      ∙ ap (group_by key xs) (push_known a group)
      ∙ group_by_known xs (group ++ (a ∷ [])) h.1
      ∙ ap (λ g. (k, g) ∷ []) (append_assoc group (a ∷ []) xs)

  group_by_all :
      (a : A) (xs : List A)
      → All (λ b. key b ≡ k) (a ∷ xs)
      → group_by key (a ∷ xs) [] ≡ (k, a ∷ xs) ∷ []
  unfolding group_by push_group
  group_by_all a xs h =
      ap (λ j. group_by key xs ((j, a ∷ []) ∷ [])) h.0 ∙ group_by_known xs (a ∷ []) h.1

  -- Responses that all carry one key are the largest group, if they are enough and not none.
  pub largest_group_all :
      (required : ℕ) (xs : List A)
      → All (λ a. key a ≡ k) xs
      → 1 ≤ required
      → required ≤ length xs
      → largest_group required key xs ≡ ok xs
  unfolding largest_group sort_groups insert_group select_group
  largest_group_all required [] h one enough = absurd (omega arith)
  largest_group_all required (a ∷ xs) h one enough =
      ap (λ groups. select_group required (sort_groups (map (λ (_, group). group) groups)))
        (group_by_all a xs h)
      ∙ ground arith
