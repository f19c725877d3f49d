-- ===== src/System/Phases/Stores.antt =====
-- roupspa.rs: what the terminal Store of a password update leaves at each provider.
use threshold_password_authe.Base.{
  ℕ, suc, ◌+◌, ◌∙◌, ap, length, ◌≡◌, refl, inl, inr, Bytes, bytes_eq, true, List, [], ◌∷◌, All,
  none, some, arith, Bool-cases, Option-cases,
}
use threshold_password_authe.Base.IdSet.{IdSet, mem}
use threshold_password_authe.Primitives.{Primitives}
use threshold_password_authe.Provider.{
  RoUpSpaProvider, SignedIdentificationRecord, SignedIdentificationRecord-discrete,
  IdentificationReplica, ReplicaStatus, active, store_tentative_identification,
  mark_identification_status,
}
use threshold_password_authe.System.Password.Deliver.{store_at, store_all}
use threshold_password_authe.System.Password.Commit.{Stored}
use threshold_password_authe.System.Writes.Counting.{Numbered}

module _ (P : Primitives) (uid : Bytes) (r : SignedIdentificationRecord P) (ids : IdSet) where
  store_held :
      (p : RoUpSpaProvider P) (replica : IdentificationReplica P)
      → mem p.id ids ≡ true
      → p.identifications uid ≡ some replica
      → (store_at P uid r ids p).0 ≡ none
      → Stored P uid r ids (store_at P uid r ids p).1
  unfolding store_at store_tentative_identification mark_identification_status
  store_held p replica known e h = elim (SignedIdentificationRecord-discrete P replica.current r) [
    | yes same ↦ (record replica { status = active }, ground arith, inl (ground arith, same, refl))
    | no other ↦ elim (Option-cases replica.tentative_identification) [
      | inl f ↦ absurd (ground arith)
      | inr (held, f) ↦ elim (SignedIdentificationRecord-discrete P held r) [
        | no wrong ↦ absurd (ground arith)
        | yes same ↦ (
          record replica { current = held; tentative_identification = none; status = active },
          ground arith,
          inl (ground arith, same, refl),
        )
      ]
    ]
  ]

  -- A Store that does not fail leaves the provider with the record, or stale.
  store_at_ok :
      (p : RoUpSpaProvider P)
      → (store_at P uid r ids p).0 ≡ none
      → Stored P uid r ids (store_at P uid r ids p).1
  unfolding store_at mark_identification_status store_tentative_identification
  store_at_ok p h = elim (Option-cases (p.identifications uid)) [
    | inl e ↦ absurd (ground arith)
    | inr (replica, e) ↦ elim (Bool-cases (mem p.id ids)) [
      | inl known ↦ store_held p replica known e h
      | inr out ↦
          (record replica { status = ReplicaStatus.stale }, ground arith, inr (ground arith, refl))
    ]
  ]

  pub store_all_ok :
      (ps : List (RoUpSpaProvider P))
      → (store_all P uid r ids ps).0 ≡ none
      → All (Stored P uid r ids) (store_all P uid r ids ps).1
  unfolding store_all
  store_all_ok [] h = tt
  store_all_ok (p ∷ ps) h = elim (Option-cases (store_at P uid r ids p).0) [
    | inr (e, f) ↦ absurd (cc (rw (f, store_all) at h))
    | inl f ↦ rw (f, store_all) (store_at_ok p f, store_all_ok ps (rw (f, store_all) at h))
  ]

  store_at-id : (p : RoUpSpaProvider P) → (store_at P uid r ids p).1.id ≡ p.id
  unfolding store_at mark_identification_status store_tentative_identification
  store_at-id p = ground arith

  pub store_all-Numbered :
      (n : ℕ) (ps : List (RoUpSpaProvider P))
      → Numbered P n ps
      → Numbered P n (store_all P uid r ids ps).1
  unfolding store_all
  store_all-Numbered n [] v = tt
  store_all-Numbered n (p ∷ ps) v = elim (Option-cases (store_at P uid r ids p).0) [
    | inr (e, f) ↦ rw (f, store_all) (store_at-id p ∙ v.0, v.1)
    | inl f ↦ rw (f, store_all) (store_at-id p ∙ v.0, store_all-Numbered (n + 1) ps v.1)
  ]

  pub length-store_all :
      (ps : List (RoUpSpaProvider P)) → length (store_all P uid r ids ps).1 ≡ length ps
  unfolding store_all
  length-store_all [] = refl
  length-store_all (p ∷ ps) = elim (Option-cases (store_at P uid r ids p).0) [
    | inr (e, f) ↦ rw (f, store_all) refl
    | inl f ↦ rw (f, store_all) (ap suc (length-store_all ps))
  ]
