-- ===== src/System/Account/Marking.antt =====
-- roupspa.rs: what the end of an account operation leaves at each provider.
use threshold_password_authe.Base.{
  ◌≡◌, refl, sym, ap, ◌∙◌, ◌⊎◌, inl, inr, bytes_eq, true, false, List, [], ◌∷◌, All, none, some,
  arith, Option-cases, Bool-cases, if◌then◌else◌,
}
use mathlib.Core.Path.{subst}
use threshold_password_authe.Base.IdSet.{IdSet, mem}
use threshold_password_authe.Primitives.{Primitives}
use threshold_password_authe.LoginServer.{operation_eq}
use threshold_password_authe.Provider.{
  RoUpSpaProvider, AccountFamilyKey, key_eq, SignedAccountRecord, ReplicaStatus, active,
  AccountReplica, mark_account_status,
}
use threshold_password_authe.System.Account.Deliver.{mark_all, status_for}
use threshold_password_authe.System.Account.Quorum.{Holds, AcceptedHold}

module _ (P : Primitives) where
  -- After the Store a provider that acknowledged keeps the record, and any other is stale.
  abbrev pub Decided : AccountFamilyKey → SignedAccountRecord P → IdSet → RoUpSpaProvider P → Type 0
  Decided key r ids p =
      ((mem p.id ids ≡ true) × Holds P key r p)
      ⊎ ((mem p.id ids ≡ false)
          × ((replica : AccountReplica P) × (p.accounts key ≡ some replica)
              × (replica.status ≡ ReplicaStatus.stale)))

  mark-Holds :
      (key : AccountFamilyKey) (r : SignedAccountRecord P) (p : RoUpSpaProvider P)
      → Holds P key r p
      → Holds P key r (mark_account_status P p key active)
  unfolding mark_account_status
  mark-Holds key r p h = ground arith

  mark_stale :
      (key : AccountFamilyKey) (p : RoUpSpaProvider P)
      → (replica : AccountReplica P) × ((mark_account_status P p key ReplicaStatus.stale).accounts
            key
          ≡ some replica)
        × (replica.status ≡ ReplicaStatus.stale)
  unfolding mark_account_status
  mark_stale key p = elim (Option-cases (p.accounts key)) [
    | inl e ↦ (record { current = none; status = ReplicaStatus.stale }, ground arith, refl)
    | inr (replica, e) ↦ (record replica { status = ReplicaStatus.stale }, ground arith, refl)
  ]

  mark-id :
      (key : AccountFamilyKey) (status : ReplicaStatus) (p : RoUpSpaProvider P)
      → (mark_account_status P p key status).id ≡ p.id
  unfolding mark_account_status
  mark-id key status p = ground arith

  mark-Decided :
      (key : AccountFamilyKey) (r : SignedAccountRecord P) (ids : IdSet) (p : RoUpSpaProvider P)
      → (mem p.id ids ≡ false) ⊎ Holds P key r p
      → Decided key r ids (mark_account_status P p key (status_for ids p.id))
  mark-Decided key r ids p h = elim (Bool-cases (mem p.id ids)) [
    | inl known ↦
        subst
          (λ b.
            Decided key r ids
              (mark_account_status P p key (if b then active else ReplicaStatus.stale)))
          (sym known)
          (inl (
            ap (λ i. mem i ids) (mark-id key active p) ∙ known,
            mark-Holds key r p (elim h [ inl out ↦ absurd (cc) | inr hold ↦ hold ]),
          ))
    | inr unknown ↦
        subst
          (λ b.
            Decided key r ids
              (mark_account_status P p key (if b then active else ReplicaStatus.stale)))
          (sym unknown)
          (inr
            (ap (λ i. mem i ids) (mark-id key ReplicaStatus.stale p) ∙ unknown, mark_stale key p))
  ]

  pub mark_all-Decided :
      (key : AccountFamilyKey) (r : SignedAccountRecord P) (ids : IdSet)
      (ps : List (RoUpSpaProvider P))
      → AcceptedHold P key r ids ps
      → All (Decided key r ids) (mark_all P key ids ps)
  unfolding mark_all
  mark_all-Decided key r ids [] h = tt
  mark_all-Decided key r ids (p ∷ ps) h =
      (mark-Decided key r ids p h.0, mark_all-Decided key r ids ps h.1)
