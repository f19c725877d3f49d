-- ===== src/System/Password/Commit.antt =====
-- roupspa.rs: the quorum write and the Store of a password update.
use threshold_password_authe.Base.{
  ℕ, ◌≡◌, refl, ◌⊎◌, inl, inr, Bytes, bytes_eq, ok, true, false, List, [], ◌∷◌, length, All,
  remove_self, none, some, arith, Option-cases, Bool-cases,
}
use threshold_password_authe.Base.IdSet.{IdSet, mem}
use threshold_password_authe.Primitives.{Primitives}
use threshold_password_authe.Messages.Trace.{ProtocolTrace}
use threshold_password_authe.Provider.{
  RoUpSpaProvider, SignedIdentificationRecord, SignedIdentificationRecord-discrete,
  IdentificationReplica, ReplicaStatus, active, accept_tentative_identification,
  store_tentative_identification, mark_identification_status,
}
use threshold_password_authe.System.Types.{
  completed, IdentificationOperationContext, RoUpSpaSystem, digest_bytes,
  exact_identification_tuple,
}
use threshold_password_authe.System.Writes.{Progress, write_all}
use threshold_password_authe.System.Writes.Counting
use threshold_password_authe.System.Writes.Counting.{Accepted, AcceptedSound}
use threshold_password_authe.System.Account.Deliver.{acknowledged_set}
use threshold_password_authe.System.Password.Deliver.{
  store_at, store_all, finish_password_delivery, deliver_password_update_store,
}

module _ (P : Primitives) (uid : Bytes) (r : SignedIdentificationRecord P) where
  -- The provider holds the record as its tentative one.
  abbrev pub Proposed : RoUpSpaProvider P → Type 0
  Proposed p =
      (replica : IdentificationReplica P) × (p.identifications uid ≡ some replica)
      × (replica.tentative_identification ≡ some r)

  accept-Proposed :
      (p q : RoUpSpaProvider P)
      → accept_tentative_identification P p uid r ≡ ok q
      → (q.id ≡ p.id) × Proposed q
  unfolding accept_tentative_identification
  accept-Proposed p q h = elim (Option-cases (p.identifications uid)) [
    | inl e ↦ absurd (ground arith)
    | inr (replica, e) ↦
        (ground arith, (record replica { tentative_identification = some r }, ground arith, refl))
  ]

  -- Let each provider counted so far hold a root record as its tentative one, with none counted
  -- twice. The same holds after a password write of that record to whatever provider indices,
  -- however often each occurs.
  pub write_all-Proposed :
      (indices : List ℕ) (progress : Progress P)
      → AcceptedSound P Proposed progress
      → AcceptedSound P Proposed
          (write_all P (λ p. accept_tentative_identification P p uid r) indices progress)
  write_all-Proposed =
      Counting.write_all-AcceptedSound P Proposed (λ p. accept_tentative_identification P p uid r)
        accept-Proposed

  -- The provider's identification replica, with a status.
  abbrev pub HasRoot : RoUpSpaProvider P → Type 0
  HasRoot p = (replica : IdentificationReplica P) × (p.identifications uid ≡ some replica)

  -- After the Store a provider that acknowledged has the record as its root and is active, and any
  -- other is stale.
  abbrev pub Stored : IdSet → RoUpSpaProvider P → Type 0
  Stored ids p =
      (replica : IdentificationReplica P) × (p.identifications uid ≡ some replica)
      × (((mem p.id ids ≡ true) × (replica.current ≡ r) × (replica.status ≡ active))
          ⊎ ((mem p.id ids ≡ false) × (replica.status ≡ ReplicaStatus.stale)))

  store_at-Proposed :
      (ids : IdSet) (p : RoUpSpaProvider P)
      → mem p.id ids ≡ true
      → Proposed p
      → ((store_at P uid r ids p).0 ≡ none) × Stored ids (store_at P uid r ids p).1
  unfolding store_at store_tentative_identification mark_identification_status
  store_at-Proposed ids p known (replica, e, f) =
      elim (SignedIdentificationRecord-discrete P replica.current r) [
        | yes same ↦ (
          ground arith,
          (record replica { status = active }, ground arith, inl (ground arith, same, refl)),
        )
        | no other ↦ (
          ground arith,
          (
            record replica { current = r; tentative_identification = none; status = active },
            ground arith,
            inl (ground arith, refl, refl),
          ),
        )
      ]

  store_at_stale :
      (ids : IdSet) (p : RoUpSpaProvider P)
      → mem p.id ids ≡ false
      → HasRoot p
      → ((store_at P uid r ids p).0 ≡ none) × Stored ids (store_at P uid r ids p).1
  unfolding store_at mark_identification_status
  store_at_stale ids p out (replica, e) = (
    ground arith,
    (record replica { status = ReplicaStatus.stale }, ground arith, inr (ground arith, refl)),
  )

  store_at-Stored :
      (ids : IdSet) (p : RoUpSpaProvider P)
      → HasRoot p
      → (mem p.id ids ≡ false) ⊎ Proposed p
      → ((store_at P uid r ids p).0 ≡ none) × Stored ids (store_at P uid r ids p).1
  store_at-Stored ids p root (inl out) = store_at_stale ids p out root
  store_at-Stored ids p root (inr held) = elim (Bool-cases (mem p.id ids)) [
    | inl known ↦ store_at-Proposed ids p known held
    | inr out ↦ store_at_stale ids p out root
  ]

  store_all-Stored :
      (ids : IdSet) (ps : List (RoUpSpaProvider P))
      → All HasRoot ps
      → Accepted P Proposed ids ps
      → ((store_all P uid r ids ps).0 ≡ none) × All (Stored ids) (store_all P uid r ids ps).1
  unfolding store_all
  store_all-Stored ids [] roots held = (refl, tt)
  store_all-Stored ids (p ∷ ps) roots held =
      let one = store_at-Stored ids p roots.0 held.0 in
      let rest = store_all-Stored ids ps roots.1 held.1 in
      rw (one.0, store_all) (rest.0, (one.1, rest.1))

module _ (P : Primitives) where
  pub record Updated (s t : RoUpSpaSystem P) (context : IdentificationOperationContext P)
      (ids : IdSet) : Type 0 where
    pub password : t.password ≡ context.new_password
    pub closed : t.identification_operations s.uid ≡ none
    pub stored : All (Stored P s.uid context.root ids) t.providers

  -- When a password write is ready, each provider that acknowledged holds the record as its
  -- tentative one, and every provider has the user's root, the Store succeeds: each provider that
  -- acknowledged has the new root, every other one is stale, the client takes the new password, and
  -- the operation is over.
  pub deliver_password_commits :
      (s : RoUpSpaSystem P) (context : IdentificationOperationContext P) (ids : IdSet)
      → s.identification_operations s.uid ≡ some context
      → acknowledged_set context.state ≡ ok ids
      → All (HasRoot P s.uid context.root) s.providers
      → Accepted P (Proposed P s.uid context.root) ids s.providers
      → (trace : ProtocolTrace) × ((deliver_password_update_store P s).0
          ≡ ok (
              completed
                (length ids)
                (digest_bytes P (exact_identification_tuple P s.uid context.root))
                none
                trace))
        × Updated s (deliver_password_update_store P s).1 context ids
  unfolding deliver_password_update_store finish_password_delivery
  deliver_password_commits s context ids e g roots held =
      let done = store_all-Stored P s.uid context.root ids s.providers roots held in
      rw (e, deliver_password_update_store, g, done.0)
        (
          _,
          refl,
          record {
            password = refl;
            closed = remove_self s.identification_operations s.uid;
            stored = done.1;
          },
        )
