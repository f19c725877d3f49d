-- ===== src/Provider/Validity.antt =====
-- provider.rs: every record that a provider keeps, but the set-up root, is signed under its user's key
-- and filed in its place, over any history of requests.
use threshold_password_authe.Base.{
  ℕ, ◌+◌, ◌<◌, ◌≡◌, ◌⊎◌, inl, inr, Bytes, bytes_eq, ok, Bool, true, some, none, Option, List, [],
  ◌∷◌, arith, Result-cases, Option-cases, Map, insert, insert_self, insert_ne, sym,
}
use mathlib.Core.Path.{subst}
use threshold_password_authe.Primitives.{Primitives}
use threshold_password_authe.Provider.Records.{
  ReplicaStatus, SignedIdentificationRecord, SignedAccountRecord, AccountFamilyKey, key_eq,
  IdentificationReplica, RoUpSpaProvider, account_signed_bytes, identification_signed_bytes,
}
use threshold_password_authe.Provider.Reads.{new, set_reachable, install_setup}
use threshold_password_authe.Provider.Writes.{
  family, accept_registration_account, accept_secret_update_account,
  accept_tentative_identification, store_tentative_identification, discard_tentative_identification,
  mark_identification_status, mark_account_status,
}
use threshold_password_authe.Provider.History.{
  Request, reaches, sets_up, registers, updates, proposes, stores, discards, marks, marks_account,
  handle, after, run,
}
use threshold_password_authe.Provider.Counters.{current_of}

module _ (P : Primitives) where
  -- `Signed svk uid r`: an identification record that carries a valid signature.
  abbrev pub Signed : P.VerifyingKey → Bytes → SignedIdentificationRecord P → Type 0
  Signed svk uid r =
      (s : P.Signature) × (r.signature ≡ some s)
      × (P.verify svk (identification_signed_bytes P r uid) s ≡ true)

  abbrev pub IsTentative :
      IdentificationReplica P → Bytes → Option (SignedIdentificationRecord P) → Type 0
  IsTentative replica uid none = Unit {0}
  IsTentative replica uid (some r) =
      (r.ctrid ≡ replica.current.ctrid + 1) × Signed replica.svk uid r

  -- The root is the unsigned set-up record or a signed one, and a held proposal is its successor.
  abbrev pub IsRoot : Bytes → Option (IdentificationReplica P) → Type 0
  IsRoot uid none = Unit {0}
  IsRoot uid (some replica) =
      (((replica.current.ctrid ≡ 0) × (replica.current.signature ≡ none))
        ⊎ ((0 < replica.current.ctrid) × Signed replica.svk uid replica.current))
      × IsTentative replica uid replica.tentative_identification

  -- A stored account record belongs to its family and is signed under the user's key.
  abbrev pub IsFiled :
      AccountFamilyKey → Option (IdentificationReplica P) → Option (SignedAccountRecord P) → Type 0
  IsFiled key root none = Unit {0}
  IsFiled key none (some r) = ⊥
  IsFiled key (some replica) (some r) =
      (family P r ≡ key) × (P.verify replica.svk (account_signed_bytes P r) r.signature ≡ true)

  pub record IsValid (p : RoUpSpaProvider P) : Type 0 where
    pub roots : (uid : Bytes) → IsRoot uid (p.identifications uid)
    pub filed :
        (key : AccountFamilyKey)
        → IsFiled key (p.identifications key.uid) (current_of P (p.accounts key))

  pub new-IsValid : (id : ℕ) → IsValid (new P id)
  unfolding new
  new-IsValid id = record { roots = λ uid. tt; filed = λ key. tt }

  insert-IsRoot :
      (m : Map Bytes (IdentificationReplica P)) (uid j : Bytes) (replica : IdentificationReplica P)
      → IsRoot uid (some replica)
      → IsRoot j (m j)
      → IsRoot j (insert m uid replica j)
  insert-IsRoot m uid j replica w v = elim (bytes_eq.dec j uid) [
    | yes same ↦
        subst (λ k. IsRoot k (insert m uid replica k)) (sym same)
          (subst (IsRoot uid) (sym (insert_self m uid replica)) w)
    | no other ↦ subst (IsRoot j) (sym (insert_ne m uid j replica other)) v
  ]

  module _ (p q : RoUpSpaProvider P) (v : IsValid p) where
    reaches-IsValid : (reachable : Bool) → set_reachable P p reachable ≡ q → IsValid q
    unfolding set_reachable
    reaches-IsValid reachable h = record {
      roots = λ j. ground (arith, v.roots j);
      filed = λ key. ground (arith, v.filed key);
    }

    setup-IsValid :
        (uid : Bytes) (svk : P.VerifyingKey) (r : SignedIdentificationRecord P) (share : P.Scalar)
        → install_setup P p uid svk r share ≡ ok q
        → IsValid q
    unfolding install_setup
    setup-IsValid uid svk r share h = record {
      roots = λ j. ground (arith, v.roots j);
      filed = λ key. ground (arith, v.filed key);
    }

    register-IsValid :
        (r : SignedAccountRecord P) → accept_registration_account P p r ≡ ok q → IsValid q
    unfolding accept_registration_account
    register-IsValid r h = record {
      roots = λ j. ground (arith, v.roots j);
      filed = λ key. ground (arith, v.filed key);
    }

    update-IsValid :
        (r : SignedAccountRecord P) → accept_secret_update_account P p r ≡ ok q → IsValid q
    unfolding accept_secret_update_account
    update-IsValid r h = record {
      roots = λ j. ground (arith, v.roots j);
      filed = λ key. ground (arith, v.filed key);
    }

    -- What the handler of a proposal has checked when it accepts.
    proposes-IsTentative :
        (uid : Bytes) (r : SignedIdentificationRecord P) (replica : IdentificationReplica P)
        → p.identifications uid ≡ some replica
        → accept_tentative_identification P p uid r ≡ ok q
        → IsTentative replica uid (some r)
    unfolding accept_tentative_identification
    proposes-IsTentative uid r replica e h = elim (Option-cases r.signature) [
      | inl n ↦ absurd (ground arith)
      | inr (s, f) ↦ (ground arith, (s, f, ground arith))
    ]

    proposes-root :
        (uid : Bytes) (r : SignedIdentificationRecord P) (replica : IdentificationReplica P)
        → p.identifications uid ≡ some replica
        → accept_tentative_identification P p uid r ≡ ok q
        → (q ≡ p)
          ⊎ (q ≡ record p {
            identifications =
                insert p.identifications uid (record replica { tentative_identification = some r });
          })
    unfolding accept_tentative_identification
    proposes-root uid r replica e h = ground arith

    proposes-IsValid :
        (uid : Bytes) (r : SignedIdentificationRecord P)
        → accept_tentative_identification P p uid r ≡ ok q
        → IsValid q
    unfolding accept_tentative_identification
    proposes-IsValid uid r h = record {
      roots = λ j. elim (Option-cases (p.identifications uid)) [
        | inl n ↦ absurd (ground arith)
        | inr (replica, e) ↦ elim (proposes-root uid r replica e h) [
          | inl same ↦ rw same (v.roots j)
          | inr new ↦
              subst (λ t. IsRoot j (t.identifications j)) (sym new)
                (insert-IsRoot p.identifications uid j _
                  ((subst (IsRoot uid) e (v.roots uid)).0, proposes-IsTentative uid r replica e h)
                  (v.roots j))
        ]
      ];
      filed = λ key. ground (arith, v.filed key);
    }

    stores-IsValid :
        (uid : Bytes) (r : SignedIdentificationRecord P)
        → store_tentative_identification P p uid r ≡ ok q
        → IsValid q
    unfolding store_tentative_identification
    stores-IsValid uid r h = record {
      roots = λ j. ground (arith, v.roots j, v.roots uid);
      filed = λ key. ground (arith, v.filed key);
    }

    discards-IsValid :
        (uid : Bytes) (r : SignedIdentificationRecord P)
        → discard_tentative_identification P p uid r ≡ ok q
        → IsValid q
    unfolding discard_tentative_identification
    discards-IsValid uid r h = record {
      roots = λ j. ground (arith, v.roots j);
      filed = λ key. ground (arith, v.filed key);
    }

    marks-IsValid :
        (uid : Bytes) (status : ReplicaStatus)
        → mark_identification_status P p uid status ≡ ok q
        → IsValid q
    unfolding mark_identification_status
    marks-IsValid uid status h = record {
      roots = λ j. ground (arith, v.roots j);
      filed = λ key. ground (arith, v.filed key);
    }

    marks_account-IsValid :
        (k : AccountFamilyKey) (status : ReplicaStatus)
        → mark_account_status P p k status ≡ q
        → IsValid q
    unfolding mark_account_status
    marks_account-IsValid k status h = record {
      roots = λ j. ground (arith, v.roots j);
      filed = λ key. ground (arith, v.filed key);
    }

  handle-IsValid :
      (p q : RoUpSpaProvider P) (r : Request P) → handle P p r ≡ ok q → IsValid p → IsValid q
  unfolding handle
  handle-IsValid p q (reaches reachable) h v = reaches-IsValid p q v reachable (cc)
  handle-IsValid p q (sets_up uid svk r share) h v = setup-IsValid p q v uid svk r share h
  handle-IsValid p q (registers r) h v = register-IsValid p q v r h
  handle-IsValid p q (updates r) h v = update-IsValid p q v r h
  handle-IsValid p q (proposes uid r) h v = proposes-IsValid p q v uid r h
  handle-IsValid p q (stores uid r) h v = stores-IsValid p q v uid r h
  handle-IsValid p q (discards uid r) h v = discards-IsValid p q v uid r h
  handle-IsValid p q (marks uid status) h v = marks-IsValid p q v uid status h
  handle-IsValid p q (marks_account k status) h v = marks_account-IsValid p q v k status (cc)

  pub after-IsValid :
      (p : RoUpSpaProvider P) (r : Request P) → IsValid p → IsValid (after P p (handle P p r))
  after-IsValid p r v = elim (Result-cases (handle P p r)) [
    | inl (q, e) ↦ rw e (handle-IsValid p q r e v)
    | inr (x, e) ↦ rw e v
  ]

  -- Let every root of a provider be an unsigned one at the counter 0, as a set-up installs it, or
  -- carry a valid signature at a later counter, let every proposal be signed and have the counter
  -- after the root's, and let every account record be signed under its user's key and stand in its
  -- place. The same holds after any requests in any order, whether they fail or not.
  pub run-IsValid :
      (p : RoUpSpaProvider P) (rs : List (Request P)) → IsValid p → IsValid (run P p rs)
  unfolding run
  run-IsValid p [] v = v
  run-IsValid p (r ∷ rs) v = run-IsValid (after P p (handle P p r)) rs (after-IsValid p r v)
