-- ===== src/System/Account/Frame.antt =====
-- roupspa.rs: a write to one account family, and the end of its operation, leave the others alone.
use threshold_password_authe.Base.{
  ℕ, zero, suc, ◌+◌, ◌≡◌, refl, ap, ◌∙◌, ◌≢◌, inl, inr, ok, List, [], ◌∷◌, length, set, get_elem?,
  some, arith, Option-cases, Result-cases,
}
use threshold_password_authe.Base.IdSet.{IdSet, mem}
use threshold_password_authe.Primitives.{Primitives}
use threshold_password_authe.Provider.{
  RoUpSpaProvider, AccountFamilyKey, key_eq, SignedAccountRecord, family, ReplicaStatus,
  accept_registration_account, accept_secret_update_account, mark_account_status,
}
use threshold_password_authe.System.Types.{AccountWriteKind, registration, secret_update}
use threshold_password_authe.System.Writes.{Progress, write_one, write_all}
use threshold_password_authe.System.Account.{account_write}
use threshold_password_authe.System.Account.Deliver.{mark_all, status_for}
use threshold_password_authe.System.Writes.Counting.{Numbered}
use threshold_password_authe.System.Account.Quorum.{AcceptedHold}

module _ (P : Primitives) where
  -- The same provider, as far as the family's account goes.
  abbrev pub Alike : AccountFamilyKey → RoUpSpaProvider P → RoUpSpaProvider P → Type 0
  Alike key p q = (q.id ≡ p.id) × (q.accounts key ≡ p.accounts key)

  -- Two lists of providers that are alike one by one.
  abbrev pub AllAlike :
      AccountFamilyKey → List (RoUpSpaProvider P) → List (RoUpSpaProvider P) → Type 0
  AllAlike key [] [] = Unit
  AllAlike key [] (q ∷ qs) = ⊥
  AllAlike key (p ∷ ps) [] = ⊥
  AllAlike key (p ∷ ps) (q ∷ qs) = Alike key p q × AllAlike key ps qs

  pub AllAlike-refl : (key : AccountFamilyKey) (ps : List (RoUpSpaProvider P)) → AllAlike key ps ps
  AllAlike-refl key [] = tt
  AllAlike-refl key (p ∷ ps) = ((refl, refl), AllAlike-refl key ps)

  AllAlike-trans :
      (key : AccountFamilyKey) (ps qs rs : List (RoUpSpaProvider P))
      → AllAlike key ps qs
      → AllAlike key qs rs
      → AllAlike key ps rs
  AllAlike-trans key [] [] rs h k = k
  AllAlike-trans key [] (q ∷ qs) rs h k = absurd h
  AllAlike-trans key (p ∷ ps) [] rs h k = absurd h
  AllAlike-trans key (p ∷ ps) (q ∷ qs) [] h k = absurd k
  AllAlike-trans key (p ∷ ps) (q ∷ qs) (r ∷ rs) h k =
      ((k.0.0 ∙ h.0.0, k.0.1 ∙ h.0.1), AllAlike-trans key ps qs rs h.1 k.1)

  AllAlike-set :
      (key : AccountFamilyKey) (ps : List (RoUpSpaProvider P)) (i : ℕ) (p q : RoUpSpaProvider P)
      → get_elem? ps i ≡ some p
      → Alike key p q
      → AllAlike key ps (set ps i q)
  AllAlike-set key [] i p q e a = tt
  AllAlike-set key (x ∷ ps) zero p q e a = (ground arith, AllAlike-refl key ps)
  AllAlike-set key (x ∷ ps) (suc i) p q e a = ((refl, refl), AllAlike-set key ps i p q e a)

  pub AllAlike-Numbered :
      (key : AccountFamilyKey) (n : ℕ) (ps qs : List (RoUpSpaProvider P))
      → AllAlike key ps qs
      → Numbered P n ps
      → Numbered P n qs
  AllAlike-Numbered key n [] [] h v = tt
  AllAlike-Numbered key n [] (q ∷ qs) h v = absurd h
  AllAlike-Numbered key n (p ∷ ps) [] h v = absurd h
  AllAlike-Numbered key n (p ∷ ps) (q ∷ qs) h v =
      (h.0.0 ∙ v.0, AllAlike-Numbered key (n + 1) ps qs h.1 v.1)

  pub AllAlike-length :
      (key : AccountFamilyKey) (ps qs : List (RoUpSpaProvider P))
      → AllAlike key ps qs
      → length ps ≡ length qs
  AllAlike-length key [] [] h = refl
  AllAlike-length key [] (q ∷ qs) h = absurd h
  AllAlike-length key (p ∷ ps) [] h = absurd h
  AllAlike-length key (p ∷ ps) (q ∷ qs) h = ap suc (AllAlike-length key ps qs h.1)

  pub AllAlike-AcceptedHold :
      (key : AccountFamilyKey) (r : SignedAccountRecord P) (ids : IdSet)
      (ps qs : List (RoUpSpaProvider P))
      → AllAlike key ps qs
      → AcceptedHold P key r ids ps
      → AcceptedHold P key r ids qs
  AllAlike-AcceptedHold key r ids [] [] h v = tt
  AllAlike-AcceptedHold key r ids [] (q ∷ qs) h v = absurd h
  AllAlike-AcceptedHold key r ids (p ∷ ps) [] h v = absurd h
  AllAlike-AcceptedHold key r ids (p ∷ ps) (q ∷ qs) h (inl out, v) =
      (inl (ap (λ i. mem i ids) h.0.0 ∙ out), AllAlike-AcceptedHold key r ids ps qs h.1 v)
  AllAlike-AcceptedHold key r ids (p ∷ ps) (q ∷ qs) h (inr hold, v) =
      (inr (h.0.1 ∙ hold), AllAlike-AcceptedHold key r ids ps qs h.1 v)

  account_write-Alike :
      (kind : AccountWriteKind) (r : SignedAccountRecord P) (key : AccountFamilyKey)
      (p q : RoUpSpaProvider P)
      → key ≢ family P r
      → account_write P kind r p ≡ ok q
      → Alike key p q
  unfolding account_write accept_registration_account accept_secret_update_account
  account_write-Alike registration r key p q ne h = ground arith
  account_write-Alike secret_update r key p q ne h = ground arith

  write_one-AllAlike :
      (kind : AccountWriteKind) (r : SignedAccountRecord P) (key : AccountFamilyKey) (index : ℕ)
      (progress : Progress P)
      → key ≢ family P r
      → AllAlike key progress.0 (write_one P (account_write P kind r) index progress).0
  unfolding write_one
  write_one-AllAlike kind r key index (ps, ids) ne = elim (Option-cases (get_elem? ps index)) [
    | inl e ↦ rw (e, write_one) (AllAlike-refl key ps)
    | inr (p, e) ↦ elim (Result-cases (account_write P kind r p)) [
      | inr (x, f) ↦ rw (e, write_one, f) (AllAlike-refl key ps)
      | inl (q, f) ↦
          rw (e, write_one, f)
            (AllAlike-set key ps index p q e (account_write-Alike kind r key p q ne f))
    ]
  ]

  pub write_all-AllAlike :
      (kind : AccountWriteKind) (r : SignedAccountRecord P) (key : AccountFamilyKey)
      (indices : List ℕ) (progress : Progress P)
      → key ≢ family P r
      → AllAlike key progress.0 (write_all P (account_write P kind r) indices progress).0
  unfolding write_all
  write_all-AllAlike kind r key [] progress ne = AllAlike-refl key progress.0
  write_all-AllAlike kind r key (index ∷ indices) progress ne =
      AllAlike-trans key progress.0 _ _ (write_one-AllAlike kind r key index progress ne)
        (write_all-AllAlike kind r key indices _ ne)

  mark_account_status-Alike :
      (key k : AccountFamilyKey) (status : ReplicaStatus) (p : RoUpSpaProvider P)
      → key ≢ k
      → Alike key p (mark_account_status P p k status)
  unfolding mark_account_status
  mark_account_status-Alike key k status p ne = ground arith

  pub mark_all-AllAlike :
      (key k : AccountFamilyKey) (acknowledged : IdSet) (ps : List (RoUpSpaProvider P))
      → key ≢ k
      → AllAlike key ps (mark_all P k acknowledged ps)
  unfolding mark_all
  mark_all-AllAlike key k acknowledged [] ne = tt
  mark_all-AllAlike key k acknowledged (p ∷ ps) ne = (
    mark_account_status-Alike key k (status_for acknowledged p.id) p ne,
    mark_all-AllAlike key k acknowledged ps ne,
  )
