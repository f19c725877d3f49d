-- ===== src/System/Writes/Counting.antt =====
-- roupspa.rs: who is counted as having accepted a write keeps what was written, for any write.
use threshold_password_authe.Base.{
  ℕ, zero, suc, ◌+◌, ◌<◌, ◌≡◌, sym, ◌∙◌, ◌⊎◌, inl, inr, ok, false, List, [], ◌∷◌, length, set,
  get_elem?, length-set, All, some, arith, Option-cases, Result-cases,
}
use mathlib.Core.Path.{subst}
use threshold_password_authe.Base.IdSet
use threshold_password_authe.Base.IdSet.{IdSet, mem, mem-insert, WithinIds, insert-WithinIds}
use threshold_password_authe.Primitives.{Primitives}
use threshold_password_authe.Provider.{RoUpSpaProvider}
use threshold_password_authe.System.Writes.{Write, Progress, write_one, write_all}

module _ (P : Primitives) where
  -- The provider ids count up from `n`, as `with_identity` numbers them.
  abbrev pub Numbered : ℕ → List (RoUpSpaProvider P) → Type 0
  Numbered n [] = Unit {0}
  Numbered n (p ∷ ps) = (p.id ≡ n) × Numbered (n + 1) ps

  -- Every provider in the set meets the predicate.
  abbrev pub Accepted : (RoUpSpaProvider P → Type 0) → IdSet → List (RoUpSpaProvider P) → Type 0
  Accepted Keeps ids = All (λ p. (mem p.id ids ≡ false) ⊎ Keeps p)

  -- The providers are numbered from one; the ids in the set are theirs, each once, and meet the
  -- predicate.
  abbrev pub AcceptedSound : (RoUpSpaProvider P → Type 0) → Progress P → Type 0
  AcceptedSound Keeps (providers, accepted) =
      Numbered 1 providers
      × WithinIds (length providers) accepted
      × Accepted Keeps accepted providers

  Numbered-get :
      (n i : ℕ) (ps : List (RoUpSpaProvider P)) (p : RoUpSpaProvider P)
      → Numbered n ps
      → get_elem? ps i ≡ some p
      → p.id ≡ n + i
  Numbered-get n i [] p v h = absurd (cc)
  Numbered-get n zero (x ∷ ps) p v h = ground arith
  Numbered-get n (suc i) (x ∷ ps) p v h = omega (arith, Numbered-get (n + 1) i ps p v.1 h)

  Numbered-set :
      (n i : ℕ) (ps : List (RoUpSpaProvider P)) (q : RoUpSpaProvider P)
      → Numbered n ps
      → q.id ≡ n + i
      → Numbered n (set ps i q)
  Numbered-set n i [] q v e = tt
  Numbered-set n zero (x ∷ ps) q v e = (omega arith, v.1)
  Numbered-set n (suc i) (x ∷ ps) q v e = (v.0, Numbered-set (n + 1) i ps q v.1 (omega arith))

  -- A set grown by an id below all of theirs is the same to these providers.
  Accepted-skip :
      (Keeps : RoUpSpaProvider P → Type 0) (ids : IdSet) (a n : ℕ) (ps : List (RoUpSpaProvider P))
      → Numbered n ps
      → a < n
      → Accepted Keeps ids ps
      → Accepted Keeps (IdSet.insert a ids) ps
  Accepted-skip Keeps ids a n [] v lt h = tt
  Accepted-skip Keeps ids a n (p ∷ ps) v lt (inl out, h) = (
    inl (mem-insert p.id a ids ∙ ground arith),
    Accepted-skip Keeps ids a (n + 1) ps v.1 (omega arith) h,
  )
  Accepted-skip Keeps ids a n (p ∷ ps) v lt (inr hold, h) =
      (inr hold, Accepted-skip Keeps ids a (n + 1) ps v.1 (omega arith) h)

  Accepted-set :
      (Keeps : RoUpSpaProvider P → Type 0) (ids : IdSet) (n i : ℕ) (ps : List (RoUpSpaProvider P))
      (q : RoUpSpaProvider P)
      → Numbered n ps
      → q.id ≡ n + i
      → Keeps q
      → Accepted Keeps ids ps
      → Accepted Keeps (IdSet.insert q.id ids) (set ps i q)
  Accepted-set Keeps ids n i [] q v e new h = tt
  Accepted-set Keeps ids n zero (p ∷ ps) q v e new h =
      (inr new, Accepted-skip Keeps ids q.id (n + 1) ps v.1 (omega arith) h.1)
  Accepted-set Keeps ids n (suc i) (p ∷ ps) q v e new (inl out, h) = (
    inl (mem-insert p.id q.id ids ∙ ground arith),
    Accepted-set Keeps ids (n + 1) i ps q v.1 (omega arith) new h,
  )
  Accepted-set Keeps ids n (suc i) (p ∷ ps) q v e new (inr hold, h) =
      (inr hold, Accepted-set Keeps ids (n + 1) i ps q v.1 (omega arith) new h)

  get_elem?-lt :
      (i : ℕ) (ps : List (RoUpSpaProvider P)) (p : RoUpSpaProvider P)
      → get_elem? ps i ≡ some p
      → i < length ps
  get_elem?-lt i [] p h = absurd (cc)
  get_elem?-lt zero (x ∷ ps) p h = omega arith
  get_elem?-lt (suc i) (x ∷ ps) p h = omega (arith, get_elem?-lt i ps p h)

  module _ (Keeps : RoUpSpaProvider P → Type 0) (write : Write P)
      (keeps : (p q : RoUpSpaProvider P) → write p ≡ ok q → (q.id ≡ p.id) × Keeps q) where
    write_one-AcceptedSound :
        (index : ℕ) (progress : Progress P)
        → AcceptedSound Keeps progress
        → AcceptedSound Keeps (write_one P write index progress)
    unfolding write_one
    write_one-AcceptedSound index (ps, ids) (numbered, within, hold) =
        elim (Option-cases (get_elem? ps index)) [
          | inl e ↦ rw (e, write_one) (numbered, within, hold)
          | inr (p, e) ↦ elim (Result-cases (write p)) [
            | inr (x, f) ↦ rw (e, write_one, f) (numbered, within, hold)
            | inl (q, f) ↦
                let w = keeps p q f in
                let i : q.id ≡ 1 + index = w.0 ∙ Numbered-get 1 index ps p numbered e in
                rw (e, write_one, f)
                  (
                    Numbered-set 1 index ps q numbered i,
                    subst (λ n. WithinIds n (IdSet.insert q.id ids)) (sym (length-set ps index q))
                        (insert-WithinIds (length ps) q.id ids (omega arith)
                          (omega (arith, get_elem?-lt index ps p e)) within),
                    Accepted-set Keeps ids 1 index ps q numbered i w.1 hold,
                  )
          ]
        ]

    -- Whatever providers a write is sent to, and however often, each provider that is counted keeps
    -- what was written, and none is counted twice.
    pub write_all-AcceptedSound :
        (indices : List ℕ) (progress : Progress P)
        → AcceptedSound Keeps progress
        → AcceptedSound Keeps (write_all P write indices progress)
    unfolding write_all
    write_all-AcceptedSound [] progress v = v
    write_all-AcceptedSound (index ∷ indices) progress v =
        write_all-AcceptedSound indices _ (write_one-AcceptedSound index progress v)
