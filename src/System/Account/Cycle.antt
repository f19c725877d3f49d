-- ===== src/System/Account/Cycle.antt =====
-- roupspa.rs: the whole way of an account record. What the client seals it can open, and what a
-- quorum has stored is what a later read returns.
use threshold_password_authe.Base.{
  ℕ, ◌+◌, ◌≤◌, ◌<◌, ◌≡◌, refl, sym, ap, ◌∙◌, ◌⊎◌, inl, inr, Bytes, bytes_eq, ok, true, false, List,
  [], ◌∷◌, suc, length, All, some, arith, width, eqb, Bool-cases,
}
use mathlib.Core.Path.{subst}
use threshold_password_authe.Base.IdSet.{IdSet, mem, IsAbove}
use threshold_password_authe.Primitives.{Primitives, IsLawful}
use threshold_password_authe.Messages.Trace.{ProtocolTrace}
use threshold_password_authe.Thresholds.Intersection.{count}
use threshold_password_authe.Provider.{
  RoUpSpaProvider, AccountFamilyKey, SignedAccountRecord, account_signed_bytes,
}
use threshold_password_authe.System.Types.{
  AccountOperationContext, RecoveredIdentification, RecoveredAccount, RoUpSpaSystem, ciphersp_aad,
}
use threshold_password_authe.System.Plaintext.{make_account_plaintext, parse-make_account_plaintext}
use threshold_password_authe.System.Reads.{account_operation_state}
use threshold_password_authe.System.AccountRead.{
  parsed_text, opened, checked_account, account_candidate, read_account,
}
use threshold_password_authe.System.AccountRead.Freshness.{
  Older, candidate-Holds, candidate_unreachable, candidate_stale, read_account_fresh,
}
use threshold_password_authe.System.Account.Begin.{seal_account}
use threshold_password_authe.System.Writes.Counting.{Numbered}
use threshold_password_authe.System.Account.Quorum.{Holds}
use threshold_password_authe.System.Account.Marking.{Decided}
use threshold_password_authe.System.Account.Commit.{Delivered}

module _ (P : Primitives) where
  opened-seal :
      (laws : IsLawful P) (s : RoUpSpaSystem P) (recovered : RecoveredIdentification P)
      (suid rlsj nonce : Bytes) (ctr : ℕ)
      → length rlsj ≡ 32
      → ctr < width 8
      → opened P s recovered.k0 (seal_account P s recovered suid rlsj ctr nonce) ≡ some (rlsj, ctr)
  unfolding opened seal_account
  opened-seal laws s recovered suid rlsj nonce ctr h k =
      ap (parsed_text P) (
        laws.decrypt-encrypt recovered.k0 nonce (ciphersp_aad P s)
          (make_account_plaintext rlsj ctr))
      ∙ ap some (parse-make_account_plaintext rlsj ctr h k)

  verify-seal :
      (laws : IsLawful P) (s : RoUpSpaSystem P) (recovered : RecoveredIdentification P)
      (suid rlsj nonce : Bytes) (ctr : ℕ)
      → let r = seal_account P s recovered suid rlsj ctr nonce in
        P.verify (P.verifying_key recovered.ssk) (account_signed_bytes P r) r.signature ≡ true
  unfolding seal_account account_signed_bytes
  verify-seal laws s recovered suid rlsj nonce ctr = laws.verify-sign recovered.ssk _

  -- The checks of `checked_account`, passed one by one.
  checked-intro :
      (s : RoUpSpaSystem P) (key : AccountFamilyKey) (k0 : Bytes) (svk : P.VerifyingKey)
      (r : SignedAccountRecord P) (rlsj : Bytes) (ctr : ℕ)
      → r.uid ≡ key.uid
      → r.suid ≡ key.suid
      → P.verify svk (account_signed_bytes P r) r.signature ≡ true
      → opened P s k0 r ≡ some (rlsj, ctr)
      → ctr ≡ r.ctr
      → checked_account P s key k0 svk r ≡ some (record { account = r; rlsj = rlsj })
  unfolding checked_account
  checked-intro s key k0 svk r rlsj ctr u f v o c = ground arith

  -- Let the primitives be lawful, the verifying key be that of the signing key, the secret have 32
  -- bytes and the counter fit in 64 bits. Then a record that the client seals under its keys opens,
  -- under the same keys, to the secret that was sealed.
  pub checked_account-seal :
      (laws : IsLawful P) (s : RoUpSpaSystem P) (recovered : RecoveredIdentification P)
      (suid rlsj nonce : Bytes) (ctr : ℕ)
      → recovered.svk ≡ P.verifying_key recovered.ssk
      → length rlsj ≡ 32
      → ctr < width 8
      → checked_account P s
          (record { uid = s.uid; suid = suid })
          recovered.k0
          recovered.svk
          (seal_account P s recovered suid rlsj ctr nonce)
        ≡ some (record { account = seal_account P s recovered suid rlsj ctr nonce; rlsj = rlsj })
  checked_account-seal laws s recovered suid rlsj nonce ctr key h k =
      checked-intro s (record { uid = s.uid; suid = suid }) recovered.k0 recovered.svk
        (seal_account P s recovered suid rlsj ctr nonce) rlsj ctr (unfold seal_account in refl)
        (unfold seal_account in refl)
        (subst
          (λ v.
            P.verify v (account_signed_bytes P (seal_account P s recovered suid rlsj ctr nonce))
              (seal_account P s recovered suid rlsj ctr nonce).signature
            ≡ true)
          (sym key) (verify-seal laws s recovered suid rlsj nonce ctr))
        (opened-seal laws s recovered suid rlsj nonce ctr h k) (unfold seal_account in refl)

  count-mem-cons :
      (x : ℕ) (ids : IdSet) (ps : List (RoUpSpaProvider P))
      → count (λ p. mem p.id ids) ps ≤ count (λ p. mem p.id (x ∷ ids)) ps
  count-mem-cons x ids [] = omega arith
  count-mem-cons x ids (p ∷ ps) = ground (arith, count-mem-cons x ids ps)

  All-le-weaken : (m n : ℕ) (ids : IdSet) → m ≤ n → All (λ a. a ≤ m) ids → All (λ a. a ≤ n) ids
  All-le-weaken m n [] h v = tt
  All-le-weaken m n (x ∷ ids) h v = (omega arith, All-le-weaken m n ids h v.1)

  -- Ids that are within those of the providers, each once, are met by as many providers.
  count-ids :
      (m : ℕ) (ids : IdSet) (ps : List (RoUpSpaProvider P))
      → Numbered P (m + 1) ps
      → IsAbove m ids
      → All (λ a. a ≤ m + length ps) ids
      → length ids ≤ count (λ p. mem p.id ids) ps
  count-ids m [] ps v a b = omega arith
  count-ids m (x ∷ ids) [] v a b = absurd (omega arith)
  count-ids m (x ∷ ids) (p ∷ ps) v a b = elim (Bool-cases (eqb p.id x)) [
    | inl same ↦ ground (
      arith,
      count-ids (m + 1) ids ps v.1 (subst (λ n. IsAbove n ids) {x = x} (ground arith) a.1)
          (All-le-weaken (m + suc (length ps)) (m + 1 + length ps) ids (omega arith) b.1),
      count-mem-cons x ids ps,
    )
    | inr other ↦ ground (
      arith,
      count-ids (m + 1) (x ∷ ids) ps v.1 (ground arith, a.1)
          (All-le-weaken (m + suc (length ps)) (m + 1 + length ps) (x ∷ ids) (omega arith) b),
    )
  ]

  -- Let a Store of an account operation have been delivered, and let the record that was stored
  -- open under the client's keys; let the providers be numbered from one, as many as before, with
  -- the same quorum size and a positive threshold. Then a read that reaches at least `nsp - qsp +
  -- tsp` of the providers returns the record that was stored: no older record can be seen.
  pub read-deliver :
      (s t : RoUpSpaSystem P) (key : AccountFamilyKey) (context : AccountOperationContext P)
      (ids : IdSet) (k0 : Bytes) (svk : P.VerifyingKey) (a : RecoveredAccount P)
      (trace : ProtocolTrace)
      → Delivered P s t key context ids
      → a.account ≡ context.account
      → checked_account P t key k0 svk a.account ≡ some a
      → Numbered P 1 t.providers
      → length t.providers ≡ length s.providers
      → t.qsp ≡ s.qsp
      → 1 ≤ t.tsp
      → length t.providers + t.tsp ≤ count (λ p. p.reachable) t.providers + t.qsp
      → (after : ProtocolTrace) × (read_account P t key k0 svk trace ≡ ok (a, after))
  unfolding account_operation_state
  read-deliver s t key context ids k0 svk a trace d same opens numbered size q one reach =
      read_account_fresh P t key k0 svk a opens (λ p. mem p.id ids) trace
        (rw (d.closed, account_operation_state))
        (held t.providers (subst (λ r. All (Decided P key r ids) t.providers) (sym same) d.decided))
        (older t.providers
          (subst (λ r. All (Decided P key r ids) t.providers) (sym same) d.decided))
        one
        (omega (
          arith,
          count-ids 0 ids t.providers numbered d.within.0
              (subst (λ n. All (λ b. b ≤ n) ids) {x = length s.providers} (omega arith) d.within.1),
        ))
        reach
    where
      held :
          (ps : List (RoUpSpaProvider P))
          → All (Decided P key a.account ids) ps
          → All (λ p. (mem p.id ids ≡ false) ⊎ Holds P key a.account p) ps
      held [] h = tt
      held (p ∷ ps) (inl (known, keeps), h) = (inr keeps, held ps h)
      held (p ∷ ps) (inr (out, old), h) = (inl out, held ps h)

      candidate :
          (p : RoUpSpaProvider P)
          → Decided P key a.account ids p
          → Older P a (account_candidate P t key k0 svk p)
      candidate p (inl (known, keeps)) = elim (Bool-cases p.reachable) [
        | inl r ↦
            subst (Older P a) (sym (candidate-Holds P t key k0 svk a opens p keeps r)) (inr refl)
        | inr r ↦ subst (Older P a) (sym (candidate_unreachable P t key k0 svk a opens p r)) tt
      ]
      candidate p (inr (out, (replica, e, f))) =
          subst (Older P a) (sym (candidate_stale P t key k0 svk a opens p replica e f)) tt

      older :
          (ps : List (RoUpSpaProvider P))
          → All (Decided P key a.account ids) ps
          → All (λ p. Older P a (account_candidate P t key k0 svk p)) ps
      older [] h = tt
      older (p ∷ ps) h = (candidate p h.0, older ps h.1)
