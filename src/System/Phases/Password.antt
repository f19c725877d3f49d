-- ===== src/System/Phases/Password.antt =====
-- roupspa.rs: a password update takes the new password only after a Store on a quorum.
use threshold_password_authe.Base.{
  ℕ, ◌≤◌, ◌≡◌, sym, refl, inl, inr, Bytes, bytes_eq, ok, err, insert_self, remove, remove_self,
  List, [], ◌∷◌, length, All, none, arith, Option-cases, Result-cases,
}
use mathlib.Core.Path.{subst}
use threshold_password_authe.Base.IdSet.{IdSet, WithinIds}
use threshold_password_authe.Primitives.{Primitives}
use threshold_password_authe.Provider.{RoUpSpaProvider, SignedIdentificationRecord}
use threshold_password_authe.System.Writes.{written_state, accepted_identification}
use threshold_password_authe.System.Writes.Counting.{Numbered, Accepted}
use threshold_password_authe.System.Types.{
  PhaseResult, IdentificationOperationContext, RoUpSpaSystem, Outcome, InFlightOperation,
  prepared_for_provider_write,
}
use threshold_password_authe.System.Account.Deliver.{acknowledged_set}
use threshold_password_authe.System.Password.{
  plan_password_write, run_password_write, attempt_password_update_write,
}
use threshold_password_authe.System.Password.Deliver.{
  store_all, finish_password_delivery, deliver_password_update_store,
}
use threshold_password_authe.System.Password.Commit.{Stored, write_all-Proposed}
use threshold_password_authe.System.Phases.{
  PasswordDraws, or_aborted, after_write, reachable_indices, password_update_with_rng,
}
use threshold_password_authe.System.Phases.Attempt.{ReadyState, written-ReadyState}
use threshold_password_authe.System.Phases.Stores.{
  store_all_ok, store_all-Numbered, length-store_all,
}
use threshold_password_authe.System.Phases.Root.{
  PlansRoot, Begun, Fresh, Begins, begin_password-Begins,
}

-- A set that the written state holds is the accepted one.
acknowledged_written :
    (qsp : ℕ) (exact : Bytes) (accepted ids : IdSet)
    → acknowledged_set (written_state qsp exact accepted) ≡ ok ids
    → accepted ≡ ids
unfolding written_state acknowledged_set
acknowledged_written qsp exact accepted ids h = ground (arith, h)

no_acknowledged :
    (state : InFlightOperation) (digest : Bytes) (ids : IdSet)
    → state ≡ prepared_for_provider_write digest
    → ¬ (acknowledged_set state ≡ ok ids)
unfolding acknowledged_set
no_acknowledged state digest ids e h = ground (arith, e, h)

nobody-Accepted :
    (P : Primitives) (Keeps : RoUpSpaProvider P → Type 0) (ps : List (RoUpSpaProvider P))
    → Accepted P Keeps [] ps
nobody-Accepted P Keeps [] = tt
nobody-Accepted P Keeps (p ∷ ps) = (inl refl, nobody-Accepted P Keeps ps)

module _ (P : Primitives) (s : RoUpSpaSystem P) where
  -- The first write starts with no acknowledgements.
  fresh_plan :
      (t : RoUpSpaSystem P) (context : IdentificationOperationContext P) (indices : List ℕ)
      (digest : Bytes) (targets before : IdSet)
      → context.state ≡ prepared_for_provider_write digest
      → plan_password_write P t context indices ≡ ok (targets, before)
      → before ≡ []
  unfolding plan_password_write accepted_identification
  fresh_plan t context indices digest targets before e f = ground (arith, e, f)

  -- After a Store of a planned root with `n` acknowledgements, `n` of the providers have it and are
  -- active, every other is stale, and the client has the new password.
  abbrev pub HasUpdated : (SignedIdentificationRecord P → Type 0) → ℕ → RoUpSpaSystem P → Type 0
  HasUpdated plan n t =
      (r : SignedIdentificationRecord P) × (ids : IdSet) × plan r
      × (length ids ≡ n)
      × (s.qsp ≤ n)
      × Numbered P 1 t.providers
      × WithinIds (length t.providers) ids
      × All (Stored P s.uid r ids) t.providers
      × (t.password ≡ s.new_password)
      × (t.identification_operations s.uid ≡ none)

  abbrev pub UpdatesOrKeeps :
      (SignedIdentificationRecord P → Type 0) → PhaseResult × RoUpSpaSystem P → Type 0
  UpdatesOrKeeps plan (PhaseResult.completed n digest decision trace, t) = HasUpdated plan n t
  UpdatesOrKeeps plan (result, t) = t.password ≡ s.password

  module _ (plan : SignedIdentificationRecord P → Type 0) where
    -- What an attempt at the write leaves.
    record Attempted (out : Outcome P PhaseResult) : Type 0 where
      begun : Begun P s plan out.1
      ready : ReadyState out.1.qsp out.0 begun.context.state
      counted :
          (ids : IdSet)
          → acknowledged_set begun.context.state ≡ ok ids
          → WithinIds (length out.1.providers) ids

    run-Attempted :
        (t : RoUpSpaSystem P) (b : Begun P s plan t) (targets : IdSet)
        → Attempted (run_password_write P t b.context targets [])
    unfolding run_password_write
    run-Attempted t b targets =
        let sound =
          write_all-Proposed P t.uid b.context.root targets (t.providers, [])
            (b.numbered, (tt, tt), nobody-Accepted P _ t.providers) in
        record {
          begun = record {
            context = _;
            present = insert_self t.identification_operations t.uid _;
            planned = b.planned;
            new_password = b.new_password;
            password = b.password;
            uid = b.uid;
            qsp = b.qsp;
            numbered = sound.0;
          };
          ready = written-ReadyState t.qsp _ _ _ _;
          counted = λ ids e. subst (WithinIds _) (acknowledged_written t.qsp _ _ ids e) sound.1;
        }

    attempt-Attempted :
        (t : RoUpSpaSystem P) (indices : List ℕ)
        → Fresh P s plan t
        → Attempted (attempt_password_update_write P t indices)
    unfolding attempt_password_update_write
    attempt-Attempted t indices started =
        let b = started.begun in
        elim (Result-cases (plan_password_write P t b.context indices)) [
          | inr (e, f) ↦
              rw (b.present, attempt_password_update_write, f)
                (record {
                  begun = b;
                  ready = tt;
                  counted = λ ids h. absurd (no_acknowledged _ _ ids started.fresh h);
                })
          | inl ((targets, before), f) ↦
              rw (b.present, attempt_password_update_write, f)
                (subst (λ ids. Attempted (run_password_write P t b.context targets ids))
                  (sym (fresh_plan t b.context indices _ targets before started.fresh f))
                  (run-Attempted t b targets))
        ]

    finish-HasUpdated :
        (u : RoUpSpaSystem P) (b : Begun P s plan u) (ids : IdSet)
        → u.qsp ≤ length ids
        → WithinIds (length u.providers) ids
        → (store_all P u.uid b.context.root ids u.providers).0 ≡ none
        → HasUpdated plan
            (length ids)
            (finish_password_delivery P u b.context ids
              (store_all P u.uid b.context.root ids u.providers).1).1
    unfolding finish_password_delivery
    finish-HasUpdated u b ids enough within stored =
        let root = b.context.root in
        let after = (store_all P u.uid root ids u.providers).1 in
        (
          root,
          ids,
          b.planned,
          refl,
          subst (λ q. q ≤ length ids) b.qsp enough,
          store_all-Numbered P u.uid root ids 1 u.providers b.numbered,
          subst (λ n. WithinIds n ids) (sym (length-store_all P u.uid root ids u.providers)) within,
          subst (λ k. All (Stored P k root ids) after) b.uid
              (store_all_ok P u.uid root ids u.providers stored),
          b.new_password,
          subst (λ k. remove u.identification_operations u.uid k ≡ none) b.uid
              (remove_self u.identification_operations u.uid),
        )

    deliver-UpdatesOrKeeps :
        (u : RoUpSpaSystem P) (b : Begun P s plan u) (ids : IdSet)
        → acknowledged_set b.context.state ≡ ok ids
        → u.qsp ≤ length ids
        → WithinIds (length u.providers) ids
        → UpdatesOrKeeps plan (or_aborted P (deliver_password_update_store P u))
    unfolding deliver_password_update_store or_aborted
    deliver-UpdatesOrKeeps u b ids known enough within =
        elim (Option-cases (store_all P u.uid b.context.root ids u.providers).0) [
          | inr (e, f) ↦
              rw (b.present, deliver_password_update_store, known, f, or_aborted) b.password
          | inl f ↦
              rw (b.present, deliver_password_update_store, known, f, or_aborted)
                (unfold finish_password_delivery in finish-HasUpdated u b ids enough within f)
        ]

    after_write-UpdatesOrKeeps :
        (out : Outcome P PhaseResult)
        → Attempted out
        → UpdatesOrKeeps plan (after_write P (deliver_password_update_store P) out)
    unfolding after_write
    after_write-UpdatesOrKeeps
          (ok (PhaseResult.ready_for_terminal_store n required digest trace), u) a =
        let (ids, known, size, enough) = a.ready in
        deliver-UpdatesOrKeeps u a.begun ids known (omega arith) (a.counted ids known)
    after_write-UpdatesOrKeeps (ok (PhaseResult.completed n digest decision trace), u) a =
        absurd a.ready
    after_write-UpdatesOrKeeps (ok (PhaseResult.aborted error trace), u) a = absurd a.ready
    after_write-UpdatesOrKeeps (ok (PhaseResult.unresolved n required digest trace), u) a =
        a.begun.password
    after_write-UpdatesOrKeeps (err error, u) a = a.begun.password

  -- Let the providers be numbered from one. A password update that completes with `n` has found at
  -- least a quorum, `n` of the providers, that have the new root as their active one: the root that
  -- seals what the client identified with its old password, under the key of its new one, at the
  -- next counter. Every other provider is stale, the client has the new password, and no update is
  -- in flight. After any other result the client has the old password.
  pub password_update-UpdatesOrKeeps :
      (d : PasswordDraws P)
      → Numbered P 1 s.providers
      → UpdatesOrKeeps (PlansRoot P s d.blind d.new_blind d.nonce) (password_update_with_rng P s d)
  unfolding password_update_with_rng
  password_update-UpdatesOrKeeps d numbered =
      go _ (begin_password-Begins P s d.blind d.new_blind d.nonce numbered)
    where
      go :
          (out : Outcome P (Unit {0}))
          → Begins P s (PlansRoot P s d.blind d.new_blind d.nonce) out
          → UpdatesOrKeeps (PlansRoot P s d.blind d.new_blind d.nonce) (elim out.0 [
            | err error ↦ (PhaseResult.aborted error out.1.last_trace, out.1)
            | ok started ↦
                after_write P
                  (deliver_password_update_store P)
                  (attempt_password_update_write P out.1 (reachable_indices P out.1))
          ])
      go (err e, t) b = b
      go (ok started, t) b =
          after_write-UpdatesOrKeeps (PlansRoot P s d.blind d.new_blind d.nonce) _ (
            attempt-Attempted (PlansRoot P s d.blind d.new_blind d.nonce) t (reachable_indices P t)
              b)
