-- ===== src/System/Phases/Root.antt =====
-- roupspa.rs: what the start of a password update leaves: a new root in flight, and the old password.
use threshold_password_authe.Base.{
  ℕ, ◌+◌, ◌≡◌, refl, inl, inr, Bytes, bytes_eq, ok, err, checked_succ, insert_self, [], some, arith,
  Option-cases, Result-cases,
}
use mathlib.Core.Path.{subst}
use threshold_password_authe.Primitives.{Primitives}
use threshold_password_authe.Messages.Trace.{ProtocolTrace, identification_old}
use threshold_password_authe.Provider.{SignedIdentificationRecord}
use threshold_password_authe.Crypto.{xchacha_encrypt_detached}
use threshold_password_authe.Messages.{encode_roupspa_identification_record}
use threshold_password_authe.System.Plaintext.{make_identification_plaintext}
use threshold_password_authe.System.Writes.Counting.{Numbered}
use threshold_password_authe.System.Types.{
  IdentificationOperationContext, RecoveredIdentification, RoUpSpaSystem, Outcome,
  prepared_for_provider_write, cipherid_aad,
}
use threshold_password_authe.System.Reads.{common_identification, evaluate_same_toprf}
use threshold_password_authe.System.Password.{
  seal_identification, begin_password_of, begin_password_update_with_rng,
}

module _ (P : Primitives) (s : RoUpSpaSystem P) where
  -- A root that seals the identified secrets under a state key, at a counter.
  abbrev pub IsSealedRoot :
      RecoveredIdentification P → Bytes → ℕ → Bytes → SignedIdentificationRecord P → Type 0
  IsSealedRoot found key ctrid nonce r =
      (r.ctrid ≡ ctrid)
      × (r.cid
          ≡ xchacha_encrypt_detached P key (cipherid_aad P s)
              (make_identification_plaintext P found.ssk found.rsp found.k0 ctrid) nonce)
      × (r.signature
          ≡ some (P.sign found.ssk (encode_roupspa_identification_record s.uid r.cid ctrid)))

  seal_identification-IsSealedRoot :
      (found : RecoveredIdentification P) (key : Bytes) (ctrid : ℕ) (nonce : Bytes)
      → IsSealedRoot found key ctrid nonce (seal_identification P s found key ctrid nonce)
  unfolding seal_identification
  seal_identification-IsSealedRoot found key ctrid nonce = (refl, refl, refl)

  -- The new root: what the client identifies with its old password, sealed under the key of the new
  -- one, at the next counter.
  abbrev pub PlansRoot : P.Scalar → P.Scalar → Bytes → SignedIdentificationRecord P → Type 0
  PlansRoot blind new_blind nonce r =
      (found : RecoveredIdentification P) × (identified : ProtocolTrace) × (key : Bytes)
      × (trace : ProtocolTrace) × (common_identification P s s.password identification_old [] blind
          ≡ ok (found, identified))
      × (evaluate_same_toprf P s s.new_password identified new_blind ≡ ok (key, trace))
      × IsSealedRoot found key (found.ctrid + 1) nonce r

  module _ (plan : SignedIdentificationRecord P → Type 0) where
    -- The client has a password update in flight that keeps its password for now.
    pub record Begun (t : RoUpSpaSystem P) : Type 0 where
      pub context : IdentificationOperationContext P
      pub present : t.identification_operations t.uid ≡ some context
      pub planned : plan context.root
      pub new_password : context.new_password ≡ s.new_password
      pub password : t.password ≡ s.password
      pub uid : t.uid ≡ s.uid
      pub qsp : t.qsp ≡ s.qsp
      pub numbered : Numbered P 1 t.providers

    -- The update in flight has not written yet.
    pub record Fresh (t : RoUpSpaSystem P) : Type 0 where
      pub begun : Begun t
      pub digest : Bytes
      pub fresh : begun.context.state ≡ prepared_for_provider_write digest

    abbrev pub Begins : Outcome P (Unit {0}) → Type 0
    Begins (err e, t) = t.password ≡ s.password
    Begins (ok u, t) = Fresh t

    begin_password_of-Begins :
        (recovered : RecoveredIdentification P) (key nonce : Bytes) (trace : ProtocolTrace)
        → Numbered P 1 s.providers
        → plan (seal_identification P s recovered key (recovered.ctrid + 1) nonce)
        → Begins (begin_password_of P s recovered key nonce trace)
    unfolding begin_password_of
    begin_password_of-Begins recovered key nonce trace numbered planned =
        elim (Option-cases (checked_succ recovered.ctrid)) [
          | inl over ↦ rw (over, begin_password_of) refl
          | inr (ctrid, next) ↦
              let same : recovered.ctrid + 1 ≡ ctrid = ground (arith, next) in
              rw (next, begin_password_of)
                (record {
                  begun = record {
                    context = _;
                    present = insert_self s.identification_operations s.uid _;
                    planned =
                        subst (λ n. plan (seal_identification P s recovered key n nonce)) same
                          planned;
                    new_password = refl;
                    password = refl;
                    uid = refl;
                    qsp = refl;
                    numbered = numbered;
                  };
                  digest = _;
                  fresh = refl;
                })
        ]

  pub begin_password-Begins :
      (blind new_blind : P.Scalar) (nonce : Bytes)
      → Numbered P 1 s.providers
      → Begins
          (PlansRoot blind new_blind nonce)
          (begin_password_update_with_rng P s blind new_blind nonce)
  unfolding begin_password_update_with_rng
  begin_password-Begins blind new_blind nonce numbered =
      elim (Result-cases (common_identification P s s.password identification_old [] blind)) [
        | inr (e, f) ↦ rw (f, begin_password_update_with_rng) refl
        | inl ((found, identified), f) ↦
            elim (Result-cases (evaluate_same_toprf P s s.new_password identified new_blind)) [
              | inr (e, g) ↦ rw (f, begin_password_update_with_rng, g) refl
              | inl ((key, trace), g) ↦
                  rw (f, begin_password_update_with_rng, g)
                    (begin_password_of-Begins (PlansRoot blind new_blind nonce) found key nonce
                      trace numbered
                      (
                        found,
                        identified,
                        key,
                        trace,
                        f,
                        g,
                        seal_identification-IsSealedRoot found key (found.ctrid + 1) nonce,
                      ))
            ]
      ]
