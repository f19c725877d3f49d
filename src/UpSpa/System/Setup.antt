-- ===== src/UpSpa/System/Setup.antt =====
-- crates/upspa/src/protocols/system.rs: the set-up of a user at every provider.
use threshold_password_authe.Base.{ℕ, Bytes, Result, ok, err, and_then, List, [], ◌∷◌}
use threshold_password_authe.Primitives.{Primitives}
use threshold_password_authe.Crypto.{CtBlob, toprf_gen, xchacha_encrypt_detached}
use threshold_password_authe.UpSpa.Messages.Trace.{push}
use threshold_password_authe.UpSpa.Provider.Records
use threshold_password_authe.UpSpa.Provider.Records.{UpSpaProvider, can_setup}
use threshold_password_authe.UpSpa.System.Types.{
  PhaseKind, PhaseOutcome, PhaseError, at_provider, UpSpaSystem, Outcome, acquire_operation,
  release_if_resolved, finish,
}
use threshold_password_authe.UpSpa.System.Plaintext.{
  cipherid_aad, evaluate_full_toprf, encode_root_plaintext,
}
use threshold_password_authe.UpSpa.System.Events.{setup_event}

module _ (P : Primitives) where
  -- What a set-up draws: the polynomial of the shares has `master_key` at zero.
  pub record SetupDraws : Type 0 where
    pub rsp : Bytes
    pub master_key : P.Scalar
    pub coefficients : List P.Scalar
    pub signing_key : P.SigningKey
    pub k0 : Bytes
    pub nonce : Bytes

  -- The first loop of `setup_inner`.
  unfoldable pub check_setup : List (UpSpaProvider P) → Bytes → Result PhaseError (Unit {0})
  unfolding can_setup
  check_setup [] uid = ok tt
  check_setup (p ∷ ps) uid =
      let rest = check_setup ps uid in
      elim (can_setup P p uid) [ ok u ↦ rest | err e ↦ err (at_provider p.provider_index e) ]

  -- The second loop, which leaves the providers that it has passed changed.
  unfoldable pub setup_all :
      List (UpSpaProvider P)
      → List (ℕ × P.Scalar)
      → Bytes
      → P.VerifyingKey
      → CtBlob
      → Result PhaseError (Unit {0}) × List (UpSpaProvider P)
  unfolding Records.setup
  setup_all [] shares uid svk cid = (ok tt, [])
  setup_all (p ∷ ps) [] uid svk cid = (ok tt, p ∷ ps)
  setup_all (p ∷ ps) (share ∷ shares) uid svk cid =
      let rest = setup_all ps shares uid svk cid in
      let reply = Records.setup P p uid svk cid share.1 in
      elim (reply.0) [
        | ok u ↦ (rest.0, reply.1 ∷ rest.1)
        | err e ↦ (err (at_provider p.provider_index e), reply.1 ∷ ps)
      ]

  -- The root that a set-up seals.
  unfoldable pub setup_root : Bytes → Bytes → SetupDraws → CtBlob
  unfolding cipherid_aad evaluate_full_toprf encode_root_plaintext xchacha_encrypt_detached
  setup_root uid password d =
      xchacha_encrypt_detached P (evaluate_full_toprf P password d.master_key) (cipherid_aad uid)
        (encode_root_plaintext P d.signing_key d.rsp d.k0) d.nonce

  unfoldable pub setup_inner : UpSpaSystem P → Bytes → Bytes → SetupDraws → Outcome P PhaseOutcome
  unfolding check_setup setup_all setup_root toprf_gen finish push setup_event
  setup_inner s uid password d = elim (check_setup s.providers uid) [
    | err e ↦ (err e, s)
    | ok u ↦
        let shares = (toprf_gen P s.nsp d.master_key d.coefficients).1 in
        let written =
          setup_all s.providers shares uid (P.verifying_key d.signing_key)
            (setup_root uid password d) in
        let s' = record s { providers = written.1 } in
        elim (written.0) [
          | err e ↦ (err e, s')
          | ok v ↦
              let out = finish P s' PhaseKind.setup (push [] (setup_event s.nsp uid)) in
              (ok (out.0), out.1)
        ]
  ]

  -- A phase under the user's lock, which stays held while a finalization is pending.
  unfoldable pub locked :
      {A : Type 0} → UpSpaSystem P → Bytes → (UpSpaSystem P → Outcome P A) → Outcome P A
  unfolding acquire_operation release_if_resolved
  locked s uid inner =
      and_then (acquire_operation P s uid)
        (λ u held. let out = inner held in (out.0, release_if_resolved P (out.1) uid))

  unfoldable pub setup : UpSpaSystem P → Bytes → Bytes → SetupDraws → Outcome P PhaseOutcome
  unfolding locked setup_inner
  setup s uid password d = locked s uid (λ held. setup_inner held uid password d)
