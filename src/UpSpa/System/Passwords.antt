-- ===== src/UpSpa/System/Passwords.antt =====
-- crates/upspa/src/protocols/system.rs: the update of a password at every provider.
use threshold_password_authe.Base.{ℕ, Bytes, bytes_eq, and_then, List, [], ◌∷◌, false, none}
use threshold_password_authe.Primitives.{Primitives}
use threshold_password_authe.Crypto.{CtBlob, toprf_gen, xchacha_encrypt_detached}
use threshold_password_authe.UpSpa.Messages.{
  encode_upspa_password_update, UpSpaPasswordUpdateRequest,
}
use threshold_password_authe.UpSpa.Messages.Trace.{ProtocolTrace, push}
use threshold_password_authe.UpSpa.Provider.{UpSpaProvider, prepare_password_update}
use threshold_password_authe.UpSpa.System.Types.{
  PhaseKind, PhaseOutcome, all_providers, password_update, IdentifiedState, PendingFinalization,
  UpSpaSystem, Outcome,
}
use threshold_password_authe.UpSpa.System.Plaintext.{
  cipherid_aad, evaluate_full_toprf, encode_root_plaintext,
}
use threshold_password_authe.UpSpa.System.Events.{pending_writes_event}
use threshold_password_authe.UpSpa.System.Setup.{locked}
use threshold_password_authe.UpSpa.System.Identification.{identify_into_trace, identification_trace}
use threshold_password_authe.UpSpa.System.Finalization.{request_size}
use threshold_password_authe.UpSpa.System.Prepare.{prepare_from, plan_finalization}
use threshold_password_authe.UpSpa.System.Accounts.{finalize}

module _ (P : Primitives) where
  -- What a password update draws, and what the clock says for each provider.
  pub record PasswordDraws : Type 0 where
    pub blinding : P.Scalar
    pub master_key : P.Scalar
    pub coefficients : List P.Scalar
    pub nonce : Bytes
    pub times : List ℕ

  -- The loop that signs a request for each provider.
  unfoldable pub sign_requests :
      List (UpSpaProvider P)
      → List (ℕ × P.Scalar)
      → List ℕ
      → Bytes
      → CtBlob
      → P.SigningKey
      → List (UpSpaPasswordUpdateRequest P)
  unfolding encode_upspa_password_update
  sign_requests (p ∷ ps) (share ∷ shares) (time ∷ times) uid cidnew key =
      record {
        uid = uid;
        cidnew = cidnew;
        share_new = share.1;
        time = time;
        provider_index = p.provider_index;
        signature =
            P.sign key (encode_upspa_password_update P uid cidnew (share.1) time p.provider_index);
      }
      ∷ sign_requests ps shares times uid cidnew key
  sign_requests _ _ _ uid cidnew key = []

  -- The new root under the new password.
  unfoldable pub new_root : Bytes → Bytes → PasswordDraws → IdentifiedState P → CtBlob
  unfolding evaluate_full_toprf encode_root_plaintext cipherid_aad xchacha_encrypt_detached
  new_root uid new_password d state =
      xchacha_encrypt_detached P (evaluate_full_toprf P new_password d.master_key)
        (cipherid_aad uid) (encode_root_plaintext P state.signing_key state.rsp state.k0) d.nonce

  -- The prepares of a password update, and the terminal step that they call for.
  unfoldable pub plan_password :
      UpSpaSystem P
      → Bytes
      → Bytes
      → PasswordDraws
      → IdentifiedState P
      → ProtocolTrace
      → UpSpaSystem P × PendingFinalization P
  unfolding toprf_gen new_root sign_requests push pending_writes_event request_size prepare_from
      prepare_password_update plan_finalization
  plan_password s uid new_password d state trace1 =
      let shares = (toprf_gen P s.nsp d.master_key d.coefficients).1 in
      let cidnew = new_root uid new_password d state in
      let requests = sign_requests s.providers shares d.times uid cidnew state.signing_key in
      let trace = push trace1 (pending_writes_event s.nsp (request_size P requests)) in
      let prepared = prepare_from P (prepare_password_update P) 0 s.providers requests none in
      let s' = record s { providers = prepared.providers } in
      (
        s',
        plan_finalization P s' PhaseKind.password_update 3 trace (password_update requests) false
            prepared.accepted false prepared.first_error,
      )

  unfoldable pub password_update_inner :
      UpSpaSystem P → Bytes → Bytes → Bytes → PasswordDraws → Outcome P PhaseOutcome
  unfolding identify_into_trace identification_trace plan_password finalize
  password_update_inner s uid old_password new_password d =
      and_then (identify_into_trace P s uid old_password all_providers [] 1 d.blinding) (λ state t.
        finalize P
          (plan_password t uid new_password d state
            (identification_trace P s uid all_providers [] 1))
          uid)

  unfoldable pub update_password :
      UpSpaSystem P → Bytes → Bytes → Bytes → PasswordDraws → Outcome P PhaseOutcome
  unfolding locked password_update_inner
  update_password s uid old_password new_password d =
      locked P s uid (λ held. password_update_inner held uid old_password new_password d)
