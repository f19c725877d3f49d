-- ===== src/UpSpa/System/Prepare.antt =====
-- crates/upspa/src/protocols/system.rs: the prepare step that the state-changing phases share.
pub mod Agreement
use threshold_password_authe.Base.{
  ℕ, ◌+◌, Bytes, ok, err, List, [], ◌∷◌, map, Bool, false, Option, none, some,
}
use threshold_password_authe.Primitives.{Primitives}
use threshold_password_authe.UpSpa.Messages.{hash_upspa_suid}
use threshold_password_authe.UpSpa.Messages.Trace.{ProtocolTrace}
use threshold_password_authe.UpSpa.LoginServer
use threshold_password_authe.UpSpa.Provider.{UpSpaProvider, WriteDisposition, Answer}
use threshold_password_authe.UpSpa.System.Types.{
  PhaseKind, PhaseError, at_provider, at_login_server, store, discard, FinalizationPayload,
  PendingFinalization, UpSpaSystem,
}
use threshold_password_authe.UpSpa.System.Identification.{all_positions}

abbrev pub or_first : Option PhaseError → PhaseError → Option PhaseError
or_first none error = some error
or_first (some first) error = some first

module _ (P : Primitives) where
  -- The positions that accepted, the first error, and the providers as the loop leaves them.
  pub record Prepared : Type 0 where
    pub accepted : List ℕ
    pub first_error : Option PhaseError
    pub providers : List (UpSpaProvider P)

  -- The loop over the providers, each with its own input.
  unfoldable pub prepare_from :
      {X : Type 0}
      → (UpSpaProvider P → X → Answer P WriteDisposition)
      → ℕ
      → List (UpSpaProvider P)
      → List X
      → Option PhaseError
      → Prepared
  prepare_from handler position [] inputs first = record {
    accepted = [];
    first_error = first;
    providers = [];
  }
  prepare_from handler position (p ∷ ps) [] first = record {
    accepted = [];
    first_error = first;
    providers = p ∷ ps;
  }
  prepare_from handler position (p ∷ ps) (x ∷ xs) first =
      let reply = handler p x in
      elim (reply.0) [
        | ok disposition ↦
            let rest = prepare_from handler (position + 1) ps xs first in
            record {
              accepted = position ∷ rest.accepted;
              first_error = rest.first_error;
              providers = reply.1 ∷ rest.providers;
            }
        | err source ↦
            let rest =
              prepare_from handler (position + 1) ps xs
                (or_first first (at_provider p.provider_index source)) in
            record rest { providers = reply.1 ∷ rest.providers }
      ]

  -- The identifiers of an account at the providers.
  unfoldable pub suids_at : List (UpSpaProvider P) → Bytes → Bytes → List Bytes
  unfolding hash_upspa_suid
  suids_at providers rsp lsj = map (λ p. hash_upspa_suid P rsp lsj p.provider_index) providers

  -- The login server's error counts where no provider failed.
  unfoldable pub with_login_server : Option PhaseError → LoginServer.Answer → Option PhaseError
  with_login_server first (ok disposition, server) = first
  with_login_server first (err source, server) = or_first first (at_login_server source)

  -- The terminal step that the outcome of the prepares calls for: a Discard at those that accepted
  -- when something failed, else a Store at all.
  unfoldable pub plan_finalization :
      UpSpaSystem P
      → PhaseKind
      → ℕ
      → ProtocolTrace
      → FinalizationPayload P
      → Bool
      → List ℕ
      → Bool
      → Option PhaseError
      → PendingFinalization P
  unfolding all_positions
  plan_finalization s phase stage_id trace payload needs_login_server accepted ls_accepted
        (some error) =
      record {
        phase = phase;
        action = discard;
        provider_positions = accepted;
        acknowledged_positions = [];
        login_server_required = ls_accepted;
        login_server_processed = false;
        payload = payload;
        trace = trace;
        stage_id = stage_id;
        original_error = some error;
      }
  plan_finalization s phase stage_id trace payload needs_login_server accepted ls_accepted none =
      record {
        phase = phase;
        action = store;
        provider_positions = all_positions 0 s.nsp;
        acknowledged_positions = [];
        login_server_required = needs_login_server;
        login_server_processed = false;
        payload = payload;
        trace = trace;
        stage_id = stage_id;
        original_error = none;
      }
