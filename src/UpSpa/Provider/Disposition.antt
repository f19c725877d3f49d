-- ===== src/UpSpa/Provider/Disposition.antt =====
-- crates/upspa/src/protocols/provider.rs: what a write that succeeds answers, and the
-- terminal handlers that a fault can be injected into.
use threshold_password_authe.Base.{Eq}

pub data WriteDisposition : Type 0 where
  accepted idempotent : WriteDisposition

pub data ProviderFinalizationAction : Type 0 where
  store_account discard_account : ProviderFinalizationAction
  store_password_update discard_password_update : ProviderFinalizationAction

pub ProviderFinalizationAction-discrete : Discrete ProviderFinalizationAction
ProviderFinalizationAction-discrete = hlevel

instance unfoldable pub action_eq : Eq ProviderFinalizationAction
unfolding ProviderFinalizationAction-discrete
action_eq = record { dec = ProviderFinalizationAction-discrete }
