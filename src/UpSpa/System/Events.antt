-- ===== src/UpSpa/System/Events.antt =====
-- crates/upspa/src/protocols/system.rs: the messages that a phase records in its trace.
use threshold_password_authe.Base.{ℕ, ◌+◌, ◌-◌, Bytes, Bool, length, ltb, eqb, if◌then◌else◌}
use Prim.Native.Nat.{min}
use threshold_password_authe.UpSpa.Messages.{
  encode_uid, status_bytes, ristretto_bytes, account_blob_bytes, identification_blob_bytes,
  scalar_bytes,
}
use threshold_password_authe.UpSpa.Messages.Trace.{
  ProtocolStage, identification, parallel_provider_and_ls_prepare,
  parallel_terminal_and_provider_final_acks, account_read, login_server_authentication,
  all_provider_pending_writes, all_provider_terminal_acks, client, provider, login_server,
  WaitPolicy, all_responses, one_way_delivery_bound, MessageEvent, ProtocolTrace, push,
}
use threshold_password_authe.UpSpa.System.Types.{
  IdentificationRequirement, threshold, all_providers,
}

-- A message to the providers, which wait as `wait_policy` says.
unfoldable pub provider_event : ℕ → ProtocolStage → ℕ → ℕ → ℕ → WaitPolicy → MessageEvent
provider_event stage_id stage recipients request response wait_policy = record {
  stage_id = stage_id;
  stage = stage;
  sender_role = client;
  receiver_role = provider;
  recipient_count = recipients;
  request_bytes = request;
  response_bytes = response;
  wait_policy = wait_policy;
}

unfoldable pub login_server_event : ℕ → ProtocolStage → ℕ → ℕ → WaitPolicy → MessageEvent
login_server_event stage_id stage request response wait_policy = record {
  stage_id = stage_id;
  stage = stage;
  sender_role = client;
  receiver_role = login_server;
  recipient_count = 1;
  request_bytes = request;
  response_bytes = response;
  wait_policy = wait_policy;
}

unfoldable pub wait_policy_of : ℕ → IdentificationRequirement → WaitPolicy
wait_policy_of tsp threshold = WaitPolicy.threshold tsp
wait_policy_of tsp all_providers = all_responses

unfoldable pub push_identification_events :
    ProtocolTrace → ℕ → Bytes → ℕ → ℕ → IdentificationRequirement → ProtocolTrace
unfolding push provider_event wait_policy_of encode_uid
push_identification_events trace stage_id uid recipients tsp requirement =
    let selected = min tsp recipients in
    let wait_policy = wait_policy_of tsp requirement in
    let contributing = push trace (
      provider_event stage_id identification selected (length (encode_uid uid) + ristretto_bytes)
        (status_bytes + 32 + identification_blob_bytes + ristretto_bytes) wait_policy) in
    if ltb selected recipients
    then push contributing (
        provider_event stage_id identification (recipients - selected) (length (encode_uid uid))
          (status_bytes + 32 + identification_blob_bytes) wait_policy)
    else contributing

unfoldable pub push_parallel_prepare_events : ProtocolTrace → ℕ → Bytes → ℕ → Bool → ProtocolTrace
unfolding push provider_event login_server_event encode_uid
push_parallel_prepare_events trace stage_id uid nsp secret_update =
    push
      (push trace (
        provider_event stage_id parallel_provider_and_ls_prepare nsp (32 + account_blob_bytes)
          status_bytes all_responses))
      (login_server_event stage_id parallel_provider_and_ls_prepare
        (length (encode_uid uid) + (if secret_update then 64 else 32)) status_bytes all_responses)

-- The events of the providers in a terminal attempt: those that acknowledged, then the others.
unfoldable pub push_terminal_events : ProtocolTrace → ℕ → ProtocolStage → ℕ → ℕ → ℕ → ProtocolTrace
unfolding push provider_event
push_terminal_events trace stage_id stage attempted acknowledged request =
    let answered =
      if eqb acknowledged 0
      then trace
      else push trace
          (provider_event stage_id stage acknowledged request status_bytes all_responses) in
    let unacknowledged = attempted - acknowledged in
    if eqb unacknowledged 0
    then answered
    else push answered (provider_event stage_id stage unacknowledged request 0 all_responses)

unfoldable pub push_parallel_terminal_attempt :
    ProtocolTrace → ℕ → Bytes → ℕ → ℕ → Bool → Bool → ProtocolTrace
unfolding push push_terminal_events login_server_event encode_uid
push_parallel_terminal_attempt trace stage_id uid attempted acknowledged login_server_attempted
      secret_update =
    let at_providers =
      push_terminal_events trace stage_id parallel_terminal_and_provider_final_acks attempted
        acknowledged (status_bytes + 32 + account_blob_bytes) in
    if login_server_attempted
    then push at_providers (
        login_server_event stage_id parallel_terminal_and_provider_final_acks
          (status_bytes + length (encode_uid uid) + (if secret_update then 64 else 32)) 0
          one_way_delivery_bound)
    else at_providers

unfoldable pub push_password_terminal_attempt : ProtocolTrace → ℕ → ℕ → ℕ → ℕ → ProtocolTrace
unfolding push_terminal_events
push_password_terminal_attempt trace stage_id attempted acknowledged request =
    push_terminal_events trace stage_id all_provider_terminal_acks attempted acknowledged
      (request + status_bytes)

unfoldable pub setup_event : ℕ → Bytes → MessageEvent
unfolding provider_event encode_uid
setup_event nsp uid =
    provider_event 1 ProtocolStage.setup nsp
      (length (encode_uid uid) + 32 + identification_blob_bytes + scalar_bytes) status_bytes
      all_responses

unfoldable pub account_read_event : ℕ → WaitPolicy → MessageEvent
unfolding provider_event
account_read_event recipients wait_policy =
    provider_event 2 account_read recipients 32 (status_bytes + account_blob_bytes) wait_policy

unfoldable pub authentication_event : Bytes → MessageEvent
unfolding login_server_event encode_uid
authentication_event uid =
    login_server_event 3 login_server_authentication (length (encode_uid uid) + 32) status_bytes
      all_responses

unfoldable pub pending_writes_event : ℕ → ℕ → MessageEvent
unfolding provider_event
pending_writes_event nsp request =
    provider_event 2 all_provider_pending_writes nsp request status_bytes all_responses
