-- ===== src/UpSpa/Messages/Trace.antt =====
-- crates/upspa/src/protocols/messages.rs: the trace of messages that a phase records. The two
-- nanosecond counters are left out.
use threshold_password_authe.Base.{
  ℕ, ◌*◌, not, List, [], ◌∷◌, ◌++◌, map, sum, any, keep, eqb, u64_max, if◌then◌else◌,
}
use Prim.Native.Nat.{min}

pub data ProtocolStage : Type 0 where
  setup identification parallel_provider_and_ls_prepare : ProtocolStage
  parallel_terminal_and_provider_final_acks account_read login_server_authentication : ProtocolStage
  all_provider_pending_writes all_provider_terminal_acks : ProtocolStage

pub data MessageRole : Type 0 where
  client provider login_server : MessageRole

pub data WaitPolicy : Type 0 where
  all_responses : WaitPolicy
  threshold : ℕ → WaitPolicy
  quorum : ℕ → WaitPolicy
  one_way_delivery_bound : WaitPolicy

pub record MessageEvent : Type 0 where
  pub stage_id : ℕ
  pub stage : ProtocolStage
  pub sender_role : MessageRole
  pub receiver_role : MessageRole
  pub recipient_count : ℕ
  pub request_bytes : ℕ
  pub response_bytes : ℕ
  pub wait_policy : WaitPolicy

-- `ProtocolTrace`, by its events.
abbrev pub ProtocolTrace : Type 0
ProtocolTrace = List MessageEvent

unfoldable pub push : ProtocolTrace → MessageEvent → ProtocolTrace
push trace event = trace ++ (event ∷ [])

-- The loop of `stage_order`: the stage ids that were met, and the events that are left.
unfoldable pub stages_from : List ℕ → ProtocolTrace → List ProtocolStage
stages_from stage_ids [] = []
stages_from stage_ids (event ∷ events) =
    let seen = stages_from stage_ids events in
    let fresh = stages_from (stage_ids ++ (event.stage_id ∷ [])) events in
    if any (eqb event.stage_id) stage_ids then seen else event.stage ∷ fresh

unfoldable pub stage_order : ProtocolTrace → List ProtocolStage
unfolding stages_from
stage_order trace = stages_from [] trace

abbrev saturating_mul : ℕ → ℕ → ℕ
saturating_mul a b = min (a * b) u64_max

unfoldable pub request_bytes : ProtocolTrace → ℕ
request_bytes trace =
    sum (map (λ event. saturating_mul event.request_bytes event.recipient_count) trace)

unfoldable pub response_bytes : ProtocolTrace → ℕ
response_bytes trace =
    sum (map (λ event. saturating_mul event.response_bytes event.recipient_count) trace)

unfoldable pub message_count : ProtocolTrace → ℕ
message_count trace =
    sum (map (λ event. event.recipient_count * (if eqb event.response_bytes 0 then 1 else 2)) trace)

unfoldable pub acknowledgement_count : ProtocolTrace → ℕ
acknowledgement_count trace =
    sum (
      map (λ event. event.recipient_count) (keep (λ event. not (eqb event.response_bytes 0)) trace))
