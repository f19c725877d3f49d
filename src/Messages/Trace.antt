-- ===== src/Messages/Trace.antt =====
-- messages.rs: the trace of messages that a phase records.
use threshold_password_authe.Base.{
  ℕ, ◌+◌, ◌*◌, Bool, true, false, List, [], ◌∷◌, ◌++◌, map, sum, maximum, all, keep, eqb, u64_max,
  if◌then◌else◌,
}
use Prim.Native.Nat.{min}

pub data ProtocolStage : Type 0 where
  setup_write identification identification_old toprf_new_same_shares : ProtocolStage
  account_read ls_prepare provider_quorum_write ls_terminal_delivery : ProtocolStage
  ls_authentication quorum_tentative_writes one_way_provider_store : ProtocolStage
  synchronization_read : ProtocolStage

-- `SenderRole` and `ReceiverRole`.
pub data Role : Type 0 where
  user provider login_server : Role

pub data WaitPolicy : Type 0 where
  all_responses : WaitPolicy
  threshold : ℕ → WaitPolicy
  quorum : ℕ → WaitPolicy
  one_way_delivery_bound : WaitPolicy

pub record MessageEvent : Type 0 where
  pub stage_id : ℕ
  pub stage : ProtocolStage
  pub sender_role : Role
  pub receiver_role : Role
  pub recipient_count : ℕ
  pub request_bytes : ℕ
  pub response_bytes : ℕ
  pub wait_policy : WaitPolicy
  pub acknowledgements : ℕ

-- `ProtocolTrace`, by its events.
abbrev pub ProtocolTrace : Type 0
ProtocolTrace = List MessageEvent

unfoldable pub push : ProtocolTrace → MessageEvent → ProtocolTrace
push trace event = trace ++ (event ∷ [])

abbrev saturating_mul : ℕ → ℕ → ℕ
saturating_mul a b = min (a * b) u64_max

is_terminal : ProtocolStage → Bool
is_terminal ls_terminal_delivery = true
is_terminal one_way_provider_store = true
is_terminal _ = false

unfoldable pub terminal_events_have_no_response : ProtocolTrace → Bool
unfolding is_terminal
terminal_events_have_no_response trace =
    all (λ event. eqb event.response_bytes 0) (keep (λ event. is_terminal event.stage) trace)

unfoldable pub request_bytes : ProtocolTrace → ℕ
request_bytes trace =
    sum (map (λ event. saturating_mul event.request_bytes event.recipient_count) trace)

unfoldable pub response_bytes : ProtocolTrace → ℕ
response_bytes trace =
    sum (map (λ event. saturating_mul event.response_bytes event.recipient_count) trace)

unfoldable pub message_count : ProtocolTrace → ℕ
message_count trace =
    sum (map (λ event. event.recipient_count * (if eqb event.response_bytes 0 then 1 else 2)) trace)

unfoldable pub acknowledgement_count : ProtocolTrace → ℕ
acknowledgement_count trace = sum (map (λ event. event.acknowledgements) trace)

-- roupspa.rs: the number of the next stage.
unfoldable pub next_stage_id : ProtocolTrace → ℕ
next_stage_id trace = maximum (map (λ event. event.stage_id) trace) + 1
