-- ===== src/Realtime/Events.antt =====
-- The events that the services send (src/realtime/socket.types.ts), and the work that they start
-- without waiting for it.
use chat_app_backend.Prelude.{ℕ, Bool, Option, List}
use chat_app_backend.Access.{Role}
use chat_app_backend.Push.Jobs.{MessageJob}
use chat_app_backend.Documents.{AgentAvailability, ConversationStatus, PresenceSnapshot}
use chat_app_backend.Chat.Pages.{MessageResponse}
use chat_app_backend.Metrics.Figures.{MetricsUpdate, CounterKey}
use chat_app_backend.Realtime.Rooms.{Room}

pub data AssignReason : Type 0 where
  auto claim manual requeue closed : AssignReason

pub record ConversationAssigned : Type 0 where
  pub conversation_id : ℕ
  pub agent_id : Option ℕ
  pub agent_name : Option ℕ
  pub status : ConversationStatus
  pub reason : AssignReason

pub record Typing : Type 0 where
  pub conversation_id : ℕ
  pub user_id : ℕ
  pub name : ℕ
  pub is_typing : Bool

pub record ConversationUpdated : Type 0 where
  pub conversation_id : ℕ
  pub unread_count : ℕ
  pub last_message_preview : Option (List ℕ)
  pub last_message_at : Option ℕ

pub data Event : Type 0 where
  conversation_assigned : ConversationAssigned → Event
  agent_status : ℕ → AgentAvailability → Event
  presence_update : ℕ → PresenceSnapshot → Event
  message_new : MessageResponse → Event
  -- The conversation, the message, the time; the status is 'delivered' and 'read'.
  message_delivered message_read : ℕ → ℕ → ℕ → Event
  typing_update : Typing → Event
  metrics_update : MetricsUpdate → Event
  conversation_updated : ConversationUpdated → Event

-- `io.to(rooms).emit(…)`, or `socket.to(room).emit(…)`, which leaves the socket itself out.
pub record Emission : Type 0 where
  pub targets : List Room
  pub except : Option ℕ
  pub event : Event

-- `void this.f(…)`: the call is started, and runs on its own between later awaits.
pub data Task : Type 0 where
  auto_assign broadcast_status requeue_agent_chats : ℕ → Task
  drain_queue : Task
  -- The hook of the routing, and the push notification, for a new message.
  message_hook : ℕ → Role → Task
  enqueue_push : MessageJob → Task
  -- A counter of the metrics goes up, and a device's failures do.
  increment : CounterKey → Task
  device_failed : ℕ → Task
