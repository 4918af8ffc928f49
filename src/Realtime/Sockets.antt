-- ===== src/Realtime/Sockets.antt =====
-- A connected socket (src/realtime/socket.types.ts), with the rooms that the gateways put it in and the
-- typing timers that the chat gateway keeps for it. Sockets of all servers are seen through the
-- adapter.
use chat_app_backend.Prelude.{ℕ, Bool, List}
use chat_app_backend.Access.{Role}

pub record SocketUser : Type 0 where
  pub id : ℕ
  pub name : ℕ
  pub role : Role

pub record SocketState : Type 0 where
  pub id : ℕ
  pub user : SocketUser
  -- The conversation rooms that it has joined, and the users whose presence it watches.
  pub conversations : List ℕ
  pub watching : List ℕ
  pub in_metrics : Bool
  -- The conversations with a running typing timer.
  pub typing : List ℕ
