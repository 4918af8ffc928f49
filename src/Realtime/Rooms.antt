-- ===== src/Realtime/Rooms.antt =====
-- src/realtime/rooms.ts: the rooms of Socket.IO.
use chat_app_backend.Prelude.{ℕ}

pub data Room : Type 0 where
  user conversation presence : ℕ → Room
  staff metrics : Room
