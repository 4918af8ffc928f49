-- ===== src/Chat.antt =====
-- src/modules/chat: the support threads and their messages.
pub mod Side
pub mod Conversations
pub mod Assigning
pub mod Pages
pub mod Cache
pub mod Messages
pub mod Calls
pub mod Export
pub mod Rooms
pub mod Gateway
