-- ===== src/Presence.antt =====
-- src/modules/presence: who is online.
pub mod Memory
pub mod Leases
pub mod Service
