-- ===== src/Auth.antt =====
-- src/modules/auth and src/common/guards: who a request is from, and what it may do.
pub mod Service
pub mod Guards
