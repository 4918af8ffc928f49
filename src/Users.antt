-- ===== src/Users.antt =====
-- src/modules/users: accounts, their approval and their role.
pub mod Service
