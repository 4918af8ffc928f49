-- ===== src/Agents.antt =====
-- src/modules/agents: agent profiles and the routing of conversations to agents.
pub mod Service
pub mod Ranking
pub mod Assignment
pub mod Moves
pub mod Rebalance
pub mod Books
pub mod Requests
