-- ===== src/Tests.antt =====
-- Runs of the model on small databases, and the theorems at inputs that meet their hypotheses.
mod Samples
mod Routing
mod Ranking
mod Messaging
mod Sockets
mod Exporting
mod Accounts
mod Online
mod Chatting
mod Pushing
mod Reporting
