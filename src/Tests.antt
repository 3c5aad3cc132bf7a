-- ===== src/Tests.antt =====
-- Runs of the model on concrete messages, tables and files.
pub mod Data
pub mod Messages
pub mod Tables
pub mod Files
pub mod Sessions
pub mod Commands
pub mod Server
pub mod Daemon
pub mod Queries
pub mod World
pub mod Log
