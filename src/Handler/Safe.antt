-- ===== src/Handler/Safe.antt =====
-- The handlers with the exceptions of Game.cpp and the table of games (GameManager.hpp).
pub mod Games
pub mod Lobby
pub mod Endings
pub mod Accounts
pub mod Meetings
pub mod Fights
pub mod Requests
pub mod Runs
