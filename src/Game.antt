-- ===== src/Game.antt =====
-- server/src/game: the ships, the board, the rules and the game of two players.
pub mod Ship
pub mod Board
pub mod Rules
pub mod Nickname
pub mod Match
pub mod Manager
