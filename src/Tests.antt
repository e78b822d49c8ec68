-- ===== src/Tests.antt =====
-- Concrete games: the theorems applied to them, and the outcomes of some runs.
mod Data
mod Games
mod Boards
mod People
mod Wire
mod Json
mod Requests
mod Runs
