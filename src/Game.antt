-- ===== src/Game.antt =====
-- internal/game: the replay log, the world's players and the match.
pub mod Replay
pub mod Delta
pub mod Baseline
pub mod Session
pub mod World
pub mod Match
pub mod Ctf
pub mod Zone
pub mod Killstreak
pub mod Combat
pub mod Pickups
pub mod Movement
pub mod Tick
pub mod Entities
