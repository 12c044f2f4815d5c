-- ===== src/Bot.antt =====
-- internal/bot: what a client does with the snapshots it receives.
pub mod Reconstruct
