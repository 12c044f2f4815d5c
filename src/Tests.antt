-- ===== src/Tests.antt =====
-- The theorems at concrete inputs, and runs of the model.
mod Fixed
mod Protocol
mod Game
mod Ctf
mod Ratelimit
mod Sync
mod Combat
mod Broad
mod Hub
