-- ===== src/Ratelimit.antt =====
-- internal/ratelimit: the limits on what one address may do.
pub mod Conns
