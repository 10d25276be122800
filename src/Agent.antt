-- ===== src/Agent.antt =====
-- Local AI coding sessions on a Node (internal/agent).
pub mod Cache
