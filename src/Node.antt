-- ===== src/Node.antt =====
-- The Node: the client on each machine, which runs the work (internal/node).
pub mod Jobs
pub mod FileEdit
