-- ===== src/Runtime.antt =====
-- runtime/common.py: how a stream calls its consumer.
pub mod Contexts
pub mod Endpoint
pub mod Callers
mod Deadlines
mod Examples
