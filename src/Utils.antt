-- ===== src/Utils.antt =====
-- runtime/utils: the read/write lock.
pub mod RwLock
mod Examples
