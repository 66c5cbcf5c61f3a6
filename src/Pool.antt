-- ===== src/Pool.antt =====
-- runtime/pool: the pool of tasks.
pub mod WaitGroup
pub mod Queued
pub mod Threads
pub mod Heap
pub mod Delay
mod Times
mod Examples
