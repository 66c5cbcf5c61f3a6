-- ===== src/Operators.antt =====
-- operators/: the streams that route, join and split values.
pub mod Case
pub mod Flow
pub mod Join
pub mod Pass
pub mod Split
mod Examples
