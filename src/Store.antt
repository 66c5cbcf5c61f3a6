-- ===== src/Store.antt =====
-- runtime/store: the maps that hold join items and pending requests.
pub mod Rotating
pub mod Joining
mod Examples
