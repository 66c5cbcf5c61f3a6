-- ===== src/Serde.antt =====
-- runtime/serde/serde.py: the binary codec of stream values.
pub mod Struct
pub mod Framing
pub mod Ints
pub mod Utf8
pub mod Sequences
pub mod Scalars
pub mod Arrays
pub mod Values
pub mod Wrappers
pub mod Objects
pub mod Streams
mod Examples
