-- ===== src/Kafka.antt =====
-- datasource/kafka/aiokafkads.py: the Kafka source.
pub mod Lanes
pub mod Offsets
pub mod Requests
mod Examples
