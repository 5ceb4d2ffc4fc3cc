-- ===== src/Replication.antt =====
-- Which messages a write sends to the workers (src/s3mer/kafka/manager.py and kafka/publisher.py).
pub mod Extraction
pub mod Publishing
pub mod Broker
pub mod Tasks
