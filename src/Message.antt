-- ===== src/Message.antt =====
-- The message that the proxy sends to the workers (src/s3mer/kafka/messages.py), and what goes
-- to the broker.
use s3mer.Base.{ℕ, String, Option, List}
use s3mer.Value.{Params}

pub record ReplicationMessage : Type 0 where
  pub message_id : String
  pub timestamp : ℕ
  pub operation : String
  pub bucket : String
  pub key : Option String
  pub source_backend : String
  pub target_backends : List String
  pub metadata : Params
  pub retry_count : ℕ

-- The audit record of a message that was skipped (src/s3mer/kafka/dlq.py).
pub record ReplicationDeadLetter : Type 0 where
  pub original_message : ReplicationMessage
  pub reason : String
  pub error : Option String
  pub target_backend : String
  pub partition : ℕ
  pub offset : ℕ
  pub timestamp : ℕ

pub data Payload : Type 0 where
  replication : ReplicationMessage → Payload
  dead_letter : ReplicationDeadLetter → Payload

-- One call of the broker's `publish`; the payload is the record itself and not its JSON text.
pub record Publication : Type 0 where
  pub payload : Payload
  pub topic : String
  pub partition_key : String
  pub request_id : Option String

pub record TopicPartition : Type 0 where
  pub topic : String
  pub partition : ℕ
