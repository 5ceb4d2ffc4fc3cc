-- ===== src/Worker/DeadLetters.antt =====
-- The dead-letter queue and the helpers of the consumer
-- (src/s3mer/kafka/dlq.py and src/s3mer/kafka/message_validation.py).
use Prim.Native.String.{◌++◌ as ◌^^◌}
use s3mer.Base.{ℕ, String, Bool, true, false, Option, none, some, List, [], ◌∷◌, if◌then◌else◌}
use s3mer.Base.Texts.{str_mem}
use s3mer.Exec.{Exec, Action, done, pure, ◌>>◌}
use s3mer.Env.{Env}
use s3mer.Operations
use s3mer.Operations.{S3Operation}
use s3mer.Message.{ReplicationMessage, ReplicationDeadLetter, TopicPartition, dead_letter}
use s3mer.Node.{
  Node, metric, outside, replication_dlq, replication_consumer_outcome,
  replication_partition_paused, replication_partition_resumed, replication_paused_partition,
}

-- The fields of a `DlqPublisher`.
pub record DlqPublisher : Type 0 where
  pub base_topic : String
  pub enabled : Bool
  pub topic_suffix : String

-- `topic_for`
unfoldable pub topic_for : DlqPublisher → String → Bool → String
topic_for dlq target per_backend =
    if per_backend
    then dlq.base_topic ^^ ("." ^^ (target ^^ dlq.topic_suffix))
    else dlq.base_topic ^^ dlq.topic_suffix

-- `message.key or ''`
abbrev pub key_or_empty : Option String → String
key_or_empty none = ""
key_or_empty (some k) = k

-- Where a message came from, and how its consumer was set up.
pub record Origin : Type 0 where
  pub topic_partition : TopicPartition
  pub offset : ℕ
  pub message : ReplicationMessage
  pub dlq : Option DlqPublisher
  pub per_backend : Bool

-- the outcomes that `record_skip` sends to the queue
abbrev pub dead_outcomes : List String
dead_outcomes = "skipped_permanent" ∷ "skipped_max_retries" ∷ "skipped_poison" ∷ []

module _ {env : Env} where
  -- the call of `publish` in `DlqPublisher.publish`, with the metric
  unfoldable pub send : DlqPublisher → ReplicationDeadLetter → Bool → Action (Node env)
  unfolding metric outside topic_for
  send dlq entry per_backend =
      outside (
        env.publish record {
          payload = dead_letter entry;
          topic = topic_for dlq entry.target_backend per_backend;
          partition_key =
              entry.original_message.bucket ^^ ("/" ^^ key_or_empty entry.original_message.key);
          request_id = none;
        })
      >> metric (replication_dlq entry.reason)

  -- `DlqPublisher.publish`
  unfoldable pub publish : DlqPublisher → ReplicationDeadLetter → Bool → Action (Node env)
  unfolding send
  publish dlq entry per_backend = if dlq.enabled then send dlq entry per_backend else done

  -- the part of `record_skip` that fills the queue
  unfoldable pub bury :
      Option DlqPublisher → Origin → String → String → Option String → Action (Node env)
  unfolding publish
  bury none o target outcome error s = done s
  bury (some dlq) o target outcome error s =
      if str_mem outcome dead_outcomes
      then publish dlq
          record {
            original_message = o.message;
            reason = outcome;
            error = error;
            target_backend = target;
            partition = o.topic_partition.partition;
            offset = o.offset;
            timestamp = env.now s.world;
          }
          o.per_backend s
      else done s

  -- `record_skip`, with a message: target, outcome and error
  unfoldable pub record_skip : Origin → String → String → Option String → Action (Node env)
  unfolding metric bury
  record_skip o target outcome error =
      metric (replication_consumer_outcome o.message.operation target outcome)
      >> bury o.dlq o target outcome error

  -- `resolve_operation`; a name that is no operation is counted, and the message is dropped
  unfoldable pub resolve_operation :
      ReplicationMessage → String → Exec (Node env) (Option S3Operation)
  unfolding metric
  resolve_operation message target = elim (Operations.of_value message.operation) [
    | some op ↦ pure (some op)
    | none ↦
        metric (replication_consumer_outcome message.operation target "skipped_poison") >> pure none
  ]

  -- `pause_partition`
  unfoldable pub pause_partition : TopicPartition → Action (Node env)
  unfolding metric outside
  pause_partition tp =
      outside (env.pause tp)
      >> metric (replication_partition_paused tp)
      >> metric (replication_paused_partition tp true)

  unfoldable pub count_resumed : List TopicPartition → Action (Node env)
  unfolding metric
  count_resumed [] = done
  count_resumed (tp ∷ tps) =
      metric (replication_partition_resumed tp)
      >> metric (replication_paused_partition tp false)
      >> count_resumed tps

  -- `resume_partitions`
  unfoldable pub resume_partitions : List TopicPartition → Action (Node env)
  unfolding outside count_resumed
  resume_partitions tps = outside (env.resume tps) >> count_resumed tps
