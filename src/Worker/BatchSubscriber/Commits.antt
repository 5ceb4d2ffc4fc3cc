-- ===== src/Worker/BatchSubscriber/Commits.antt =====
-- When the consumer of batches commits a message.
use s3mer.Base.{String, ◌≡◌, Option, none, some}
use s3mer.Operations
use s3mer.Operations.{S3Operation}
use s3mer.Exec.{ok}
use s3mer.Env.{Env}
use s3mer.Message.{ReplicationMessage}
use s3mer.Node.{Node}
use s3mer.Pool.{Client}
use s3mer.Worker.DeadLetters.{DlqPublisher}
use s3mer.Worker.Executor.{RetryConfig}
use s3mer.Worker.Subscriber.{Place}
use s3mer.Worker.BatchSubscriber.Outcomes.{Done, Failed}
use s3mer.Worker.Skips.{Skips, Served}
use s3mer.Pool
use Prim.Native.String.{◌++◌ as ◌^^◌}
use s3mer.Node.{replication_consumer_outcome}
use s3mer.Base.{true, List, [], ◌∷◌}
use s3mer.Worker.BatchSubscriber.{pause_all, BatchTask, batch_origin, all_targets}

module _ (env : Env) (config : RetryConfig) (dlq : Option DlqPublisher) where
  -- the operation and the source of a message
  abbrev pub IsFor : ReplicationMessage → S3Operation → Client → Node env → Type 0
  IsFor m op source s =
      (Operations.of_value m.operation ≡ some op) × (Pool.get m.source_backend s.pool ≡ some source)

  -- Why the handler returned, or what it left to a task, and what has happened from the state `s` to the state
  -- `end` before it did.
  pub data Verdict (place : Place)
      : Option ReplicationMessage → Node env → Option BatchTask → Node env → Type 0 where
    invalid :
        (s : Node env)
        → Verdict place none s none (record s {
          metrics = replication_consumer_outcome "unknown" "unknown" "skipped_poison" ∷ s.metrics;
        })
    not_an_operation :
        (m : ReplicationMessage) (s : Node env)
        → Operations.of_value m.operation ≡ none
        → Verdict place (some m) s none (record s {
          metrics =
              replication_consumer_outcome m.operation (all_targets m) "skipped_poison" ∷ s.metrics;
        })
    unknown_source :
        (m : ReplicationMessage) (s end : Node env)
        → Pool.get m.source_backend s.pool ≡ none
        → Skips
            (batch_origin dlq place m)
            (all_targets m)
            "skipped_poison"
            (some ("Unknown backend: " ^^ m.source_backend))
            s
            end
        → Verdict place (some m) s none end
    all_done :
        (m : ReplicationMessage) (op : S3Operation) (source : Client) (s end : Node env)
        → IsFor m op source s
        → Served
            (Done env config (batch_origin dlq place m) op source)
            (Failed env config (batch_origin dlq place m) op source)
            m.target_backends
            []
            s
            end
        → Verdict place (some m) s none end
    some_left :
        (m : ReplicationMessage) (op : S3Operation) (source : Client) (name : String)
        (names : List String) (s mid end : Node env)
        → IsFor m op source s
        → Served
            (Done env config (batch_origin dlq place m) op source)
            (Failed env config (batch_origin dlq place m) op source)
            m.target_backends
            (name ∷ names)
            s
            mid
        → env.has_consumer mid.world ≡ true
        → pause_all config (batch_origin dlq place m) op source (env.assignment mid.world) mid
          ≡ (ok tt, end)
        → Verdict place
            (some m)
            s
            (some record {
              origin = batch_origin dlq place m;
              operation = op;
              source = source;
              failed_targets = name ∷ names;
              assigned = env.assignment mid.world;
            })
            end
