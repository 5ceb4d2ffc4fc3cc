-- ===== src/Worker/Subscriber/Verdicts.antt =====
-- When the consumer commits a message, and when it leaves it for a retry.
use Prim.Native.String.{◌++◌ as ◌^^◌}
use s3mer.Base.{String, ◌≡◌, Option, none, some, ◌∷◌}
use s3mer.Pool
use s3mer.Node.{replication_consumer_outcome}
use s3mer.Worker.Skips.{Skips}
use s3mer.Operations
use s3mer.Operations.{S3Operation}
use s3mer.Errors.{Exn, fail, retry, fallback, classify}
use s3mer.Exec.{ok, raised}
use s3mer.Env.{Env}
use s3mer.Message.{ReplicationMessage}
use s3mer.Node.{Node}
use s3mer.Pool.{Client}
use s3mer.Worker.DeadLetters.{DlqPublisher, pause_partition}
use s3mer.Worker.Executor.{RetryConfig}
use s3mer.Worker.Subscriber.{Handled, Place, RetryTask, origin, replicate}

pub retry_not_fail : retry ≡ fail → ⊥
retry_not_fail e = cc

pub fallback_not_fail : fallback ≡ fail → ⊥
fallback_not_fail e = cc

module _ (env : Env) (config : RetryConfig) (dlq : Option DlqPublisher) (backend : String) where
  -- the operation and the clients of a message
  abbrev pub IsFor : ReplicationMessage → S3Operation → Client → Client → Node env → Type 0
  IsFor m op source target s =
      (Operations.of_value m.operation ≡ some op)
      × (Pool.get m.source_backend s.pool ≡ some source)
      × (Pool.get backend s.pool ≡ some target)

  -- Why the handler returned, so that the offset is committed, and what has happened from the state `s` to the state
  -- `end` before it did.
  pub data Reason (place : Place) : Option ReplicationMessage → Node env → Node env → Type 0 where
    -- no message could be read
    invalid :
        (s : Node env)
        → Reason place none s (record s {
          metrics = replication_consumer_outcome "unknown" backend "skipped_poison" ∷ s.metrics;
        })
    -- its operation is none of the proxy's
    not_an_operation :
        (m : ReplicationMessage) (s : Node env)
        → Operations.of_value m.operation ≡ none
        → Reason place (some m) s (record s {
          metrics = replication_consumer_outcome m.operation backend "skipped_poison" ∷ s.metrics;
        })
    -- its source or the target is no backend of the pool, and this was recorded
    unknown_backend :
        (m : ReplicationMessage) (name : String) (s end : Node env)
        → Pool.get name s.pool ≡ none
        → Skips
            (origin dlq place m)
            backend
            "skipped_poison"
            (some ("Unknown backend: " ^^ name))
            s
            end
        → Reason place (some m) s end
    -- it was copied
    copied :
        (m : ReplicationMessage) (op : S3Operation) (source target : Client) (s end : Node env)
        → IsFor m op source target s
        → replicate config dlq backend m op source target s ≡ (ok tt, end)
        → Reason place (some m) s end
    -- the copy failed for good, and this was recorded
    failed_for_good :
        (m : ReplicationMessage) (op : S3Operation) (source target : Client) (e : Exn)
        (s mid end : Node env)
        → IsFor m op source target s
        → replicate config dlq backend m op source target s ≡ (raised e, mid)
        → classify e ≡ fail
        → Skips (origin dlq place m) backend "skipped_permanent" (some e.text) mid end
        → Reason place (some m) s end

  -- How the handler may end, from the state `s`.
  pub data Verdict (place : Place) (parsed : Option ReplicationMessage) (s : Node env)
      : Handled × Node env → Type 0 where
    committed :
        (end : Node env)
        → Reason place parsed s end
        → Verdict place parsed s (record { result = ok tt; task = none }, end)
    -- an exception, and no retry: the broker's library delivers the message again
    refused :
        (e : Exn) (end : Node env)
        → Verdict place parsed s (record { result = raised e; task = none }, end)
    -- the copy failed, the partition is paused, and a task is to retry this message
    postponed :
        (m : ReplicationMessage) (op : S3Operation) (source target : Client) (e x : Exn)
        (mid end : Node env)
        → parsed ≡ some m
        → IsFor m op source target s
        → replicate config dlq backend m op source target s ≡ (raised x, mid)
        → (classify x ≡ fail → ⊥)
        → pause_partition place.topic_partition mid ≡ (ok tt, end)
        → Verdict place parsed s (
          record {
            result = raised e;
            task = some record {
              origin = origin dlq place m;
              operation = op;
              source = source;
              target = target;
            };
          },
          end,
        )

  module _ (place : Place) (m : ReplicationMessage) (op : S3Operation) (source target : Client)
      (s : Node env) (known : IsFor m op source target s) where
    task : RetryTask
    task = record { origin = origin dlq place m; operation = op; source = source; target = target }
