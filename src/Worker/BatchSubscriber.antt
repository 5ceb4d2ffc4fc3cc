-- ===== src/Worker/BatchSubscriber.antt =====
-- The consumer of the messages for several backends (`handle_batch_replication` of
-- src/s3mer/kafka/subscribers.py). A message comes parsed, or as `none` where it is invalid.
pub mod Outcomes
pub mod Commits
use Prim.Native.String.{◌++◌ as ◌^^◌}
use s3mer.Base.{String, Bool, true, false, Option, none, some, List, [], ◌∷◌, if◌then◌else◌}
use s3mer.Base.Texts.{str_eq}
use s3mer.Operations.{S3Operation}
use s3mer.Errors.{Exn, ErrorAction, fail, runtime_error, classify}
use s3mer.Exec.{Result, ok, raised, Exec, Action, done, pure, raise, ◌>>=◌, ◌>>◌}
use s3mer.Env.{Env}
use s3mer.Message.{ReplicationMessage, TopicPartition}
use s3mer.Node.{Node, metric, replication_consumer_outcome}
use s3mer.Pool
use s3mer.Pool.{Client, exn}
use s3mer.Worker.DeadLetters.{Origin, DlqPublisher, record_skip, resolve_operation, pause_partition}
use s3mer.Worker.Executor.{RetryConfig, replicate_operation}
use s3mer.Worker.BatchRetry.{keep_failed}
use s3mer.Worker.Subscriber.{Place, bind}

-- The arguments of `schedule_global_retry`, in a task that the handler creates.
pub record BatchTask : Type 0 where
  pub origin : Origin
  pub operation : S3Operation
  pub source : Client
  pub failed_targets : List String
  pub assigned : List TopicPartition

-- `",".join(names)`
unfoldable pub join : List String → String
join [] = ""
join (n ∷ []) = n
join (n ∷ m ∷ ns) = n ^^ ("," ^^ join (m ∷ ns))

-- `",".join(message.target_backends) or "unknown"`
unfoldable pub all_targets : ReplicationMessage → String
unfolding join
all_targets m = let names = join m.target_backends in if str_eq names "" then "unknown" else names

abbrev pub batch_origin : Option DlqPublisher → Place → ReplicationMessage → Origin
batch_origin dlq place m = record {
  topic_partition = place.topic_partition;
  offset = place.offset;
  message = m;
  dlq = dlq;
  per_backend = false;
}

module _ {env : Env} (config : RetryConfig) (o : Origin) (op : S3Operation) (source : Client) where
  -- the copy to one target, with its outcome
  unfoldable pub replicate_to : Client → String → Action (Node env)
  unfolding metric
  replicate_to target name =
      replicate_operation config o.message source target op
      >> metric (replication_consumer_outcome o.message.operation name "success")

  -- the `except` around it: whether the target is to be retried
  unfoldable pub after_failure : String → Exn → Exec (Node env) Bool
  after_failure name e = elim (classify e) [
    | fail ↦ record_skip o name "skipped_permanent" (some e.text) >> pure false
    | _ ↦ pure true
  ]

  unfoldable pub after_copy : String → Result (Unit {0}) → Exec (Node env) Bool
  unfolding after_failure
  after_copy name (ok u) = pure false
  after_copy name (raised e) = after_failure name e

  unfoldable pub serve_client : String → Option Client → Exec (Node env) Bool
  unfolding replicate_to after_copy
  serve_client name none =
      record_skip o name "skipped_poison" (some ("Unknown backend: " ^^ name)) >> pure false
  serve_client name (some target) =
      λ s. let (r, s') = replicate_to target name s in after_copy name r s'

  unfoldable pub serve : String → Exec (Node env) Bool
  unfolding serve_client
  serve name s = serve_client name (Pool.get name s.pool) s

  -- the loop over the targets: those that are to be retried
  unfoldable pub serve_all : List String → Exec (Node env) (List String)
  unfolding serve keep_failed
  serve_all [] = pure []
  serve_all (t ∷ ts) =
      serve t >>= λ failed. (serve_all ts >>= λ rest. pure (keep_failed t failed rest))

  pub pause_all : List TopicPartition → Action (Node env)
  unfolding pause_partition
  pause_all [] = done
  pause_all (tp ∷ tps) = pause_partition tp >> pause_all tps

  -- What the handler does with the targets that failed: `none` returns, `some` goes on with an
  -- exception after the task was created.
  postpone : List String → Exec (Node env) (Option BatchTask)
  unfolding pause_all metric
  postpone failed s =
      if env.has_consumer s.world
      then (pause_all (env.assignment s.world)
            >> pure (
                some record {
                  origin = o;
                  operation = op;
                  source = source;
                  failed_targets = failed;
                  assigned = env.assignment s.world;
                }))
          s
      else (metric
              (replication_consumer_outcome o.message.operation (join failed) "failed_no_consumer")
            >> raise
                (exn runtime_error "Replication failed for targets and consumer is unavailable."))
          s

  unfoldable pub retry_later : List String → Exec (Node env) (Option BatchTask)
  unfolding postpone
  retry_later [] = pure none
  retry_later (t ∷ ts) = postpone (t ∷ ts)

module _ {env : Env} (config : RetryConfig) (dlq : Option DlqPublisher) where
  unfoldable pub with_source :
      Place → ReplicationMessage → S3Operation → Option Client → Exec (Node env) (Option BatchTask)
  unfolding serve_all retry_later
  with_source place m op none =
      record_skip (batch_origin dlq place m) (all_targets m) "skipped_poison"
        (some ("Unknown backend: " ^^ m.source_backend))
      >> pure none
  with_source place m op (some source) =
      serve_all config (batch_origin dlq place m) op source m.target_backends
      >>= retry_later config (batch_origin dlq place m) op source

  unfoldable pub with_operation :
      Place → ReplicationMessage → Option S3Operation → Exec (Node env) (Option BatchTask)
  unfolding with_source
  with_operation place m none = pure none
  with_operation place m (some op) =
      λ s. with_source place m op (Pool.get m.source_backend s.pool) s

  -- the body of the `try`, up to the exception that follows a task
  unfoldable pub process : Place → Option ReplicationMessage → Exec (Node env) (Option BatchTask)
  unfolding with_operation metric
  process place none =
      metric (replication_consumer_outcome "unknown" "unknown" "skipped_poison") >> pure none
  process place (some m) = resolve_operation m (all_targets m) >>= with_operation place m

  -- `handle_batch_replication`. `ok none` is a return, which commits the offset; `ok (some t)` is the
  -- exception "Consumer paused." that the handler raises when it has created the task `t`.
  unfoldable pub handle_batch_replication :
      Place → Option ReplicationMessage → Exec (Node env) (Option BatchTask)
  unfolding process
  handle_batch_replication place parsed s =
      let (r, s') = process place parsed (bind place.request_id s) in
      (r, record s' { request_id = none })
