-- ===== src/Worker/Subscriber.antt =====
-- The consumer of the messages for one backend (`handle_per_backend_replication` of
-- src/s3mer/kafka/subscribers.py). Reading the JSON text is the library's: a message comes parsed,
-- or as `none` where it is invalid.
pub mod Verdicts
use Prim.Native.String.{◌++◌ as ◌^^◌}
use s3mer.Base.{
  ℕ, String, Bool, true, false, not, ◌&&◌, Option, none, some, List, [], ◌∷◌, if◌then◌else◌,
}
use s3mer.Base.Texts.{str_eq}
use s3mer.Operations.{S3Operation}
use s3mer.Errors.{Exn, ErrorAction, fail, retry, fallback, runtime_error, classify}
use s3mer.Exec.{Result, ok, raised, Exec, Action, done, pure, raise, ◌>>=◌, ◌>>◌}
use s3mer.Env.{Env}
use s3mer.Message.{ReplicationMessage, TopicPartition}
use s3mer.Node.{Node, metric, replication_consumer_outcome}
use s3mer.Pool
use s3mer.Pool.{Client, exn}
use s3mer.Worker.DeadLetters.{Origin, DlqPublisher, record_skip, resolve_operation, pause_partition}
use s3mer.Worker.Executor.{RetryConfig, replicate_operation}

-- A background task that the handler creates: the arguments of `schedule_per_backend_retry`.
pub record RetryTask : Type 0 where
  pub origin : Origin
  pub operation : S3Operation
  pub source : Client
  pub target : Client

-- How a call of the handler ends: it returns, which commits the offset, or raises; and the task
-- that it created.
pub record Handled : Type 0 where
  pub result : Result (Unit {0})
  pub task : Option RetryTask

-- the message's place in its topic
pub record Place : Type 0 where
  pub topic_partition : TopicPartition
  pub offset : ℕ
  pub request_id : Option String

abbrev pub Handler : Env → Type 0
Handler env = Node env → Handled × Node env

abbrev pub origin : Option DlqPublisher → Place → ReplicationMessage → Origin
origin dlq place m = record {
  topic_partition = place.topic_partition;
  offset = place.offset;
  message = m;
  dlq = dlq;
  per_backend = true;
}

module _ {env : Env} where
  without_task : Result (Unit {0}) × Node env → Handled × Node env
  without_task (r, s) = (record { result = r; task = none }, s)

  -- the context variable of a message that has a request id
  unfoldable pub bind : Option String → Node env → Node env
  bind none s = s
  bind (some id) s = if str_eq id "" then s else record s { request_id = some id }

module _ {env : Env} (config : RetryConfig) (dlq : Option DlqPublisher) (backend : String) where
  -- the call, and the outcome of its success
  unfoldable pub replicate : ReplicationMessage → S3Operation → Client → Client → Action (Node env)
  unfolding metric
  replicate m op source target =
      replicate_operation config m source target op
      >> metric (replication_consumer_outcome m.operation backend "success")

  -- after the partition was paused
  paused : RetryTask → Result (Unit {0}) × Node env → Handled × Node env
  paused task (raised e, s) = (record { result = raised e; task = none }, s)
  paused task (ok u, s) = (
    record {
      result = raised (exn runtime_error "Replication failed for target. Partition paused.");
      task = some task;
    },
    s,
  )

  -- the consumer is looked up only where another try may succeed
  try_later : RetryTask → Handler env
  unfolding paused metric
  try_later task s =
      if env.has_consumer s.world
      then paused task (pause_partition task.origin.topic_partition s)
      else without_task (
          (metric (
                replication_consumer_outcome task.origin.message.operation backend
                  "failed_no_consumer")
              >> raise
                  (exn runtime_error "Replication failed for target and consumer is unavailable."))
            s)

  -- the `except` around the call
  after_failure : RetryTask → Exn → Handler env
  unfolding try_later without_task
  after_failure task e s = elim (classify e) [
    | fail ↦ without_task (record_skip task.origin backend "skipped_permanent" (some e.text) s)
    | _ ↦ try_later task s
  ]

  after_call : RetryTask → Result (Unit {0}) × Node env → Handled × Node env
  unfolding after_failure
  after_call task (ok u, s) = (record { result = ok u; task = none }, s)
  after_call task (raised e, s) = after_failure task e s

  attempt_task : RetryTask → Handler env
  unfolding after_call replicate
  attempt_task task s =
      after_call task (replicate task.origin.message task.operation task.source task.target s)

  unknown : Origin → String → Handler env
  unfolding without_task
  unknown o name s =
      without_task (record_skip o backend "skipped_poison" (some ("Unknown backend: " ^^ name)) s)

  with_clients :
      Place → ReplicationMessage → S3Operation → Option Client → Option Client → Handler env
  unfolding unknown attempt_task
  with_clients place m op none target = unknown (origin dlq place m) m.source_backend
  with_clients place m op (some source) none = unknown (origin dlq place m) backend
  with_clients place m op (some source) (some target) =
      attempt_task
        record { origin = origin dlq place m; operation = op; source = source; target = target }

  with_operation :
      Place → ReplicationMessage → Result (Option S3Operation) × Node env → Handled × Node env
  unfolding with_clients
  with_operation place m (raised e, s) = (record { result = raised e; task = none }, s)
  with_operation place m (ok none, s) = (record { result = ok tt; task = none }, s)
  with_operation place m (ok (some op), s) =
      with_clients place m op (Pool.get m.source_backend s.pool) (Pool.get backend s.pool) s

  -- the body of the `try`
  process : Place → Option ReplicationMessage → Handler env
  unfolding with_operation without_task metric
  process place none s =
      without_task (metric (replication_consumer_outcome "unknown" backend "skipped_poison") s)
  process place (some m) s = with_operation place m (resolve_operation m backend s)

  -- `handle_per_backend_replication`
  unfoldable pub handle_per_backend_replication : Place → Option ReplicationMessage → Handler env
  unfolding process bind
  handle_per_backend_replication place parsed s =
      let (h, s') = process place parsed (bind place.request_id s) in
      (h, record s' { request_id = none })
