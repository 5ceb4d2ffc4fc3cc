-- ===== src/Node.antt =====
-- The state of the proxy during a request, and a call of a backend
-- (`S3BackendClient` of src/s3mer/backends/client.py).
use s3mer.Base.{ℕ, String, Bool, true, false, Option, none, some, List, [], ◌∷◌, if◌then◌else◌}
use s3mer.Dict
use s3mer.Dict.{Dict}
use s3mer.Message.{TopicPartition}
use s3mer.Value.{Params}
use s3mer.Operations
use s3mer.Operations.{S3Operation}
use s3mer.Errors.{runtime_error}
use s3mer.Exec.{Result, ok, raised, Exec, Action, pure, raise, attempt, modify, ◌>>=◌, ◌>>◌}
use s3mer.Env.{Env}
use s3mer.Breaker
use s3mer.Breaker.{Breaker}
use s3mer.Pool.{Pool, Client, exn}
use s3mer.Streaming.Bytes.{Bytes}
use s3mer.Streaming.Buffered.{Buffered}
use s3mer.Streaming.Buffered.Replay.{reads}

-- The calls that the program makes on its metrics, without the durations.
pub data Metric : Type 0 where
  -- backend, operation, whether it succeeded
  backend_request : String → String → Bool → Metric
  backend_status : String → Bool → Metric
  replication_fanout : String → ℕ → Metric
  replication_task : String → String → Metric
  -- operation, backend, outcome
  replication_consumer_outcome : String → String → String → Metric
  replication_retry : String → String → Metric
  replication_partition_paused replication_partition_resumed : TopicPartition → Metric
  replication_paused_partition : TopicPartition → Bool → Metric
  -- mode, number
  replication_background_retries_in_flight : String → ℕ → Metric
  replication_dlq : String → Metric

-- The state of a process. `body` is the buffered stream in the parameters of the request, if its body is a stream;
-- `request_id` is the context variable of that name; `metrics` holds the calls, the last one first;
-- `background_retries` is the worker's `_background_retries_in_flight`.
pub record Node (env : Env) : Type 0 where
  pub world : env.World
  pub pool : Pool
  pub body : Option Buffered
  pub request_id : Option String
  pub metrics : List Metric
  pub background_retries : Dict ℕ

-- `self._circuit_breaker.f()`, if there is a breaker
unfoldable pub with_breaker : String → (Breaker → Breaker) → Pool → Pool
with_breaker name f pool = elim (Dict.get name pool.breakers) [
  | none ↦ pool
  | some b ↦ record pool { breakers = Dict.put name (f b) pool.breakers }
]

-- `start` and `close` of a client; making the library's client is not modelled
unfoldable pub start : Client → Client
start client = record client { started = true }

unfoldable pub close : Client → Client
close client = record client { started = false }

module _ {env : Env} where
  -- what `execute` does after a success
  unfoldable pub record_success : String → S3Operation → Node env → Node env
  unfolding with_breaker
  record_success name op s = record s {
    metrics =
        backend_status name true ∷ backend_request name (Operations.value op) true ∷ s.metrics;
    pool = with_breaker name Breaker.record_success s.pool;
  }

  -- what `execute` does after an exception
  unfoldable pub record_failure : String → S3Operation → Node env → Node env
  unfolding with_breaker
  record_failure name op s = record s {
    metrics =
        backend_status name false ∷ backend_request name (Operations.value op) false ∷ s.metrics;
    pool = with_breaker name (λ b. Breaker.record_failure (env.monotonic s.world) b) s.pool;
  }

  -- the parts of a streamed body that the client library reads
  unfoldable pub consume : String → S3Operation → Params → Node env → List Bytes × Node env
  consume name op params s = elim s.body [
    | none ↦ ([], s)
    | some b ↦
        let (parts, b') = reads (env.body_reads name op params b s.world) b in
        (parts, record s { body = some b' })
  ]

  -- `await method(**params)`
  unfoldable pub invoke : String → S3Operation → Params → Exec (Node env) Params
  unfolding consume
  invoke name op params s =
      let (parts, s') = consume name op params s in
      let (r, w) = env.call name op params parts s'.world in (r, record s' { world = w })

  unfoldable pub settle : String → S3Operation → Result Params → Exec (Node env) Params
  unfolding record_success record_failure
  settle name op (ok response) = modify (record_success name op) >> pure response
  settle name op (raised e) = modify (record_failure name op) >> raise e

  -- `S3BackendClient.execute`
  unfoldable pub execute : Client → S3Operation → Params → Exec (Node env) Params
  unfolding invoke settle
  execute client op params =
      if client.started
      then attempt (invoke client.name op params) >>= settle client.name op
      else raise (exn runtime_error "Backend client not started — call start() first")

  unfoldable pub metric : Metric → Action (Node env)
  metric m s = (ok tt, record s { metrics = m ∷ s.metrics })

  unfoldable pub of_result : {A : Type 0} → Result A → Exec (Node env) A
  of_result r s = (r, s)

  -- a call of the environment that changes the world
  unfoldable pub outside : {A : Type 0} → (env.World → Result A × env.World) → Exec (Node env) A
  outside f s = let (r, w) = f s.world in (r, record s { world = w })
