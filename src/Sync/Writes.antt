-- ===== src/Sync/Writes.antt =====
-- `_BaseMultiBackendWriteStrategy`, the simple and the quorum strategy
-- (src/s3mer/backends/multisync_strategies.py). Errors while the request's own body is read are those of
-- `MultiSyncBodyBuffer.from_body`; here the body of a request ends. The buffer is local to a write: its temporary file goes
-- with it.
pub mod Tasks
pub mod Fanout
pub mod Quorum
pub mod Totality
pub mod Decisions
pub mod Fill
use Prim.Native.String.{◌++◌ as ◌^^◌}
use s3mer.Base.{
  ℕ, String, Bool, true, false, not, Option, none, some, List, [], ◌∷◌, map, keep_if, length,
  if◌then◌else◌,
}
use s3mer.Base.Texts.{str_eq, str_mem}
use s3mer.Dict
use s3mer.Value.{Value, null, str, int, bool, bytes, object, list, dict, Params}
use s3mer.Operations
use s3mer.Operations.{S3Operation}
use s3mer.Errors.{Exn, operation_not_supported, other}
use s3mer.Errors.Codes.{S3ErrorCode, not_implemented}
use s3mer.Exec.{and_then, Result, ok, raised, Exec, Action, done, pure, raise, ◌>>=◌, ◌>>◌}
use s3mer.Env.{Env}
use s3mer.Pool
use s3mer.Pool.{Pool, Client, exn}
use s3mer.Node.{Node, of_result}
use s3mer.Sessions.{MultipartSession}
use s3mer.Strategies.{Scheduler}
use s3mer.Streaming.Bytes.{Bytes}
use s3mer.Streaming.Shared.{
  RequestBody, absent, opaque, raw, stream, BodyReader, MultiSyncBodyBuffer, from_body, open_reader,
}
use s3mer.Sync.{
  SyncExecutionResult, SyncConfig, prepend, resolve_sync_backends, select_client_response,
  quorum_met, best_failure,
}
use s3mer.Sync.Gather.{Task, waiting, execute_concurrent}

-- `_prepare_backend_params` of a strategy
abbrev pub Prepare : Type 0
Prepare = Client → S3Operation → Params → Option MultipartSession → Result Params

abbrev pub not_supported : S3ErrorCode → String → Exn
not_supported code text = exn (operation_not_supported code none) text

-- `_reject_multipart_if_disabled`
unfoldable pub reject_multipart_if_disabled : S3Operation → Result (Unit {0})
reject_multipart_if_disabled op =
    if Operations.is_multipart op
    then raised (
        not_supported not_implemented (
          Operations.value op
          ^^ (" is not supported by this write strategy; "
              ^^ "use multi_sync_distributed or primary_replication")))
    else ok tt

-- `_prepare_backend_params` of the base class
unfoldable pub same_params : Prepare
same_params backend op params session = ok params

-- `params.get("Body")`, where the chunks are those of a body that is a stream
unfoldable pub body_from : Option Value → Option (List Bytes) → RequestBody
body_from none source = absent
body_from (some null) source = absent
body_from (some (bytes bs)) source = raw bs
body_from (some (object n)) none = opaque
body_from (some (object n)) (some chunks) = stream chunks none
body_from (some v) source = opaque

unfoldable pub body_of : Params → Option (List Bytes) → RequestBody
unfolding body_from
body_of params source = body_from (Dict.get "Body" params) source

abbrev pub task : Client → Params → Task
task backend params = record { client = backend; params = params; reader = none; stage = waiting }

-- `backend_params["Body"] = body_buffer.open_reader()`; a reader is known by its place among the
-- readers of the buffer
given_reader :
    Client
    → Params
    → ℕ
    → Result BodyReader × MultiSyncBodyBuffer
    → Result Task × MultiSyncBodyBuffer
given_reader backend params n (raised e, b) = (raised e, b)
given_reader backend params n (ok reader, b) = (
  ok (record {
    client = backend;
    params = Dict.put "Body" (object n) params;
    reader = some reader;
    stage = waiting;
  }),
  b,
)

with_reader : Client → Params → MultiSyncBodyBuffer → Result Task × MultiSyncBodyBuffer
unfolding given_reader
with_reader backend params b = given_reader backend params (length b.readers) (open_reader b)

-- the task for one backend, from the parameters that were prepared for it
task_for :
    Client → Result Params → Option MultiSyncBodyBuffer → Result Task × Option MultiSyncBodyBuffer
unfolding with_reader
task_for backend (raised e) buffer = (raised e, buffer)
task_for backend (ok params) none = (ok (task backend params), none)
task_for backend (ok params) (some b) =
    let (t, b') = with_reader backend params b in
    if Dict.contains "Body" params then (t, some b') else (ok (task backend params), some b)

-- `[backend.execute(operation, params_for_backend(backend)) for backend in backends]`
unfoldable pub tasks_for :
    (Client → Result Params) → List Client → Option MultiSyncBodyBuffer → Result (List Task)
unfolding task_for prepend
tasks_for prepare [] buffer = ok []
tasks_for prepare (c ∷ cs) buffer =
    let (r, buffer') = task_for c (prepare c) buffer in prepend r (tasks_for prepare cs buffer')

-- the backends and their tasks, before any call is made
pub make_tasks :
    (Client → Result Params) → SyncConfig → RequestBody → Pool → Result (List Client × List Task)
make_tasks prepare config body pool = and_then (from_body body config.stream_config 0).0 λ buffer.
    (and_then (resolve_sync_backends pool config.sync_backend_names)
      λ backends. (and_then (tasks_for prepare backends buffer) λ tasks. ok (backends, tasks)))

-- the names of the clients that are not among these
pub missing : List String → List Client → List String
missing names clients = map (λ c. c.name) (keep_if (λ c. not (str_mem c.name names)) clients)

-- the name of the response backend if it is a success, or of the first one
pub source_of : Option String → Client → List (Client × Params) → String
source_of none first successes = first.name
source_of (some name) first successes =
    if str_mem name (map (λ p. p.0.name) successes) then name else first.name

-- the check of the quorum and the choice of the response
unfoldable pub judge : SyncConfig → ℕ → SyncExecutionResult → Result Params
judge config required all =
    if quorum_met (length all.successes) required
    then select_client_response all.successes config.response_backend
    else raised (best_failure all.failures)

module _ {env : Env} where
  pub run_tasks :
      S3Operation
      → Result (List Client × List Task)
      → Exec (Node env) (SyncExecutionResult × List Client)
  run_tasks op (raised e) = raise e
  run_tasks op (ok (backends, tasks)) = execute_concurrent op tasks >>= λ all. pure (all, backends)

  -- `_run_concurrent`
  unfoldable pub run_concurrent :
      Prepare
      → SyncConfig
      → S3Operation
      → Params
      → Option (List Bytes)
      → Option MultipartSession
      → Exec (Node env) (SyncExecutionResult × List Client)
  unfolding run_tasks make_tasks
  run_concurrent prepare config op params source session s =
      run_tasks op
        (make_tasks (λ c. prepare c op params session) config (body_of params source) s.pool) s

  unfoldable pub fill :
      Scheduler env → S3Operation → Params → Params → String → List String → Action (Node env)
  fill schedule op params response source [] = done
  fill schedule op params response source (t ∷ ts) = schedule op params response source (t ∷ ts)

  -- `_schedule_async_fill`; the source is computed only if there are targets
  unfoldable pub schedule_async_fill :
      Scheduler env
      → SyncConfig
      → S3Operation
      → Params
      → Params
      → List (Client × Params)
      → Action (Node env)
  unfolding fill source_of missing
  schedule_async_fill schedule config op params response [] s =
      elim (missing [] (Pool.all_clients s.pool)) [
        | [] ↦ done s
        | t ∷ ts ↦ raise (exn other "list index out of range") s
      ]
  schedule_async_fill schedule config op params response ((c, r) ∷ rest) s =
      let successes = (c, r) ∷ rest in
      fill schedule op params response (source_of config.response_backend c successes)
        (missing (map (λ p. p.0.name) successes) (Pool.all_clients s.pool)) s

  -- `SimpleMultiSyncWriteStrategy.execute`
  unfoldable pub simple_write :
      SyncConfig → S3Operation → Params → Option (List Bytes) → Exec (Node env) Params
  unfolding judge of_result reject_multipart_if_disabled same_params
  simple_write config op params source =
      of_result (reject_multipart_if_disabled op)
      >> ((λ s. of_result (resolve_sync_backends s.pool config.sync_backend_names) s)
          >>= λ backends.
              (run_concurrent same_params config op params source none >>= λ (all, used).
              of_result (judge config (length backends) all)))

  -- what follows a write that may be filled in later
  unfoldable pub answer :
      Scheduler env
      → SyncConfig
      → S3Operation
      → Params
      → Bool
      → SyncExecutionResult
      → Exec (Node env) Params
  unfolding judge of_result
  answer schedule config op params replicate all =
      of_result (judge config config.sync_quorum all) >>= λ response.
      ((if replicate
          then schedule_async_fill schedule config op params response all.successes
          else done)
        >> pure response)

  -- `QuorumReplicationStrategy.execute`
  unfoldable pub quorum_write :
      Scheduler env
      → SyncConfig
      → S3Operation
      → Params
      → Option (List Bytes)
      → Bool
      → Exec (Node env) Params
  unfolding answer of_result reject_multipart_if_disabled same_params
  quorum_write schedule config op params source replicate =
      of_result (reject_multipart_if_disabled op)
      >> (run_concurrent same_params config op params source none >>= λ (all, used).
          answer schedule config op params replicate all)
