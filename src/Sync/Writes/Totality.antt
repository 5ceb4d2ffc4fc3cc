-- ===== src/Sync/Writes/Totality.antt =====
-- A write to several backends gets as far as the calls if its backends are known and the parameters can be
-- prepared.
use s3mer.Streaming.Shared.Materialize.{
  Serves, of_data-Serves, stored, from_body_lem, stored-Serves, outcome,
}
use s3mer.Dict
use s3mer.Sync.Writes.Tasks.{open_reader_lem, ServesIf, Tasks, one_more, Tasks-waiting}
use s3mer.Base.{
  ◌≡◌, refl, sym, ap, ◌∙◌, Bool, true, false, Option, none, some, List, [], ◌∷◌, if◌then◌else◌,
  subst, length, concat,
}
use s3mer.Value.{Params, Value, null, str, int, bool, bytes, object, list, dict}
use s3mer.Exec.{Result, ok, pure, continue}
use s3mer.Streaming.Shared.{
  RequestBody, absent, opaque, raw, stream, from_body, MultiSyncBodyBuffer, new_reader,
  StreamConfig,
}
use s3mer.Streaming.Bytes.{Bytes}
use s3mer.Sync.Writes.{
  tasks_for, Client, Task, task_for, with_reader, given_reader, task, Prepare, make_tasks,
  run_tasks, run_concurrent, body_of, Bytes, SyncConfig, Pool, resolve_sync_backends, Env,
  body_from, S3Operation, Node, SyncExecutionResult, execute_concurrent, MultipartSession,
}
use s3mer.Sync.Gather.Outcomes.{execute_concurrent-Outcome}
use s3mer.Sync.Writes.Fanout.{fanned, FanOut, content, Outcome-Reports, make_tasks-Tasks}

unfoldable pub Total : (Client → Result Params) → Type 0
Total prepare = (c : Client) → (params : Params) × (prepare c ≡ ok params)

module _ (prepare : Client → Result Params) (body : Bytes) where
  Ready : Client → Result Task × Option MultiSyncBodyBuffer → Type 0
  Ready c (r, buffer) = ((t : Task) × (r ≡ ok t)) × ServesIf buffer body

  given_reader-Ready :
      (c : Client) (params : Params) (b : MultiSyncBodyBuffer)
      → Serves b body
      → Ready c ((with_reader c params b).0, some (with_reader c params b).1)
  unfolding Ready ServesIf with_reader given_reader Serves new_reader
  given_reader-Ready c params b (r, (opens, whole)) =
      subst
        (λ p. Ready c (
          (given_reader c params (length b.readers) p).0,
          some (given_reader c params (length b.readers) p).1,
        ))
        (sym (open_reader_lem b r opens)) ((_, refl), (r, (opens, whole)))

  task_for-Ready :
      (c : Client) (params : Params) (buffer : Option MultiSyncBodyBuffer)
      → ServesIf buffer body
      → Ready c (task_for c (ok params) buffer)
  unfolding task_for Ready ServesIf
  task_for-Ready c params none h = ((_, refl), tt)
  task_for-Ready c params (some b) h = either (Dict.contains "Body" params)
    where
      either :
          (has_body : Bool)
          → let pair : Result Task × Option MultiSyncBodyBuffer =
              if has_body
              then ((with_reader c params b).0, some (with_reader c params b).1)
              else (ok (task c params), some b) in
            Ready c pair
      either true = given_reader-Ready c params b h
      either false = ((_, refl), h)

  pub tasks_for-ok :
      (cs : List Client) (buffer : Option MultiSyncBodyBuffer)
      → Total prepare
      → ServesIf buffer body
      → (ts : List Task) × (tasks_for prepare cs buffer ≡ ok ts)
  unfolding tasks_for Total Ready
  tasks_for-ok [] buffer total h = ([], refl)
  tasks_for-ok (c ∷ cs) buffer total h =
      let (params, p) = total c in
      let ((t, made), serves) =
        subst (λ x. Ready c (task_for c x buffer)) (sym p) (task_for-Ready c params buffer h) in
      let (ts, rest) = tasks_for-ok cs (task_for c (prepare c) buffer).1 total serves in
      (t ∷ ts, rw (made, rest) refl)

-- The body does not fail while it is read.
Ends : RequestBody → Type 0
Ends absent = Unit
Ends opaque = Unit
Ends (raw bs) = Unit
Ends (stream chunks end) = end ≡ none

from_body-ok :
    (body : RequestBody) (config : StreamConfig)
    → Ends body
    → (buffer : Option MultiSyncBodyBuffer) × (((from_body body config 0).0 ≡ ok buffer)
        × ServesIf buffer (content body))
unfolding Ends from_body content ServesIf outcome
from_body-ok absent config h = (none, (refl, tt))
from_body-ok opaque config h = (none, (refl, tt))
from_body-ok (raw bs) config h = (_, (refl, of_data-Serves bs config.chunk_size))
from_body-ok (stream chunks end) config h = (
  some (stored config (concat chunks)),
  (rw h (ap (λ p. p.0) (from_body_lem config chunks none 0)), stored-Serves config (concat chunks)),
)

body_from-Ends : (v : Option Value) (source : Option (List Bytes)) → Ends (body_from v source)
unfolding body_from Ends
body_from-Ends none source = tt
body_from-Ends (some null) source = tt
body_from-Ends (some (bytes bs)) source = tt
body_from-Ends (some (object n)) none = tt
body_from-Ends (some (object n)) (some chunks) = refl
body_from-Ends (some (str x)) source = tt
body_from-Ends (some (int x)) source = tt
body_from-Ends (some (bool x)) source = tt
body_from-Ends (some (list x)) source = tt
body_from-Ends (some (dict x)) source = tt

make_tasks-ok :
    (prepare : Client → Result Params) (config : SyncConfig) (body : RequestBody) (pool : Pool)
    → (backends : List Client) → Total prepare
    → Ends body
    → resolve_sync_backends pool config.sync_backend_names ≡ ok backends
    → (tasks : List Task) × (make_tasks prepare config body pool ≡ ok (backends, tasks))
unfolding make_tasks
make_tasks-ok prepare config body pool backends total ends found =
    let (buffer, (made, serves)) = from_body-ok body config.stream_config ends in
    let (tasks, prepared) = tasks_for-ok prepare (content body) backends buffer total serves in
    (tasks, rw (made, found, prepared) refl)

module _ {env : Env} where
  concurrent-ok :
      (op : S3Operation) (prepare : Client → Result Params) (body : Bytes) (c : Client)
      (cs : List Client)
      → (ts : List Task) (s : Node env) → Tasks prepare body (c ∷ cs) ts
      → (all : SyncExecutionResult) × (((execute_concurrent op ts s).0 ≡ ok all)
          × FanOut env op prepare body (c ∷ cs) all s (execute_concurrent op ts s).1)
  concurrent-ok op prepare body c cs _ s (one_more _ t _ ts h hs) =
      let all_tasks = one_more c t cs ts h hs in
      let (all, (events, (is, out, ran))) =
        execute_concurrent-Outcome op t ts s
          (Tasks-waiting prepare body (c ∷ cs) (t ∷ ts) all_tasks) in
      (all, (is, fanned events (Outcome-Reports (c ∷ cs) (t ∷ ts) events all all_tasks out) ran))

  finished :
      (r : Result SyncExecutionResult × Node env) (backends : List Client)
      (all : SyncExecutionResult)
      → r.0 ≡ ok all
      → continue {B = SyncExecutionResult × List Client} r.0 (λ a. pure (a, backends)) r.1
        ≡ (ok (all, backends), r.1)
  finished (r, s) backends all e = rw e refl

  run_tasks-ok :
      (op : S3Operation) (prepare : Client → Result Params) (body : Bytes) (c : Client)
      (cs : List Client)
      → (ts : List Task) (s : Node env) → Tasks prepare body (c ∷ cs) ts
      → (all : SyncExecutionResult) × ((end : Node env) × ((run_tasks op (ok (c ∷ cs, ts)) s
              ≡ (ok (all, c ∷ cs), end))
            × FanOut env op prepare body (c ∷ cs) all s end))
  unfolding run_tasks
  run_tasks-ok op prepare body c cs ts s hs =
      let (all, (is, out)) = concurrent-ok op prepare body c cs ts s hs in
      (all, (_, (finished (execute_concurrent op ts s) (c ∷ cs) all is, out)))

  -- the calls are made where the backends are known
  pub run_concurrent-ok :
      (prepare : Prepare) (config : SyncConfig) (op : S3Operation) (params : Params)
      → (source : Option (List Bytes)) (session : Option MultipartSession) (s : Node env)
      → (c : Client) (cs : List Client) → Total (λ b. prepare b op params session)
      → resolve_sync_backends s.pool config.sync_backend_names ≡ ok (c ∷ cs)
      → (all : SyncExecutionResult) × ((end : Node env) × ((run_concurrent prepare config op params
                source session s
              ≡ (ok (all, c ∷ cs), end))
            × FanOut env op
                (λ b. prepare b op params session)
                (content (body_of params source))
                (c ∷ cs)
                all
                s
                end))
  unfolding run_concurrent body_of
  run_concurrent-ok prepare config op params source session s c cs total found =
      let one : Client → Result Params = λ b. prepare b op params session in
      let body = body_of params source in
      let (ts, made) =
        make_tasks-ok one config body s.pool (c ∷ cs) total
          (body_from-Ends (Dict.get "Body" params) source) found in
      let (found', hs) = make_tasks-Tasks one config body s.pool (c ∷ cs) ts made in
      let (all, (end, (ran, out))) = run_tasks-ok op one (content body) c cs ts s hs in
      (all, (end, (ap (λ p. run_tasks op p s) made ∙ ran, out)))
