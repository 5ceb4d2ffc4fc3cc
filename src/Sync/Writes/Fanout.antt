-- ===== src/Sync/Writes/Fanout.antt =====
-- Which call each backend gets in a write to several backends, and what is reported.
use s3mer.Base.{
  ◌≡◌, refl, sym, ◌∙◌, ap, Option, none, some, List, [], ◌∷◌, ◌+◌, length, arith, subst, concat,
}
use s3mer.Value.{Params}
use s3mer.Operations.{S3Operation}
use s3mer.Errors.{Exn}
use s3mer.Exec.{ok_eq, Result, ok, raised, and_then_ok}
use s3mer.Env.{Env}
use s3mer.Pool.{Client, Pool}
use s3mer.Node.{Node}
use s3mer.Streaming.Bytes.{Bytes}
use s3mer.Streaming.Shared.{
  absent, opaque, raw, stream, MultiSyncBodyBuffer, RequestBody, from_body, StreamConfig, raw,
  Files, stream,
}
use s3mer.Streaming.Shared.Materialize.{
  stored-Serves, of_data-Serves, from_body_lem, outcome, from_body_lem,
}
use s3mer.Sync.{SyncExecutionResult, SyncConfig, resolve_sync_backends}
use s3mer.Sync.Gather.{Task, execute_concurrent}
use s3mer.Sync.Gather.Answers.{Answer}
use s3mer.Sync.Gather.Calls.{Event}
use s3mer.Exec.{bind_ok_at}
use s3mer.Base.{◌++◌}
use s3mer.Sync.Gather.Outcomes.{
  Happened, Outcome, none_left, accepted, refused, execute_concurrent-Outcome,
}
use s3mer.Sync.Writes.Tasks.{
  IsTaskFor, ServesIf, Tasks, no_task, one_more, tasks_for-Tasks, Tasks-waiting,
}
use s3mer.Sync.Writes.{
  tasks_for, run_concurrent, Prepare, MultipartSession, body_of, make_tasks, run_tasks,
}

-- Every backend is reported once, in the order of the backends, by the answer to its own call; the events are those of
-- these answers.
pub data Reports (env : Env) (op : S3Operation) (prepare : Client → Result Params) (body : Bytes)
    : List Client → List Event → SyncExecutionResult → Type 0 where
  nobody : Reports env op prepare body [] [] (record { successes = []; failures = [] })
  success :
      (c : Client) (cs : List Client) (all : SyncExecutionResult) (t : Task)
      (made events : List Event) (response : Params)
      → IsTaskFor prepare body c t
      → Answer env op t made (ok response)
      → Reports env op prepare body cs events all
      → Reports env op prepare body
          (c ∷ cs)
          (made ++ events)
          (record all { successes = (c, response) ∷ all.successes })
  failure :
      (c : Client) (cs : List Client) (all : SyncExecutionResult) (t : Task)
      (made events : List Event) (e : Exn)
      → IsTaskFor prepare body c t
      → Answer env op t made (raised e)
      → Reports env op prepare body cs events all
      → Reports env op prepare body
          (c ∷ cs)
          (made ++ events)
          (record all { failures = (c, e) ∷ all.failures })

-- The backends are reported, and from the state `s` to the state `end` nothing has happened but one call of each backend whose
-- client is started, and one note of its answer.
pub data FanOut (env : Env) (op : S3Operation) (prepare : Client → Result Params) (body : Bytes)
    (cs : List Client) (all : SyncExecutionResult) (s end : Node env) : Type 0 where
  fanned :
      (events : List Event)
      → Reports env op prepare body cs events all
      → Happened env op events s end
      → FanOut env op prepare body cs all s end

module _ {env : Env} {op : S3Operation} {prepare : Client → Result Params} {body : Bytes} where
  pub Outcome-Reports :
      (cs : List Client) (ts : List Task) (events : List Event) (all : SyncExecutionResult)
      → Tasks prepare body cs ts
      → Outcome env op ts events all
      → Reports env op prepare body cs events all
  Outcome-Reports _ _ _ _ no_task none_left = nobody
  Outcome-Reports _ _ _ _ (one_more c t cs ts h hs) (accepted _ _ all made events response a rest) =
      subst
        (λ d.
          Reports env op prepare body (c ∷ cs) (made ++ events)
            (record all { successes = (d, response) ∷ all.successes }))
        (sym h.is_client)
        (success c cs all t made events response h a (Outcome-Reports cs ts events all hs rest))
  Outcome-Reports _ _ _ _ (one_more c t cs ts h hs) (refused _ _ all made events e a rest) =
      subst
        (λ d.
          Reports env op prepare body (c ∷ cs) (made ++ events)
            (record all { failures = (d, e) ∷ all.failures }))
        (sym h.is_client)
        (failure c cs all t made events e h a (Outcome-Reports cs ts events all hs rest))

  Reports-length :
      (cs : List Client) (events : List Event) (all : SyncExecutionResult)
      → Reports env op prepare body cs events all
      → length all.successes + length all.failures ≡ length cs
  Reports-length _ _ _ nobody = omega arith
  Reports-length _ _ _ (success c cs all t made events r h a rest) =
      omega (arith, Reports-length cs events all rest)
  Reports-length _ _ _ (failure c cs all t made events e h a rest) =
      omega (arith, Reports-length cs events all rest)

  pub FanOut-length :
      (cs : List Client) (all : SyncExecutionResult) (s end : Node env)
      → FanOut env op prepare body cs all s end
      → length all.successes + length all.failures ≡ length cs
  FanOut-length cs all s end (fanned events h ran) = Reports-length cs events all h

-- the bytes of a body that is buffered
unfoldable pub content : RequestBody → Bytes
content absent = []
content opaque = []
content (raw bs) = bs
content (stream chunks end) = concat chunks

stream-ServesIf :
    (config : StreamConfig) (body : Bytes) (end : Option Exn) (buffer : Option MultiSyncBodyBuffer)
    → outcome config body end ≡ ok buffer
    → ServesIf buffer body
unfolding outcome ServesIf
stream-ServesIf config body none buffer e =
    subst (λ b. ServesIf b body) (ok_eq e) (stored-Serves config body)
stream-ServesIf config body (some x) buffer e = absurd cc

from_body-ServesIf :
    (body : RequestBody) (config : StreamConfig) (files : Files)
    (buffer : Option MultiSyncBodyBuffer)
    → (from_body body config files).0 ≡ ok buffer
    → ServesIf buffer (content body)
unfolding from_body content ServesIf
from_body-ServesIf absent config files none e = tt
from_body-ServesIf absent config files (some b) e = absurd cc
from_body-ServesIf opaque config files none e = tt
from_body-ServesIf opaque config files (some b) e = absurd cc
from_body-ServesIf (raw bs) config files none e = absurd cc
from_body-ServesIf (raw bs) config files (some b) e =
    subst (λ b. ServesIf b bs) (ok_eq e) (of_data-Serves bs config.chunk_size)
from_body-ServesIf (stream chunks end) config files buffer e =
    stream-ServesIf config (concat chunks) end buffer
      (ap (λ p. p.0) (sym (from_body_lem config chunks end files)) ∙ e)

pub make_tasks-Tasks :
    (prepare : Client → Result Params) (config : SyncConfig) (body : RequestBody) (pool : Pool)
    → (backends : List Client) (tasks : List Task)
    → make_tasks prepare config body pool ≡ ok (backends, tasks)
    → (resolve_sync_backends pool config.sync_backend_names ≡ ok backends)
      × Tasks prepare (content body) backends tasks
unfolding make_tasks
make_tasks-Tasks prepare config body pool backends tasks e =
    let (buffer, (made, e1)) = and_then_ok (from_body body config.stream_config 0).0 _ _ e in
    let (cs, (found, e2)) =
      and_then_ok (resolve_sync_backends pool config.sync_backend_names) _ _ e1 in
    let (ts, (prepared, e3)) = and_then_ok (tasks_for prepare cs buffer) _ _ e2 in
    let all =
      tasks_for-Tasks prepare (content body) cs buffer ts
        (from_body-ServesIf body config.stream_config 0 buffer made) prepared in
    subst
      (λ p.
        (resolve_sync_backends pool config.sync_backend_names ≡ ok p.0)
        × Tasks prepare (content body) p.0 p.1)
      (ok_eq e3) (found, all)

not_ok : {A : Type 0} {x : Exn} {a : A} → raised x ≡ ok a → ⊥
not_ok h = cc

module _ {env : Env} where
  concurrent-FanOut :
      (op : S3Operation) (prepare : Client → Result Params) (body : Bytes) (cs : List Client)
      → (ts : List Task) (all : SyncExecutionResult) (s end : Node env) → Tasks prepare body cs ts
      → execute_concurrent op ts s ≡ (ok all, end)
      → FanOut env op prepare body cs all s end
  unfolding execute_concurrent
  concurrent-FanOut op prepare body cs [] all s end hs e = absurd (not_ok (ap (λ r. r.0) e))
  concurrent-FanOut op prepare body cs (t ∷ ts) all s end hs e =
      let (all', (events, (is, h, ran))) =
        execute_concurrent-Outcome op t ts s (Tasks-waiting prepare body cs (t ∷ ts) hs) in
      let same : all' ≡ all = ok_eq (sym is ∙ ap (λ r. r.0) e) in
      fanned events
        (Outcome-Reports cs (t ∷ ts) events all hs (subst (Outcome env op (t ∷ ts) events) same h))
        (subst (Happened env op events s) (ap (λ r. r.1) e) ran)

  run_tasks-FanOut :
      (op : S3Operation) (prepare : Client → Result Params) (config : SyncConfig)
      (body : RequestBody)
      → (pool : Pool) (plan : Result (List Client × List Task)) (s end : Node env)
      → (all : SyncExecutionResult) (used : List Client)
      → make_tasks prepare config body pool ≡ plan
      → run_tasks op plan s ≡ (ok (all, used), end)
      → (resolve_sync_backends pool config.sync_backend_names ≡ ok used)
        × FanOut env op prepare (content body) used all s end
  unfolding run_tasks
  run_tasks-FanOut op prepare config body pool (raised x) s end all used h e =
      absurd (not_ok (ap (λ r. r.0) e))
  run_tasks-FanOut op prepare config body pool (ok (backends, tasks)) s end all used h e =
      let (result, (s', (calls, last))) = bind_ok_at (execute_concurrent op tasks) _ s _ end e in
      let (found, made) = make_tasks-Tasks prepare config body pool backends tasks h in
      subst
        (λ (p : (SyncExecutionResult × List Client) × Node env).
          (resolve_sync_backends pool config.sync_backend_names ≡ ok p.0.1)
          × FanOut env op prepare (content body) p.0.1 p.0.0 s p.1)
        (λ i. (ok_eq (ap (λ r. r.0) last) i, ap (λ r. r.1) last i))
        (found, concurrent-FanOut op prepare (content body) backends tasks result s s' made calls)

  pub run_concurrent-FanOut :
      (prepare : Prepare) (config : SyncConfig) (op : S3Operation) (params : Params)
      → (source : Option (List Bytes)) (session : Option MultipartSession) (s : Node env)
      → (all : SyncExecutionResult) (used : List Client) (end : Node env)
      → run_concurrent prepare config op params source session s ≡ (ok (all, used), end)
      → (resolve_sync_backends s.pool config.sync_backend_names ≡ ok used)
        × FanOut env op
            (λ c. prepare c op params session)
            (content (body_of params source))
            used
            all
            s
            end
  unfolding run_concurrent
  run_concurrent-FanOut prepare config op params source session s all used end e =
      run_tasks-FanOut op (λ c. prepare c op params session) config (body_of params source) s.pool _
        s end all used refl e
