-- ===== src/Sync/Gather.antt =====
-- `execute_concurrent`: one call on each backend, interleaved by the event loop
-- (src/s3mer/backends/sync_executor.py).
pub mod Calls
pub mod Answers
pub mod Outcomes
use s3mer.Base.{ℕ, zero, suc, String, Bool, true, false, Option, none, some, List, [], ◌∷◌, map}
use s3mer.Value.{Params}
use s3mer.Operations.{S3Operation}
use s3mer.Errors.{Exn, runtime_error}
use s3mer.Exec.{Result, ok, raised, Exec, raise}
use s3mer.Env.{Env}
use s3mer.Pool.{Client, exn}
use s3mer.Node.{Node, settle}
use s3mer.Streaming.Bytes.{Bytes}
use s3mer.Streaming.Shared.{BodyReader}
use s3mer.Streaming.Shared.Readers.{reads}
use s3mer.Sync.{SyncExecutionResult}

-- How far `backend.execute` has come. A call that was answered keeps the parts of the body that the
-- client library has read; it is settled when the breaker and the metrics are updated.
pub data Stage : Type 0 where
  waiting : Stage
  answered settled : List Bytes → Result Params → Stage

-- `backend.execute(operation, params)`, as a task of `asyncio.gather`
pub record Task : Type 0 where
  pub client : Client
  pub params : Params
  pub reader : Option BodyReader
  pub stage : Stage

add : Client → Stage → SyncExecutionResult → SyncExecutionResult
add c (settled parts (ok r)) all = record all { successes = (c, r) ∷ all.successes }
add c (settled parts (raised e)) all = record all { failures = (c, e) ∷ all.failures }
add c stage all = all

-- the loop over the results, which are in the order of the backends
unfoldable pub sort_out : List Task → SyncExecutionResult
unfolding add
sort_out [] = record { successes = []; failures = [] }
sort_out (t ∷ ts) = add t.client t.stage (sort_out ts)

module _ {env : Env} where
  -- the parts of the body that the client library reads in its call
  parts_of : S3Operation → Task → Option BodyReader → Node env → List Bytes
  parts_of op t none s = []
  parts_of op t (some r) s = (reads (env.reader_reads t.client.name op t.params r s.world) r).0

  -- `await method(**params)`
  call : S3Operation → Task → Node env → Task × Node env
  unfolding parts_of
  call op t s =
      let parts = parts_of op t t.reader s in
      let (r, w) = env.call t.client.name op t.params parts s.world in
      (record t { stage = answered parts r }, record s { world = w })

  -- the first part of `execute`, up to the answer of the backend
  begin : S3Operation → Bool → Task → Node env → Task × Node env
  unfolding call
  begin op true t s = call op t s
  begin op false t s = (
    record t {
      stage =
          settled [] (raised (exn runtime_error "Backend client not started — call start() first"));
    },
    s,
  )

  -- One step of a task: the call of the backend, or what `execute` does with the answer.
  unfoldable pub advance : S3Operation → Task → Node env → Task × Node env
  unfolding begin
  advance op t s = elim t.stage [
    | waiting ↦ begin op t.client.started t s
    | answered parts r ↦
        let (r', s') = settle t.client.name op r s in (record t { stage = settled parts r' }, s')
    | settled parts r ↦ (t, s)
  ]

  advance_at : S3Operation → ℕ → List Task → Node env → List Task × Node env
  unfolding advance
  advance_at op n [] s = ([], s)
  advance_at op zero (t ∷ ts) s = let (t', s') = advance op t s in (t' ∷ ts, s')
  advance_at op (suc n) (t ∷ ts) s = let (ts', s') = advance_at op n ts s in (t ∷ ts', s')

  follow : S3Operation → List ℕ → List Task → Node env → List Task × Node env
  unfolding advance_at
  follow op [] ts s = (ts, s)
  follow op (n ∷ ns) ts s = let (ts', s') = advance_at op n ts s in follow op ns ts' s'

  -- two steps end any task
  complete : S3Operation → List Task → Node env → List Task × Node env
  unfolding advance
  complete op [] s = ([], s)
  complete op (t ∷ ts) s =
      let (t', s') = advance op t s in
      let (t'', s'') = advance op t' s' in let (ts', end) = complete op ts s'' in (t'' ∷ ts', end)

  -- `await asyncio.gather(*tasks, return_exceptions=True)`: the steps of the tasks in the order of
  -- the event loop; what is left then is completed in turn.
  unfoldable pub gather : S3Operation → List Task → Node env → List Task × Node env
  unfolding follow complete
  gather op tasks s =
      let (ts, s') =
        follow op (env.interleaving (map (λ t. t.client.name) tasks) s.world) tasks s in
      complete op ts s'

  -- `execute_concurrent`, from the tasks
  unfoldable pub execute_concurrent : S3Operation → List Task → Exec (Node env) SyncExecutionResult
  unfolding gather sort_out
  execute_concurrent op [] s = raise (exn runtime_error "No sync backends configured") s
  execute_concurrent op (t ∷ ts) s = let (ts', s') = gather op (t ∷ ts) s in (ok (sort_out ts'), s')
