-- ===== src/Sync/Gather/Outcomes.antt =====
-- The successes and failures that `execute_concurrent` reports.
use mathlib.Core.List.{Perm}
use s3mer.Sync.Gather.Calls.{Event, Ran}
use s3mer.Base.{◌++◌, ◌≡◌, refl, List, [], ◌∷◌, All}
use s3mer.Value.{Params}
use s3mer.Operations.{S3Operation}
use s3mer.Errors.{Exn}
use s3mer.Exec.{Result, ok, raised}
use s3mer.Env.{Env}
use s3mer.Node.{Node}
use s3mer.Streaming.Bytes.{Bytes}
use s3mer.Sync.{SyncExecutionResult}
use s3mer.Sync.Gather.{waiting, settled, Task, add, sort_out, execute_concurrent}
use s3mer.Sync.Gather.Answers.{
  Answer, At, at, Settled, is_settled, Each, nobody, next, AllMove, gather_lem,
}

-- Every task is reported once, in order, by its own answer; the events are those of all answers.
pub data Outcome (env : Env) (op : S3Operation)
    : List Task → List Event → SyncExecutionResult → Type 0 where
  none_left : Outcome env op [] [] (record { successes = []; failures = [] })
  accepted :
      (t : Task) (ts : List Task) (all : SyncExecutionResult) (made events : List Event)
      (response : Params)
      → Answer env op t made (ok response)
      → Outcome env op ts events all
      → Outcome env op
          (t ∷ ts)
          (made ++ events)
          (record all { successes = (t.client, response) ∷ all.successes })
  refused :
      (t : Task) (ts : List Task) (all : SyncExecutionResult) (made events : List Event) (e : Exn)
      → Answer env op t made (raised e)
      → Outcome env op ts events all
      → Outcome env op
          (t ∷ ts)
          (made ++ events)
          (record all { failures = (t.client, e) ∷ all.failures })

-- From the state `s` to the state `end` exactly these events have happened, in some order.
unfoldable pub Happened : (env : Env) → S3Operation → List Event → Node env → Node env → Type 0
Happened env op events s end = (order : List Event) × (Perm order events × Ran env op order s end)

module _ {env : Env} (op : S3Operation) where
  add_lem :
      (t : Task) (ts : List Task) (all : SyncExecutionResult) (parts : List Bytes)
      (made events : List Event) (r : Result Params)
      → Answer env op t made r
      → Outcome env op ts events all
      → Outcome env op (t ∷ ts) (made ++ events) (add t.client (settled parts r) all)
  unfolding add
  add_lem t ts all parts made events (ok response) h rest =
      accepted t ts all made events response h rest
  add_lem t ts all parts made events (raised e) h rest = refused t ts all made events e h rest

  settled_lem :
      (t now : Task) (ts : List Task) (all : SyncExecutionResult) (made events : List Event)
      → At env op (Settled env op) t now made
      → Outcome env op ts events all
      → Outcome env op (t ∷ ts) (made ++ events) (add now.client now.stage all)
  settled_lem t _ ts all _ events (at _ _ (is_settled parts r made h)) rest =
      add_lem t ts all parts made events r h rest

  sort_out_lem :
      (ts nows : List Task) (events : List Event)
      → Each env op (Settled env op) ts nows events
      → Outcome env op ts events (sort_out nows)
  unfolding sort_out
  sort_out_lem _ _ _ nobody = none_left
  sort_out_lem _ _ _ (next t now ts nows made rest h hs) =
      settled_lem t now ts (sort_out nows) made rest h (sort_out_lem ts nows rest hs)

  -- However the event loop interleaves the calls, every backend is called exactly once with its own parameters if its
  -- client is started, and nothing else happens but that each answer is noted once; each reads the
  -- body from its first byte, and is reported exactly once, in the order of the backends: as a
  -- success with its response or as a failure with its error.
  pub execute_concurrent-Outcome :
      (t : Task) (ts : List Task) (s : Node env)
      → All (λ t. t.stage ≡ waiting) (t ∷ ts)
      → (all : SyncExecutionResult) × ((events : List Event) × (((execute_concurrent op
                (t ∷ ts)
                s).0
              ≡ ok all)
            × Outcome env op (t ∷ ts) events all
            × Happened env op events s (execute_concurrent op (t ∷ ts) s).1))
  unfolding execute_concurrent Happened AllMove
  execute_concurrent-Outcome t ts s h =
      let (new, (all, (ran, same, ks))) = gather_lem op (t ∷ ts) s h in
      (_, (all, (refl, sort_out_lem (t ∷ ts) _ all ks, (new, (same, ran)))))
