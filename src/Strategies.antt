-- ===== src/Strategies.antt =====
-- The strategies for reads and for writes with replication (src/s3mer/backends/strategies.py).
pub mod Reads
pub mod Bodies
pub mod Writes
use s3mer.Base.{
  ℕ, zero, suc, String, Bool, true, false, not, Option, none, some, List, [], ◌∷◌, map, keep_if,
  if◌then◌else◌,
}
use s3mer.Base.Texts.{str_eq}
use mathlib.Core.Option
use s3mer.Value.{Params}
use s3mer.Operations.{S3Operation}
use s3mer.Errors.{Exn, ErrorAction, fail, retry, fallback, runtime_error, classify}
use s3mer.Exec.{Result, ok, raised, Exec, Action, done, pure, raise, attempt, modify, ◌>>=◌, ◌>>◌}
use s3mer.Env.{Env}
use s3mer.Pool
use s3mer.Pool.{Pool, Client, exn}
use s3mer.Node.{Node, execute}
use s3mer.Streaming.Bytes.{Bytes}
use s3mer.Streaming.Buffered
use s3mer.Streaming.Buffered.{Buffered}

-- `schedule_replication` of a replication manager: operation, parameters, response, source, targets
abbrev pub Scheduler : Env → Type 0
Scheduler env = S3Operation → Params → Params → String → List String → Action (Node env)

pub other_names : String → Pool → List String
other_names name pool =
    map (λ c. c.name) (keep_if (λ c. not (str_eq c.name name)) (Pool.all_clients pool))

module _ {env : Env} where
  -- the candidates of a request, where the pool has a primary
  pub with_candidates :
      {A : Type 0}
      → (ℕ → Pool → Option (List Client) × Pool)
      → (List Client → Exec (Node env) A)
      → Exec (Node env) A
  with_candidates choose f s =
      let (cs, pool) = choose (env.monotonic s.world) s.pool in
      elim cs [
        | none ↦ raise (exn runtime_error "No primary backend configured") s
        | some backends ↦ f backends (record s { pool = pool })
      ]

  pub last_error : {A : Type 0} → String → Option Exn → Exec (Node env) A
  last_error text none = raise (exn runtime_error text)
  last_error text (some e) = raise e

  -- the loop of `ReadFallbackStrategy.execute`
  unfoldable pub read_from :
      S3Operation → Params → List Client → Option Exn → Exec (Node env) Params
  unfolding last_error
  read_from op params [] last s = last_error "No backends configured" last s
  read_from op params (backend ∷ backends) last s =
      let (r, s') = execute backend op params s in
      elim r [
        | ok response ↦ (ok response, s')
        | raised e ↦ read_from op params backends (some e) s'
      ]

  -- `ReadFallbackStrategy.execute`
  unfoldable pub read : S3Operation → Params → Exec (Node env) Params
  unfolding with_candidates
  read op params =
      with_candidates Pool.all_by_latency (λ backends. read_from op params backends none)

  -- `params["Body"].seek_to_start()` before every attempt but the first
  pub rewind : Bool → Node env → Node env
  rewind true s = s
  rewind false s = record s { body = Option.map Buffered.seek_to_start s.body }

  -- The loop of `WritePrimaryReplicationStrategy.execute`: the response with the backend that gave it.
  unfoldable pub write_to :
      S3Operation → Params → Bool → List Client → Option Exn → Exec (Node env) (Params × Client)
  unfolding rewind last_error
  write_to op params first [] last s = last_error "No backends succeeded for write operation" last s
  write_to op params first (backend ∷ backends) last s =
      let (r, s') = execute backend op params (rewind first s) in
      elim r [
        | ok response ↦ (ok (response, backend), s')
        | raised e ↦ elim (classify e) [
          | fail ↦ (raised e, s')
          | _ ↦ write_to op params false backends (some e) s'
        ]
      ]

  -- the body of the request, wrapped if it is a stream
  pub wrap_body : Option (List Bytes) → ℕ → Node env → Node env
  wrap_body source chunk_size s = record s {
    body = Option.map (λ chunks. Buffered.init chunks chunk_size) source;
  }

  pub close_body : Node env → Node env
  close_body s = record s { body = Option.map Buffered.close s.body }

  pub replicate_if_any :
      Scheduler env → S3Operation → Params → Params → String → List String → Action (Node env)
  replicate_if_any schedule op params response source [] = done
  replicate_if_any schedule op params response source (t ∷ ts) =
      schedule op params response source (t ∷ ts)

  -- what follows the loop after a success
  pub finish :
      Scheduler env → S3Operation → Params → Bool → Params → Client → Exec (Node env) Params
  unfolding replicate_if_any other_names close_body
  finish schedule op params replicate response backend =
      modify close_body
      >> (if replicate
          then (λ s.
              replicate_if_any schedule op params response backend.name
                (other_names backend.name s.pool) s)
          else done)
      >> pure response

  -- `WritePrimaryReplicationStrategy.execute`, for a body that is a stream of these chunks or no stream
  unfoldable pub write :
      Scheduler env → S3Operation → Params → Option (List Bytes) → ℕ → Bool → Exec (Node env) Params
  unfolding with_candidates wrap_body finish
  write schedule op params source chunk_size replicate =
      with_candidates Pool.get_write_candidates (λ backends.
        modify (wrap_body source chunk_size)
        >> write_to op params true backends none
        >>= λ (response, backend). finish schedule op params replicate response backend)
