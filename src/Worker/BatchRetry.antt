-- ===== src/Worker/BatchRetry.antt =====
-- The background task that retries a batch on the targets that failed
-- (`schedule_global_retry` of src/s3mer/kafka/retry_scheduler.py).
pub mod Targets
pub mod Rounds
use s3mer.Base.{
  ℕ, zero, suc, ◌+◌, String, Bool, true, false, ltb, Option, none, some, List, [], ◌∷◌,
  if◌then◌else◌,
}
use s3mer.Operations.{S3Operation}
use s3mer.Errors.{Exn, ErrorAction, fail, key_error, classify}
use s3mer.Exec.{Result, ok, raised, Exec, Action, done, pure, raise, modify, ◌>>=◌, ◌>>◌}
use s3mer.Env.{Env}
use s3mer.Message.{TopicPartition}
use s3mer.Node.{Node, metric, replication_retry, replication_consumer_outcome}
use s3mer.Pool
use s3mer.Pool.{Client, exn}
use s3mer.Worker.DeadLetters.{Origin, record_skip}
use s3mer.Worker.Executor.{RetryConfig, replicate_operation}
use s3mer.Worker.Retry.{
  retry_delay_seconds, inc_background_retries, dec_background_retries, try_advance, rewind_consumer,
}

-- What the loop does next: it breaks off, or goes on with the targets that are still to be served.
pub data Next : Type 0 where
  stop : Next
  again : List String → Next

unfoldable pub keep_failed : String → Bool → List String → List String
keep_failed name true names = name ∷ names
keep_failed name false names = names

module _ {env : Env} (config : RetryConfig) (o : Origin) (op : S3Operation) (source : Client)
    (assigned : List TopicPartition) where
  -- the loop over the targets after the last retry
  unfoldable pub bury_all : List String → Action (Node env)
  unfolding record_skip
  bury_all [] = done
  bury_all (t ∷ ts) = record_skip o t "skipped_max_retries" none >> bury_all ts

  -- `again` with the same targets where the consumer could not be moved
  unfoldable pub stop_if : List String → Bool → Exec (Node env) Next
  stop_if targets moved = pure (if moved then stop else again targets)

  unfoldable pub give_up_all : List String → Exec (Node env) Next
  unfolding bury_all stop_if
  give_up_all targets = bury_all targets >> try_advance o assigned >>= stop_if targets

  -- the copy to one target, with its outcome
  unfoldable pub replicate_to : Client → String → Action (Node env)
  unfolding metric
  replicate_to target name =
      replicate_operation config o.message source target op
      >> metric (replication_consumer_outcome o.message.operation name "success")

  -- the `except` around it: whether the target has failed again
  unfoldable pub after_failure : String → Exn → Exec (Node env) Bool
  after_failure name e = elim (classify e) [
    | fail ↦ record_skip o name "skipped_permanent" (some e.text) >> pure false
    | _ ↦ pure true
  ]

  unfoldable pub after_copy : String → Result (Unit {0}) → Exec (Node env) Bool
  unfolding after_failure
  after_copy name (ok u) = pure false
  after_copy name (raised e) = after_failure name e

  -- an unknown target raises KeyError outside the `try`
  unfoldable pub retry_client : String → Option Client → Exec (Node env) Bool
  unfolding replicate_to after_copy
  retry_client name none s = raise (exn key_error "Unknown backend") s
  retry_client name (some target) s =
      let (r, s') = replicate_to target name s in after_copy name r s'

  unfoldable pub retry_target : String → Exec (Node env) Bool
  unfolding metric retry_client
  retry_target name = metric (replication_retry o.message.operation name) >> λ s.
      retry_client name (Pool.get name s.pool) s

  -- the loop over the targets: those that have failed again
  unfoldable pub retry_all : List String → Exec (Node env) (List String)
  unfolding retry_target keep_failed
  retry_all [] = pure []
  retry_all (t ∷ ts) =
      retry_target t >>= λ failed. (retry_all ts >>= λ rest. pure (keep_failed t failed rest))

  -- the `try` that reads the message again and resumes the partitions
  unfoldable pub try_rewind : Exec (Node env) Bool
  try_rewind s =
      let (r, s') = rewind_consumer o assigned s in
      (elim r [ ok u ↦ ok true | raised e ↦ ok false ], s')

  unfoldable pub after_retries : List String → List String → Exec (Node env) Next
  unfolding try_rewind stop_if
  after_retries targets [] = try_rewind >>= stop_if targets
  after_retries targets (t ∷ ts) = pure (again (t ∷ ts))

  unfoldable pub sleep : ℕ → Action (Node env)
  sleep attempt =
      modify (λ s. record s { world = env.sleep (retry_delay_seconds config attempt) s.world })

  -- One round of the `while True`.
  unfoldable pub round : ℕ → List String → Exec (Node env) Next
  unfolding give_up_all sleep retry_all after_retries
  round attempt targets =
      if ltb config.max_retries attempt
      then give_up_all targets
      else (sleep attempt >> retry_all targets >>= after_retries targets)

  -- The loop, for at most so many rounds; `none` is a loop that goes on.
  unfoldable pub rounds : ℕ → ℕ → List String → Node env → Option (Result (Unit {0})) × Node env
  unfolding round
  rounds zero attempt targets s = (none, s)
  rounds (suc fuel) attempt targets s =
      let (r, s') = round attempt targets s in
      elim r [
        | raised e ↦ (some (raised e), s')
        | ok next ↦ elim next [
          | stop ↦ (some (ok tt), s')
          | again left ↦ rounds fuel (attempt + 1) left s'
        ]
      ]

  -- the `finally`, of a loop that has ended
  finally : Option (Result (Unit {0})) → Node env → Node env
  unfolding dec_background_retries
  finally none s = s
  finally (some r) s = (dec_background_retries "batch" s).1

  -- `schedule_global_retry`
  unfoldable pub schedule_global_retry :
      ℕ → List String → Node env → Option (Result (Unit {0})) × Node env
  unfolding rounds inc_background_retries finally
  schedule_global_retry fuel targets s =
      let (r, s') = rounds fuel 1 targets (inc_background_retries "batch" s).1 in (r, finally r s')
