-- ===== src/Worker/Retry.antt =====
-- The background task that retries a failed replication to one backend
-- (`schedule_per_backend_retry` of src/s3mer/kafka/retry_scheduler.py).
pub mod Bounds
pub mod Handled
use s3mer.Base.{
  ℕ, zero, suc, ◌+◌, ◌-◌, ◌*◌, ◌^◌, min, String, Bool, true, false, ltb, Option, none, some, List,
  [], ◌∷◌, if◌then◌else◌,
}
use s3mer.Dict
use s3mer.Operations.{S3Operation}
use s3mer.Errors.{Exn, ErrorAction, fail, runtime_error, attribute_error, classify}
use s3mer.Exec.{Result, ok, raised, Exec, Action, done, pure, raise, modify, ◌>>=◌, ◌>>◌}
use s3mer.Env.{Env}
use s3mer.Message.{TopicPartition}
use s3mer.Node.{
  Node, metric, outside, replication_retry, replication_consumer_outcome,
  replication_background_retries_in_flight,
}
use s3mer.Pool.{Client, exn}
use s3mer.Worker.DeadLetters.{Origin, record_skip, resume_partitions}
use s3mer.Worker.Executor.{RetryConfig, replicate_operation}

-- `retry_delay_seconds`; the first attempt is 1
unfoldable pub retry_delay_seconds : RetryConfig → ℕ → ℕ
retry_delay_seconds config attempt =
    min (config.retry_delay * (2 ^ (attempt - 1))) config.max_retry_delay

abbrev pub resumed : Origin → List TopicPartition → List TopicPartition
resumed o [] = o.topic_partition ∷ []
resumed o (tp ∷ tps) = tp ∷ tps

module _ {env : Env} where
  set_retries : (ℕ → ℕ) → String → Action (Node env)
  unfolding metric
  set_retries f mode s =
      let n = f (Dict.or_else (Dict.get mode s.background_retries) 0) in
      metric (replication_background_retries_in_flight mode n)
        (record s { background_retries = Dict.put mode n s.background_retries })

  -- `_inc_background_retries` and `_dec_background_retries`
  unfoldable pub inc_background_retries : String → Action (Node env)
  unfolding set_retries
  inc_background_retries = set_retries (λ n. n + 1)

  unfoldable pub dec_background_retries : String → Action (Node env)
  unfolding set_retries
  dec_background_retries = set_retries (λ n. n - 1)

  -- `advance_consumer_offset`; it resumes the partitions that it is given, or the message's
  unfoldable pub advance_consumer_offset : Origin → List TopicPartition → Action (Node env)
  unfolding outside resume_partitions
  advance_consumer_offset o tps s =
      if env.has_consumer s.world
      then (outside (env.seek o.topic_partition (o.offset + 1))
            >> resume_partitions (resumed o tps))
          s
      else raise (exn runtime_error "Cannot advance consumer offset: consumer is not available") s

  -- `subscriber.consumer.seek(failed_tp, failed_offset)`, which reads the message again, and the
  -- partitions resumed; without a consumer the call raises
  unfoldable pub rewind_consumer : Origin → List TopicPartition → Action (Node env)
  unfolding outside resume_partitions
  rewind_consumer o tps s =
      if env.has_consumer s.world
      then (outside (env.seek o.topic_partition o.offset) >> resume_partitions tps) s
      else raise (exn attribute_error "'NoneType' object has no attribute 'seek'") s

  -- the `try` around `advance_consumer_offset`: whether it succeeded
  unfoldable pub try_advance : Origin → List TopicPartition → Exec (Node env) Bool
  unfolding advance_consumer_offset
  try_advance o tps s =
      let (r, s') = advance_consumer_offset o tps s in
      (elim r [ ok u ↦ ok true | raised e ↦ ok false ], s')

module _ {env : Env} (config : RetryConfig) (o : Origin) (op : S3Operation)
    (source target : Client) where
  -- skip the message: a dead letter, then the next offset
  pub give_up : String → Option String → Exec (Node env) Bool
  unfolding try_advance record_skip
  give_up outcome error = record_skip o target.name outcome error >> try_advance o []

  -- the body of the `try`
  pub replicate_once : Action (Node env)
  unfolding replicate_operation rewind_consumer metric
  replicate_once =
      replicate_operation config o.message source target op
      >> metric (replication_consumer_outcome o.message.operation target.name "success")
      >> rewind_consumer o (o.topic_partition ∷ [])

  -- the `except`
  pub after_failure : Exn → Exec (Node env) Bool
  unfolding give_up
  after_failure e = elim (classify e) [
    | fail ↦ give_up "skipped_permanent" (some e.text)
    | _ ↦ pure false
  ]

  pub after_attempt : Result (Unit {0}) → Exec (Node env) Bool
  unfolding after_failure
  after_attempt (ok u) = pure true
  after_attempt (raised e) = after_failure e

  pub wait : ℕ → Action (Node env)
  unfolding metric
  wait attempt =
      modify (λ s. record s { world = env.sleep (retry_delay_seconds config attempt) s.world })
      >> metric (replication_retry o.message.operation target.name)

  -- One round of the `while True`: whether the task breaks off the loop.
  unfoldable pub round : ℕ → Exec (Node env) Bool
  unfolding give_up wait replicate_once after_attempt
  round attempt =
      if ltb config.max_retries attempt
      then give_up "skipped_max_retries" none
      else (wait attempt >> λ s. let (r, s') = replicate_once s in after_attempt r s')

  -- The loop, for at most so many rounds; `none` is a loop that goes on.
  unfoldable pub rounds : ℕ → ℕ → Node env → Option (Result (Unit {0})) × Node env
  unfolding round
  rounds zero attempt s = (none, s)
  rounds (suc fuel) attempt s =
      let (r, s') = round attempt s in
      elim r [
        | raised e ↦ (some (raised e), s')
        | ok finished ↦ elim finished [
          | true ↦ (some (ok tt), s')
          | false ↦ rounds fuel (attempt + 1) s'
        ]
      ]

  -- the `finally`, of a loop that has ended
  finally : Option (Result (Unit {0})) → Node env → Node env
  unfolding dec_background_retries
  finally none s = s
  finally (some r) s = (dec_background_retries "per_backend" s).1

  -- `schedule_per_backend_retry`
  unfoldable pub schedule_per_backend_retry : ℕ → Node env → Option (Result (Unit {0})) × Node env
  unfolding rounds inc_background_retries finally
  schedule_per_backend_retry fuel s =
      let (r, s') = rounds fuel 1 (inc_background_retries "per_backend" s).1 in (r, finally r s')
