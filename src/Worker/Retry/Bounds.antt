-- ===== src/Worker/Retry/Bounds.antt =====
-- A retry ends, and gives a message up only with a record of it.
use s3mer.Base.{
  ℕ, zero, suc, ◌+◌, ◌<◌, String, ◌≡◌, ◌≢◌, refl, ap, Bool, true, false, ltb, ltb→le, Bool-cases,
  inl, inr, Option, none, some, List, [], ◌∷◌, arith,
}
use s3mer.Operations.{S3Operation}
use s3mer.Exec.{Result, ok, raised, continue}
use s3mer.Env.{Env}
use s3mer.Message.{TopicPartition}
use s3mer.Node.{Node, metric, outside}
use s3mer.Pool.{Client}
use s3mer.Worker.DeadLetters.{Origin, record_skip, resume_partitions, count_resumed}
use s3mer.Worker.Executor.{RetryConfig}
use s3mer.Worker.Retry.{
  resumed, advance_consumer_offset, rounds, round, give_up, try_advance, schedule_per_backend_retry,
  inc_background_retries,
}

-- A consumer that is there and whose calls succeed.
pub record IsSteady (env : Env) : Type 0 where
  pub present : (w : env.World) → env.has_consumer w ≡ true
  pub seeks : (tp : TopicPartition) (n : ℕ) (w : env.World) → (env.seek tp n w).0 ≡ ok tt
  pub resumes : (tps : List TopicPartition) (w : env.World) → (env.resume tps w).0 ≡ ok tt

count_resumed_lem :
    {env : Env} (tps : List TopicPartition) (s : Node env) → (count_resumed tps s).0 ≡ ok tt
unfolding count_resumed metric
count_resumed_lem [] s = refl
count_resumed_lem (tp ∷ tps) s = count_resumed_lem tps _

-- such a consumer can be moved past a message
pub advance_lem :
    {env : Env} (o : Origin) (tps : List TopicPartition) (s : Node env)
    → IsSteady env
    → (advance_consumer_offset o tps s).0 ≡ ok tt
unfolding advance_consumer_offset outside resume_partitions
advance_lem {env = env} o tps s steady =
    rw
      (
        steady.present s.world,
        steady.seeks o.topic_partition (o.offset + 1) s.world,
        steady.resumes (resumed o tps) (env.seek o.topic_partition (o.offset + 1) s.world).1,
      )
      (count_resumed_lem (resumed o tps) _)

module _ {env : Env} (config : RetryConfig) (o : Origin) (op : S3Operation)
    (source target : Client) where
  then_advance :
      (r : Result (Unit {0})) (s : Node env)
      → IsSteady env
      → (continue r (λ u. try_advance o []) s).0 ≢ ok false
  unfolding try_advance
  then_advance (ok u) s steady = rw (try_advance, advance_lem o [] s steady) (λ h. cc)
  then_advance (raised e) s steady = λ h. cc

  give_up_lem :
      (outcome : String) (error : Option String) (s : Node env)
      → IsSteady env
      → (give_up config o op source target outcome error s).0 ≢ ok false
  unfolding give_up
  give_up_lem outcome error s steady =
      then_advance (record_skip o target.name outcome error s).0
        (record_skip o target.name outcome error s).1 steady

  last_round :
      (attempt : ℕ) (s : Node env)
      → IsSteady env
      → ltb config.max_retries attempt ≡ true
      → (round config o op source target attempt s).0 ≢ ok false
  unfolding round
  last_round attempt s steady h = rw h (give_up_lem "skipped_max_retries" none s steady)

  -- what the loop does after a round
  unfoldable pub go_on : ℕ → ℕ → Result Bool × Node env → Option (Result (Unit {0})) × Node env
  go_on fuel attempt (raised e, s) = (some (raised e), s)
  go_on fuel attempt (ok true, s) = (some (ok tt), s)
  go_on fuel attempt (ok false, s) = rounds config o op source target fuel (attempt + 1) s

  pub rounds_step :
      (fuel attempt : ℕ) (s : Node env)
      → rounds config o op source target (suc fuel) attempt s
        ≡ go_on fuel attempt (round config o op source target attempt s)
  unfolding rounds go_on
  rounds_step fuel attempt s = by_round (round config o op source target attempt s) refl
    where
      by_round :
          (r : Result Bool × Node env)
          → round config o op source target attempt s ≡ r
          → rounds config o op source target (suc fuel) attempt s ≡ go_on fuel attempt r
      by_round (raised e, s') h = rw (rounds, h) (ap (λ r. (some (raised e), r.1)) h)
      by_round (ok true, s') h = rw (rounds, h) (ap (λ r. (some (ok tt), r.1)) h)
      by_round (ok false, s') h =
          rw (rounds, h) (ap (λ r. rounds config o op source target fuel (attempt + 1) r.1) h)

  go_on_ends :
      (fuel attempt : ℕ) (r : Result Bool × Node env)
      → (r.0 ≡ ok false → (rounds config o op source target fuel (attempt + 1) r.1).0 ≢ none)
      → (go_on fuel attempt r).0 ≢ none
  unfolding go_on
  go_on_ends fuel attempt (raised e, s) h = λ e. cc
  go_on_ends fuel attempt (ok true, s) h = λ e. cc
  go_on_ends fuel attempt (ok false, s) h = h refl

  rounds_end :
      (fuel attempt : ℕ) (s : Node env)
      → IsSteady env
      → 0 < fuel
      → fuel + attempt ≡ config.max_retries + 2
      → (rounds config o op source target fuel attempt s).0 ≢ none
  rounds_end zero attempt s steady pos e = absurd (omega arith)
  rounds_end (suc fuel) attempt s steady pos e = rw (rounds_step fuel attempt s) (
      go_on_ends fuel attempt (round config o op source target attempt s) (λ h.
        elim (Bool-cases (ltb config.max_retries attempt)) [
          | inl over ↦ absurd (last_round attempt s steady over h)
          | inr under ↦
              let le = ltb→le config.max_retries attempt under in
              rounds_end fuel (attempt + 1) _ steady (omega arith) (omega arith)
        ]))

  -- With a consumer that is there and whose calls succeed, the background task ends: the loop is
  -- broken off, or an exception leaves it, within one round more than the configured retries,
  -- whatever the backends answer.
  pub schedule_per_backend_retry-ends :
      (s : Node env)
      → IsSteady env
      → (schedule_per_backend_retry config o op source target (config.max_retries + 1) s).0 ≢ none
  unfolding schedule_per_backend_retry
  schedule_per_backend_retry-ends s steady =
      rounds_end (config.max_retries + 1) 1 (inc_background_retries "per_backend" s).1 steady
        (omega arith) (omega arith)
