-- ===== src/Worker/BatchRetry/Rounds.antt =====
-- A retry of a batch that ends normally forgets none of its targets.
use s3mer.Base.{ℕ, ◌+◌, String, ◌≡◌, true, false, ltb, Option, some, List, [], ◌∷◌}
use s3mer.Operations.{S3Operation}
use s3mer.Errors.{Exn}
use s3mer.Exec.{Result, ok, raised}
use s3mer.Env.{Env}
use s3mer.Message.{TopicPartition}
use s3mer.Node.{Node}
use s3mer.Pool.{Client}
use s3mer.Worker.DeadLetters.{Origin}
use s3mer.Worker.Executor.{RetryConfig}
use s3mer.Worker.Retry.{try_advance, rewind_consumer, retry_delay_seconds}
use s3mer.Worker.BatchRetry.Targets.{Tries, Buries}
use s3mer.Worker.BatchRetry.{Next, stop, again, sleep, rounds}

module _ (env : Env) (config : RetryConfig) (o : Origin) (op : S3Operation) (source : Client)
    (assigned : List TopicPartition) where
  -- the state after the pause before this attempt
  abbrev pub slept : ℕ → Node env → Node env
  slept attempt s = record s { world = env.sleep (retry_delay_seconds config attempt) s.world }

  -- The rounds from this attempt on, for these targets, that end the loop: what each did for each of its
  -- targets, and how the last one moved the consumer.
  pub data Ended : ℕ → List String → Node env → Node env → Type 0 where
    moved_past :
        (attempt : ℕ) (ts : List String) (s mid end : Node env)
        → ltb config.max_retries attempt ≡ true
        → Buries env config o op source assigned ts s mid
        → try_advance o assigned mid ≡ (ok true, end)
        → Ended attempt ts s end
    not_moved :
        (attempt : ℕ) (ts : List String) (s mid later end : Node env)
        → ltb config.max_retries attempt ≡ true
        → Buries env config o op source assigned ts s mid
        → try_advance o assigned mid ≡ (ok false, later)
        → Ended (attempt + 1) ts later end
        → Ended attempt ts s end
    all_served :
        (attempt : ℕ) (ts : List String) (s mid end : Node env)
        → ltb config.max_retries attempt ≡ false
        → Tries env config o op source assigned ts [] (slept attempt s) mid
        → rewind_consumer o assigned mid ≡ (ok tt, end)
        → Ended attempt ts s end
    not_resumed :
        (attempt : ℕ) (ts : List String) (s mid later end : Node env) (e : Exn)
        → ltb config.max_retries attempt ≡ false
        → Tries env config o op source assigned ts [] (slept attempt s) mid
        → rewind_consumer o assigned mid ≡ (raised e, later)
        → Ended (attempt + 1) ts later end
        → Ended attempt ts s end
    some_left :
        (attempt : ℕ) (ts : List String) (name : String) (names : List String)
        (s mid end : Node env)
        → ltb config.max_retries attempt ≡ false
        → Tries env config o op source assigned ts (name ∷ names) (slept attempt s) mid
        → Ended (attempt + 1) (name ∷ names) mid end
        → Ended attempt ts s end

  -- what the next step of the loop is to show of this one
  After : Next → ℕ → List String → Node env → Node env → Type 0
  After stop attempt ts s mid = Ended attempt ts s mid
  After (again left) attempt ts s mid =
      (end : Node env) → Ended (attempt + 1) left mid end → Ended attempt ts s end

  -- the rest of the loop, after a round
  go_on : ℕ → ℕ → Result Next × Node env → Option (Result (Unit {0})) × Node env
  unfolding rounds
  go_on fuel attempt r = elim r.0 [
    | raised e ↦ (some (raised e), r.1)
    | ok next ↦ elim next [
      | stop ↦ (some (ok tt), r.1)
      | again left ↦ rounds config o op source assigned fuel (attempt + 1) left r.1
    ]
  ]
