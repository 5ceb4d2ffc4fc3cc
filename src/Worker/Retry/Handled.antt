-- ===== src/Worker/Retry/Handled.antt =====
-- A retry that ends normally leaves no message behind without a copy or a record of it.
use s3mer.Base.{[], String, ◌≡◌, true, Option}
use s3mer.Operations.{S3Operation}
use s3mer.Exec.{ok}
use s3mer.Env.{Env}
use s3mer.Node.{Node}
use s3mer.Pool.{Client}
use s3mer.Worker.DeadLetters.{Origin}
use s3mer.Worker.Skips.{Skips}
use s3mer.Worker.Executor.{RetryConfig}
use s3mer.Worker.Retry.{try_advance, replicate_once}

module _ {env : Env} (config : RetryConfig) (o : Origin) (op : S3Operation)
    (source target : Client) where
  -- How the loop came to this state: the last round copied the object and resumed the partition
  -- at the message, or it recorded the skip of the message and then moved the consumer past it.
  pub data Settled : Node env → Type 0 where
    delivered :
        (s end : Node env) → replicate_once config o op source target s ≡ (ok tt, end) → Settled end
    buried :
        (outcome : String) (error : Option String) (s between end : Node env)
        → Skips o target.name outcome error s between
        → try_advance o [] between ≡ (ok true, end)
        → Settled end
