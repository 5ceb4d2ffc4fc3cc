-- ===== src/Env.antt =====
-- What the program uses and does not implement: the clock, the S3 client library and the broker.
use s3mer.Base.{ℕ, String, Bool, List}
use s3mer.Value.{Value, Params}
use s3mer.Operations.{S3Operation}
use s3mer.Exec.{Result}
use s3mer.Message.{Publication, TopicPartition}
use s3mer.Streaming.Bytes.{Bytes, Amount}
use s3mer.Streaming.Buffered.{Buffered}
use s3mer.Streaming.Shared.{BodyReader}

pub record Env : Type 1 where
  -- all that the program cannot see: the stores of the backends, the broker, the time
  pub World : Type 0
  -- `time.monotonic()`, in ticks
  pub monotonic : World → ℕ
  -- `str(uuid4())` and `datetime.now(tz=UTC)`, the defaults of the fields of a message
  pub uuid : World → String × World
  pub now : World → ℕ
  -- the sizes of the reads that the client library of a backend makes on a streamed body
  pub body_reads : String → S3Operation → Params → Buffered → World → List Amount
  -- the same on a reader of a body that several backends share
  pub reader_reads : String → S3Operation → Params → BodyReader → World → List Amount
  -- the order in which the event loop takes up the calls that `asyncio.gather` runs on these
  -- backends, by their positions
  pub interleaving : List String → World → List ℕ
  -- `await getattr(client, operation.value)(**params)` on a backend, with the parts of a streamed
  -- body that it read
  pub call : String → S3Operation → Params → List Bytes → World → Result Params × World
  -- `str(v)` of a value that is no text
  pub render : Value → String
  -- `await broker.publish(…)`
  pub publish : Publication → World → Result (Unit {0}) × World
  -- `await asyncio.sleep(…)`, in ticks
  pub sleep : ℕ → World → World
  -- whether `subscriber.consumer` is not None, and the calls on the consumer
  pub has_consumer : World → Bool
  -- `consumer.assignment()`
  pub assignment : World → List TopicPartition
  pub seek : TopicPartition → ℕ → World → Result (Unit {0}) × World
  pub resume : List TopicPartition → World → Result (Unit {0}) × World
  pub pause : TopicPartition → World → Result (Unit {0}) × World
