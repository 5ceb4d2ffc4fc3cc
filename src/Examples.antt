-- ===== src/Examples.antt =====
-- Concrete states and an environment, on which the theorems are applied.
pub mod Requests
pub mod Workers
pub mod Streams
pub mod Breakers
pub mod Routes
pub mod Uploads
pub mod Configs
pub mod Contents
pub mod Fanouts
pub mod Multipart
use s3mer.Base.Int.{pos}
use s3mer.Base.{
  ℕ, String, Bool, true, false, Option, none, some, List, [], ◌∷◌, ◌++◌, if◌then◌else◌,
}
use s3mer.Base.Texts.{str_eq}
use s3mer.Value.{str, Params}
use s3mer.Errors.{os_error}
use s3mer.Exec.{ok, raised}
use s3mer.Env.{Env}
use s3mer.Message.{ReplicationMessage, Publication, TopicPartition}
use s3mer.Node.{Node}
use s3mer.Pool.{Pool, Client, finite, exn}
use s3mer.Streaming.Bytes.{everything, at_most}
use s3mer.Worker.DeadLetters.{Origin, DlqPublisher}
use s3mer.Worker.Executor.{RetryConfig}

-- Backend "a" is down, the others accept everything; the world is the log of the broker.
abbrev pub env : Env
env = record {
  World = List Publication;
  monotonic = λ w. 0;
  uuid = λ w. ("id", w);
  now = λ w. 0;
  body_reads = λ name op params b w. at_most 2 ∷ [];
  reader_reads = λ name op params r w. at_most 2 ∷ everything ∷ [];
  interleaving = λ names w. 1 ∷ 0 ∷ 1 ∷ [];
  call = λ name op params parts w.
      if str_eq name "a" then (raised (exn os_error "down"), w) else (ok [], w);
  render = λ v. "value";
  publish = λ p w. (ok tt, w ++ (p ∷ []));
  sleep = λ n w. w;
  has_consumer = λ w. true;
  assignment = λ w. [];
  seek = λ tp n w. (ok tt, w);
  resume = λ tps w. (ok tt, w);
  pause = λ tp w. (ok tt, w);
}

abbrev pub client : String → Bool → Client
client name is_primary = record {
  name = name;
  is_primary = is_primary;
  priority = pos 1;
  last_latency = finite 0;
  started = true;
}

abbrev pub a : Client
a = client "a" true

abbrev pub b : Client
b = client "b" false

abbrev pub pool : Pool
pool = record { clients = ("a", a) ∷ ("b", b) ∷ []; primary_name = some "a"; breakers = [] }

abbrev pub node : Node env
node = record {
  world = [];
  pool = pool;
  body = none;
  request_id = none;
  metrics = [];
  background_retries = [];
}

abbrev pub params : Params
params = ("Bucket", str "photos") ∷ ("Key", str "cat") ∷ []

abbrev pub message : String → ReplicationMessage
message operation = record {
  message_id = "id";
  timestamp = 0;
  operation = operation;
  bucket = "photos";
  key = some "cat";
  source_backend = "b";
  target_backends = "a" ∷ [];
  metadata = [];
  retry_count = 0;
}

abbrev pub config : RetryConfig
config = record {
  retry_delay = 1;
  max_retry_delay = 60;
  max_retries = 2;
  skip_if_etag_matches = false;
}

abbrev pub dlq : DlqPublisher
dlq = record { base_topic = "replication"; enabled = true; topic_suffix = ".dlq" }

abbrev pub place_tp : TopicPartition
place_tp = record { topic = "replication.a"; partition = 0 }

abbrev pub origin : Origin
origin = record {
  topic_partition = place_tp;
  offset = 7;
  message = message "delete_object";
  dlq = some dlq;
  per_backend = true;
}
