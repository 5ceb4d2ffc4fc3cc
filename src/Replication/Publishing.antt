-- ===== src/Replication/Publishing.antt =====
-- `ReplicationPublisher.publish` and the two managers' `schedule_replication`
-- (src/s3mer/kafka/publisher.py and src/s3mer/kafka/manager.py).
use Prim.Native.String.{◌++◌ as ◌^^◌}
use s3mer.Base.{ℕ, String, Option, none, some, List, [], ◌∷◌, length, if◌then◌else◌}
use s3mer.Base.Texts.{str_eq}
use s3mer.Dict
use s3mer.Value.{Value, null, str, Params}
use s3mer.Operations
use s3mer.Operations.{S3Operation}
use s3mer.Errors.{key_error, value_error}
use s3mer.Exec.{Result, ok, raised, Exec, Action, done, pure, ◌>>=◌, ◌>>◌}
use s3mer.Env.{Env}
use s3mer.Message.{ReplicationMessage, replication}
use s3mer.Node.{Node, metric, of_result, outside, replication_fanout, replication_task}
use s3mer.Pool.{exn}
use s3mer.Replication.Extraction.{map_operation, extract_keys, build_metadata}

-- `"/".join(key_parts)`
unfoldable pub partition_key : String → Option String → String
partition_key bucket none = bucket
partition_key bucket (some key) = if str_eq key "" then bucket else bucket ^^ ("/" ^^ key)

-- the header for the request's id, which is left out when it is empty
request_header : Option String → Option String
request_header none = none
request_header (some id) = if str_eq id "" then none else some id

-- pydantic's check of the fields `bucket` and `key`
unfoldable pub bucket_field : Option Value → Result String
bucket_field none = raised (exn key_error "Bucket")
bucket_field (some (str s)) = ok s
bucket_field (some v) = raised (exn value_error "bucket: Input should be a valid string")

unfoldable pub key_field : Value → Result (Option String)
key_field null = ok none
key_field (str s) = ok (some s)
key_field v = raised (exn value_error "key: Input should be a valid string")

module _ {env : Env} where
  -- `ReplicationPublisher.publish`
  unfoldable pub publish : ReplicationMessage → String → Action (Node env)
  unfolding partition_key request_header outside
  publish message topic s =
      outside
        (env.publish record {
          payload = replication message;
          topic = topic;
          partition_key = partition_key message.bucket message.key;
          request_id = request_header s.request_id;
        })
        s

  unfoldable pub stamp : Exec (Node env) (String × ℕ)
  stamp s = let (id, w) = env.uuid s.world in (ok (id, env.now w), record s { world = w })

  -- `ReplicationMessage(…)`
  unfoldable pub make_message :
      String → Params → Value → String → List String → Params → Exec (Node env) ReplicationMessage
  unfolding of_result stamp bucket_field key_field
  make_message operation params key source targets metadata =
      of_result (bucket_field (Dict.get "Bucket" params)) >>= λ bucket.
      (of_result (key_field key) >>= λ key.
      (stamp >>= λ (id, time). pure record {
        message_id = id;
        timestamp = time;
        operation = operation;
        bucket = bucket;
        key = key;
        source_backend = source;
        target_backends = targets;
        metadata = metadata;
        retry_count = 0;
      }))

  unfoldable pub record_tasks : String → List String → Action (Node env)
  unfolding metric
  record_tasks operation [] = done
  record_tasks operation (t ∷ ts) =
      metric (replication_task operation t) >> record_tasks operation ts

  -- the loops of `schedule_replication` over the keys, and in the second manager over the targets
  unfoldable pub batch_key :
      String → String → Params → String → List String → Params → Value → Action (Node env)
  unfolding make_message record_tasks publish
  batch_key topic operation params source targets metadata key =
      make_message operation params key source targets metadata >>= λ message.
      (record_tasks operation targets >> publish message topic)

  unfoldable pub each : {A : Type 0} → (A → Action (Node env)) → List A → Action (Node env)
  each f [] = done
  each f (x ∷ xs) = f x >> each f xs

  unfoldable pub per_backend_target :
      String → String → Params → String → Params → Value → String → Action (Node env)
  unfolding make_message metric publish
  per_backend_target topic operation params source metadata key target =
      make_message operation params key source (target ∷ []) metadata >>= λ message.
      (metric (replication_task operation target) >> publish message (topic ^^ ("." ^^ target)))

  -- the part that the two managers share
  unfoldable pub schedule :
      (String → Params → Value → Action (Node env))
      → S3Operation
      → Params
      → Params
      → Action (Node env)
  unfolding each metric of_result
  schedule send op params response = of_result (extract_keys op params response) >>= λ keys.
      (metric (replication_fanout (Operations.value op) (length keys))
        >> each (send (map_operation op) (build_metadata params response)) keys)

  -- `BatchReplicationManager.schedule_replication`
  unfoldable pub batch_schedule_replication :
      String → S3Operation → Params → Params → String → List String → Action (Node env)
  unfolding schedule batch_key
  batch_schedule_replication topic op params response source [] = done
  batch_schedule_replication topic op params response source (t ∷ ts) =
      schedule (λ operation metadata. batch_key topic operation params source (t ∷ ts) metadata) op
        params response

  -- `PerBackendReplicationManager.schedule_replication`
  unfoldable pub per_backend_schedule_replication :
      String → S3Operation → Params → Params → String → List String → Action (Node env)
  unfolding schedule per_backend_target each
  per_backend_schedule_replication topic op params response source [] = done
  per_backend_schedule_replication topic op params response source (t ∷ ts) =
      schedule
        (λ operation metadata key.
          each (per_backend_target topic operation params source metadata key) (t ∷ ts))
        op params response
