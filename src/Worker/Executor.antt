-- ===== src/Worker/Executor.antt =====
-- One replication of an operation, from the source to a target (src/s3mer/kafka/replication_executor.py).
-- The calls `async with body` of the client library's streams are left out.
use s3mer.Base.{
  ℕ, String, Bool, true, false, ◌&&◌, Option, none, some, List, [], ◌∷◌, if◌then◌else◌,
}
use s3mer.Base.Texts.{str_eq, str_mem}
use s3mer.Dict
use s3mer.Value.{Value, null, str, int, dict, list, nil, field, end, Params}
use s3mer.Operations
use s3mer.Operations.{
  S3Operation, create_bucket, delete_bucket, put_object, get_object, delete_object, head_object,
  put_object_tagging, get_object_tagging, delete_object_tagging, get_bucket_lifecycle,
  put_bucket_lifecycle, delete_bucket_lifecycle, get_bucket_policy, put_bucket_policy,
  delete_bucket_policy,
}
use s3mer.Errors.{Exn, is_client_error, key_error, other, error_code}
use s3mer.Exec.{Result, ok, raised, Exec, Action, done, pure, raise, or_raise, ◌>>=◌, ◌>>◌}
use s3mer.Env.{Env}
use s3mer.Message.{ReplicationMessage}
use s3mer.Node.{Node, execute, metric, replication_consumer_outcome}
use s3mer.Pool.{Client, exn}
use s3mer.Replication.Extraction.{is_truthy, get_default}

-- `e.response.get("Error", {}).get("Code")` is one of the codes
abbrev pub has_code : List String → Exn → Bool
has_code codes e =
    is_client_error e.class
    && elim e.response [ none ↦ false | some r ↦ str_mem (error_code r) codes ]

abbrev pub key_param : Option String → Value
key_param none = null
key_param (some k) = str k

abbrev pub bucket_params : ReplicationMessage → Params
bucket_params m = ("Bucket", str m.bucket) ∷ []

abbrev pub object_params : ReplicationMessage → Params
object_params m = ("Bucket", str m.bucket) ∷ ("Key", key_param m.key) ∷ []

-- `REPLICATED_OBJECT_METADATA`
abbrev pub replicated_metadata : List String
replicated_metadata =
    "ContentType" ∷ "ContentEncoding" ∷ "CacheControl" ∷ "ContentDisposition" ∷ "ContentLanguage"
    ∷ "Expires" ∷ "Metadata" ∷ []

put_some : String → Option Value → Params → Params
put_some k none d = d
put_some k (some v) d = Dict.put k v d

-- `apply_object_metadata`; the three branches of its loop store the value alike
unfoldable pub apply_object_metadata : List String → Params → Params → Params
unfolding put_some
apply_object_metadata [] metadata params = params
apply_object_metadata (k ∷ ks) metadata params =
    apply_object_metadata ks metadata (put_some k (Dict.get k metadata) params)

-- ETags are texts
abbrev same_etag : Value → Value → Bool
same_etag (str a) (str b) = str_eq a b
same_etag a b = false

-- `int(content_length)`, of a number
abbrev int_of : Value → Result Value
int_of (int n) = ok (int n)
int_of v = raised (exn other "int() argument must be a number")

-- the options of `ReplicationRetryConfig`
pub record RetryConfig : Type 0 where
  pub retry_delay : ℕ
  pub max_retry_delay : ℕ
  pub max_retries : ℕ
  pub skip_if_etag_matches : Bool

abbrev has_key : Option String → Bool
has_key none = false
has_key (some k) = is_truthy (str k)

module _ {env : Env} (config : RetryConfig) (m : ReplicationMessage) (source target : Client) where
  -- `tracker.record_replication_consumer_outcome(message.operation, target_name, …)`
  pub outcome : String → Action (Node env)
  unfolding metric
  outcome text = metric (replication_consumer_outcome m.operation target.name text)

  -- The response of a call; `none` where the exception has one of the codes, which is counted.
  pub tolerate : List String → String → Exec (Node env) Params → Exec (Node env) (Option Params)
  unfolding outcome
  tolerate codes text call s =
      let (r, s') = call s in
      elim r [
        | ok response ↦ (ok (some response), s')
        | raised e ↦ elim (has_code codes e) [
          | true ↦ (outcome text >> pure none) s'
          | false ↦ (raised e, s')
        ]
      ]

  -- a call of the target whose response is not used
  pub on_target : List String → String → S3Operation → Params → Action (Node env)
  unfolding tolerate
  on_target codes text op params = tolerate codes text (execute target op params) >> done

  if_present : (Params → Action (Node env)) → Option Params → Action (Node env)
  if_present f none = done
  if_present f (some response) = f response

  -- a call of the source, and what to do with its response
  pub from_source :
      List String → S3Operation → Params → (Params → Action (Node env)) → Action (Node env)
  unfolding tolerate if_present
  from_source codes op params f =
      tolerate codes "skipped_source_gone" (execute source op params) >>= if_present f

  on_target_only : S3Operation → Params → Action (Node env)
  on_target_only op params = execute target op params >> done

  -- `_head_etag`, where the message has a key
  head_etag : Client → Exec (Node env) Value
  head_etag client s =
      let (r, s') = execute client head_object (object_params m) s in
      elim r [
        | ok head ↦ (ok (get_default "ETag" null head), s')
        | raised e ↦ if is_client_error e.class then (ok null, s') else (raised e, s')
      ]

  -- whether the target has the object already
  in_sync : Exec (Node env) Bool
  unfolding head_etag
  in_sync =
      if config.skip_if_etag_matches && has_key m.key
      then (head_etag source >>= λ a.
          (head_etag target >>= λ b. pure (is_truthy a && (is_truthy b && same_etag a b))))
      else pure false

  -- `params["…"] = …; await target.execute(PUT_OBJECT, put_params)`
  put_with_length : Params → Value → Action (Node env)
  unfolding on_target_only
  put_with_length params length = elim (int_of length) [
    | raised e ↦ raise e
    | ok n ↦ on_target_only put_object (Dict.put "ContentLength" n params)
  ]

  -- the part of `_replicate_put_object` from the response of the GET on
  copy_body : Params → Action (Node env)
  unfolding from_source put_with_length apply_object_metadata
  copy_body response = elim (Dict.get "Body" response) [
    | none ↦ raise (exn key_error "Body")
    | some body ↦
        let params : Params =
          apply_object_metadata replicated_metadata m.metadata
            (("Bucket", str m.bucket) ∷ ("Key", key_param m.key) ∷ ("Body", body) ∷ []) in
        elim (get_default "ContentLength" null m.metadata) [
          | null ↦
              from_source ("NoSuchKey" ∷ "NoSuchBucket" ∷ []) head_object (object_params m) (λ head.
                or_raise (Dict.get "ContentLength" head) (exn key_error "ContentLength")
                >>= put_with_length params)
          | n ↦ put_with_length params n
        ]
  ]

  -- `_replicate_put_object`
  unfoldable pub replicate_put_object : Action (Node env)
  unfolding in_sync from_source copy_body outcome
  replicate_put_object = in_sync >>= λ same.
      (if same
        then outcome "skipped_already_synced"
        else from_source ("NoSuchKey" ∷ "NoSuchBucket" ∷ []) get_object (object_params m) copy_body)

  put_policy : Params → Action (Node env)
  unfolding on_target_only
  put_policy response =
      let policy = get_default "Policy" null response in
      if is_truthy policy
      then on_target_only put_bucket_policy (("Bucket", str m.bucket) ∷ ("Policy", policy) ∷ [])
      else done

  -- `replicate_operation`
  unfoldable pub replicate_operation : S3Operation → Action (Node env)
  unfolding replicate_put_object on_target from_source on_target_only put_policy metric
  replicate_operation put_object = replicate_put_object
  replicate_operation create_bucket =
      on_target ("BucketAlreadyOwnedByYou" ∷ "BucketAlreadyExists" ∷ []) "skipped_already_present"
        create_bucket (bucket_params m)
  replicate_operation delete_bucket =
      on_target ("NoSuchBucket" ∷ []) "skipped_already_absent" delete_bucket (bucket_params m)
  replicate_operation delete_object =
      on_target ("NoSuchKey" ∷ []) "skipped_already_absent" delete_object (object_params m)
  replicate_operation put_object_tagging =
      from_source ("NoSuchKey" ∷ "NoSuchBucket" ∷ []) get_object_tagging (object_params m) (λ tags.
        on_target_only put_object_tagging (
          ("Bucket", str m.bucket)
          ∷ ("Key", key_param m.key)
          ∷ ("Tagging", dict (field "TagSet" (get_default "TagSet" (list nil) tags) end))
          ∷ []))
  replicate_operation delete_object_tagging =
      on_target ("NoSuchKey" ∷ []) "skipped_already_absent" delete_object_tagging (object_params m)
  replicate_operation put_bucket_lifecycle =
      from_source ("NoSuchBucket" ∷ "NoSuchLifecycleConfiguration" ∷ []) get_bucket_lifecycle
        (bucket_params m)
        (λ found. on_target_only put_bucket_lifecycle (
          ("Bucket", str m.bucket)
          ∷ (
            "LifecycleConfiguration",
            dict (field "Rules" (get_default "Rules" (list nil) found) end),
          )
          ∷ []))
  replicate_operation delete_bucket_lifecycle =
      on_target ("NoSuchBucket" ∷ "NoSuchLifecycleConfiguration" ∷ []) "skipped_already_absent"
        delete_bucket_lifecycle (bucket_params m)
  replicate_operation put_bucket_policy =
      from_source ("NoSuchBucket" ∷ "NoSuchBucketPolicy" ∷ []) get_bucket_policy (bucket_params m)
        put_policy
  replicate_operation delete_bucket_policy =
      on_target ("NoSuchBucket" ∷ "NoSuchBucketPolicy" ∷ []) "skipped_already_absent"
        delete_bucket_policy (bucket_params m)
  replicate_operation op =
      metric (replication_consumer_outcome (Operations.value op) target.name "skipped_unsupported")
