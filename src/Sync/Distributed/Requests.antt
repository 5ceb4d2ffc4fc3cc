-- ===== src/Sync/Distributed/Requests.antt =====
-- The requests of `DistributedMultiSyncWriteStrategy` (src/s3mer/backends/multisync_strategies.py).
mod Creation
unfoldable pub use Creation.*
use Prim.Native.String.{◌++◌ as ◌^^◌}
use s3mer.Base.{
  ℕ, String, Bool, true, false, ◌==◌, ◌&&◌, Option, none, some, List, [], ◌∷◌, length,
  if◌then◌else◌,
}
use s3mer.Base.Texts.{str_eq}
use s3mer.Dict
use s3mer.Dict.{Dict}
use s3mer.Value.{
  Value, null, str, int, bool, bytes, object, list, dict, Values, nil, cons, Fields, end, field,
  Params, entries,
}
use s3mer.Operations
use s3mer.Operations.{
  S3Operation, create_multipart_upload, upload_part, complete_multipart_upload,
  abort_multipart_upload,
}
use s3mer.Errors.{Exn, key_error, attribute_error, value_error, other}
use s3mer.Errors.Codes.{no_such_upload}
use s3mer.Exec.{
  or_raise, Result, ok, raised, Exec, Action, done, pure, raise, attempt, modify, and_then, ◌>>=◌,
  ◌>>◌,
}
use s3mer.Env.{Env}
use s3mer.Pool.{Client, exn}
use s3mer.Node.{Node, of_result}
use s3mer.Sessions
use s3mer.Sessions.{MultipartSession, Store}
use s3mer.Strategies.{Scheduler}
use s3mer.Replication.Extraction.{get_default}
use s3mer.Streaming.Bytes.{Bytes}
use s3mer.Sync.{SyncExecutionResult, SyncConfig, select_client_response, quorum_met, best_failure}
use s3mer.Sync.Writes.{Prepare, not_supported, run_concurrent, answer, schedule_async_fill}
use s3mer.Sync.Distributed.{prepare_backend_params, text_param, int_param}

-- the canonical id of a session that was loaded is a text
abbrev pub id_of : Value → String
id_of (str id) = id
id_of v = ""

-- the message of `_load_session`
abbrev pub no_upload : String
no_upload =
    "The specified upload does not exist. "
    ^^ "The upload ID may be invalid, or the upload may have been aborted."

abbrev pub canonical_id : Params → Value
canonical_id params = get_default "UploadId" (str "") params

module _ {env : Env} where
  -- `_load_session`
  unfoldable pub load_session : Value → Exec (Proxy env) MultipartSession
  load_session (str id) p =
      or_raise (Sessions.get_session id p.sessions) (not_supported no_such_upload no_upload) p
  load_session v p = raise (not_supported no_such_upload no_upload) p

  unfoldable pub record_upload :
      SyncConfig → Value → SyncExecutionResult → ℕ → Exec (Proxy env) Params
  unfolding on_store backend_etags select
  record_upload config canonical all number =
      on_store (
        Sessions.record_part_etags (id_of canonical) number
          (backend_etags env.render all.successes []))
      >> select config all

  unfoldable pub number_and_record :
      SyncConfig → Params → Value → SyncExecutionResult → Exec (Proxy env) Params
  unfolding on_node int_param of_result record_upload
  number_and_record config params canonical all =
      on_node (of_result (int_param (get_default "PartNumber" (int 0) params)))
      >>= record_upload config canonical all

  unfoldable pub upload_to :
      SyncConfig → Params → Option (List Bytes) → Value → MultipartSession → Exec (Proxy env) Params
  unfolding on_node fan_out number_and_record
  upload_to config params source canonical session =
      on_node (fan_out config upload_part params source (some session))
      >>= number_and_record config params canonical

  -- `_handle_upload_part`
  unfoldable pub handle_upload_part :
      SyncConfig → Params → Option (List Bytes) → Exec (Proxy env) Params
  unfolding load_session upload_to
  handle_upload_part config params source =
      load_session (canonical_id params) >>= upload_to config params source (canonical_id params)

  unfoldable pub drop_and_finish :
      Scheduler env
      → SyncConfig
      → Bool
      → S3Operation
      → Params
      → SyncExecutionResult
      → Params
      → Exec (Proxy env) Params
  unfolding drop_session finish
  drop_and_finish schedule config replicate op params all response =
      drop_session (id_of (canonical_id params))
      >> finish schedule config replicate op params all response

  unfoldable pub reply_ended :
      Scheduler env
      → SyncConfig
      → Bool
      → S3Operation
      → Params
      → SyncExecutionResult
      → Exec (Proxy env) Params
  unfolding drop_and_finish select
  reply_ended schedule config replicate op params all =
      select config all >>= drop_and_finish schedule config replicate op params all

  unfoldable pub end_upload :
      Scheduler env
      → SyncConfig
      → S3Operation
      → Params
      → Option (List Bytes)
      → Bool
      → MultipartSession
      → Exec (Proxy env) Params
  unfolding fan_out on_node reply_ended
  end_upload schedule config op params source replicate session =
      on_node (fan_out config op params source (some session))
      >>= reply_ended schedule config replicate op params

  -- `_handle_complete_or_abort`
  unfoldable pub complete_or_abort :
      Scheduler env
      → SyncConfig
      → S3Operation
      → Params
      → Option (List Bytes)
      → Bool
      → Exec (Proxy env) Params
  unfolding load_session end_upload
  complete_or_abort schedule config op params source replicate =
      load_session (canonical_id params) >>= end_upload schedule config op params source replicate

  -- `execute` for an operation that is not of a multipart upload
  unfoldable pub plain_write :
      Scheduler env
      → SyncConfig
      → S3Operation
      → Params
      → Option (List Bytes)
      → Bool
      → Exec (Proxy env) Params
  unfolding on_node
  plain_write schedule config op params source replicate =
      on_node (run_concurrent prepare_backend_params config op params source none)
      >>= λ (all, used). on_node (answer schedule config op params replicate all)

  -- `execute`
  unfoldable pub distributed_write :
      Scheduler env
      → SyncConfig
      → S3Operation
      → Params
      → Option (List Bytes)
      → Bool
      → Exec (Proxy env) Params
  unfolding create_multipart handle_upload_part complete_or_abort plain_write
  distributed_write schedule config create_multipart_upload params source replicate =
      create_multipart schedule config params source replicate
  distributed_write schedule config upload_part params source replicate =
      handle_upload_part config params source
  distributed_write schedule config complete_multipart_upload params source replicate =
      complete_or_abort schedule config complete_multipart_upload params source replicate
  distributed_write schedule config abort_multipart_upload params source replicate =
      complete_or_abort schedule config abort_multipart_upload params source replicate
  distributed_write schedule config op params source replicate =
      plain_write schedule config op params source replicate
