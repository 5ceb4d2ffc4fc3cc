-- ===== src/Sync/Distributed/Requests/Creation.antt =====
-- The state of the proxy, the calls of a request with their quorum, and `_handle_create_multipart`
-- (src/s3mer/backends/multisync_strategies.py).
use s3mer.Base.{String, Bool, true, false, Option, none, some, List, [], ◌∷◌, length, if◌then◌else◌}
use s3mer.Dict
use s3mer.Dict.{Dict}
use s3mer.Value.{Value, null, str, Params}
use s3mer.Operations.{S3Operation, create_multipart_upload}
use s3mer.Exec.{Result, ok, raised, Exec, Action, done, pure, raise, attempt, ◌>>=◌, ◌>>◌}
use s3mer.Env.{Env}
use s3mer.Pool.{Client}
use s3mer.Node.{Node, of_result}
use s3mer.Sessions
use s3mer.Sessions.{MultipartSession, Store}
use s3mer.Strategies.{Scheduler}
use s3mer.Streaming.Bytes.{Bytes}
use s3mer.Sync.{SyncExecutionResult, SyncConfig, select_client_response, quorum_met, best_failure}
use s3mer.Sync.Writes.{run_concurrent, schedule_async_fill}
use s3mer.Sync.Distributed.{prepare_backend_params, text_param}

-- The state of the proxy with its session store.
pub record Proxy (env : Env) : Type 0 where
  pub node : Node env
  pub sessions : Store

-- `render` is `str` on a value that is no text
module _ (render : Value → String) where
  -- `str(v)`
  abbrev pub text : Value → String
  text (str s) = s
  text v = render v

  unfoldable pub add_id : String → Option Value → Dict String → Dict String
  add_id name none ids = ids
  add_id name (some null) ids = ids
  add_id name (some v) ids = Dict.put name (text v) ids

  -- `{backend.name: str(response["UploadId"]) … if response.get("UploadId") is not None}`
  unfoldable pub upload_ids : List (Client × Params) → Dict String → Dict String
  unfolding add_id
  upload_ids [] ids = ids
  upload_ids ((c, response) ∷ rest) ids =
      upload_ids rest (add_id c.name (Dict.get "UploadId" response) ids)

  unfoldable pub add_etag : String → Option Value → Dict String → Dict String
  add_etag name none etags = etags
  add_etag name (some v) etags = Dict.put name (text v) etags

  -- `{backend.name: str(response["ETag"]) … if "ETag" in response}`
  unfoldable pub backend_etags : List (Client × Params) → Dict String → Dict String
  unfolding add_etag
  backend_etags [] etags = etags
  backend_etags ((c, response) ∷ rest) etags =
      backend_etags rest (add_etag c.name (Dict.get "ETag" response) etags)

-- `if not quorum_met(…): raise_best_failure(…)`
unfoldable pub require_quorum :
    SyncConfig → SyncExecutionResult × List Client → Result SyncExecutionResult
require_quorum config (all, backends) =
    if quorum_met (length all.successes) config.sync_quorum
    then ok all
    else raised (best_failure all.failures)

module _ {env : Env} where
  -- a computation on the rest of the state, and one on the store
  unfoldable pub on_node : {A : Type 0} → Exec (Node env) A → Exec (Proxy env) A
  on_node m p = let (r, s) = m p.node in (r, record p { node = s })

  unfoldable pub on_store : {A : Type 0} → (Store → Result A × Store) → Exec (Proxy env) A
  on_store f p = let (r, store) = f p.sessions in (r, record p { sessions = store })

  unfoldable pub drop_session : String → Action (Proxy env)
  unfolding on_store
  drop_session id = on_store (λ store. (ok tt, Sessions.delete_session id store))

  -- `str(uuid.uuid4())`
  unfoldable pub new_id : Exec (Node env) String
  new_id s = let (id, w) = env.uuid s.world in (ok id, record s { world = w })

  -- the calls on the backends, and the check of the quorum
  unfoldable pub fan_out :
      SyncConfig
      → S3Operation
      → Params
      → Option (List Bytes)
      → Option MultipartSession
      → Exec (Node env) SyncExecutionResult
  unfolding prepare_backend_params of_result require_quorum
  fan_out config op params source session =
      run_concurrent prepare_backend_params config op params source session >>= λ r.
      of_result (require_quorum config r)

  abbrev pub fill_if :
      Scheduler env
      → SyncConfig
      → Bool
      → S3Operation
      → Params
      → Params
      → List (Client × Params)
      → Action (Node env)
  fill_if schedule config false op params response successes = done
  fill_if schedule config true op params response successes =
      schedule_async_fill schedule config op params response successes

  -- the fill-in of the other backends, and the response
  unfoldable pub finish :
      Scheduler env
      → SyncConfig
      → Bool
      → S3Operation
      → Params
      → SyncExecutionResult
      → Params
      → Exec (Proxy env) Params
  unfolding on_node
  finish schedule config replicate op params all response =
      on_node (fill_if schedule config replicate op params response all.successes) >> pure response

  unfoldable pub select : SyncConfig → SyncExecutionResult → Exec (Proxy env) Params
  unfolding on_node of_result
  select config all =
      on_node (of_result (select_client_response all.successes config.response_backend))

  unfoldable pub reply_created :
      Scheduler env
      → SyncConfig
      → Params
      → Bool
      → String
      → SyncExecutionResult
      → Exec (Proxy env) Params
  unfolding finish select
  reply_created schedule config params replicate id all = select config all >>= λ chosen.
      finish schedule config replicate create_multipart_upload params all
        (Dict.put "UploadId" (str id) chosen)

  unfoldable pub register :
      Scheduler env
      → SyncConfig
      → Params
      → Bool
      → String
      → SyncExecutionResult
      → Exec (Proxy env) Params
  unfolding on_store upload_ids reply_created
  register schedule config params replicate id all =
      on_store (Sessions.set_backend_upload_ids id (upload_ids env.render all.successes []))
      >> reply_created schedule config params replicate id all

  -- the part of `_handle_create_multipart` that an exception undoes
  unfoldable pub create_uploads :
      Scheduler env
      → SyncConfig
      → Params
      → Option (List Bytes)
      → Bool
      → String
      → Exec (Proxy env) Params
  unfolding fan_out on_node register
  create_uploads schedule config params source replicate id =
      on_node (fan_out config create_multipart_upload (Dict.remove "UploadId" params) source none)
      >>= register schedule config params replicate id

  unfoldable pub or_drop : String → Result Params → Exec (Proxy env) Params
  unfolding drop_session
  or_drop id (ok response) = pure response
  or_drop id (raised e) = drop_session id >> raise e

  unfoldable pub open_session : Params → String → Action (Proxy env)
  unfolding on_store
  open_session params id = on_store (λ store. (
    ok tt,
    (Sessions.create_session (text_param "Bucket" params) (text_param "Key" params) id store).1,
  ))

  unfoldable pub create_with_id :
      Scheduler env
      → SyncConfig
      → Params
      → Option (List Bytes)
      → Bool
      → String
      → Exec (Proxy env) Params
  unfolding create_uploads or_drop open_session
  create_with_id schedule config params source replicate id =
      open_session params id
      >> (attempt (create_uploads schedule config params source replicate id) >>= or_drop id)

  -- `_handle_create_multipart`
  unfoldable pub create_multipart :
      Scheduler env → SyncConfig → Params → Option (List Bytes) → Bool → Exec (Proxy env) Params
  unfolding create_with_id new_id on_node
  create_multipart schedule config params source replicate =
      on_node new_id >>= create_with_id schedule config params source replicate
