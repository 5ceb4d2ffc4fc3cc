-- ===== src/Sync/Distributed.antt =====
-- `DistributedMultiSyncWriteStrategy` (src/s3mer/backends/multisync_strategies.py), over the session store of
-- src/s3mer/state/memory.py.
pub mod Requests
pub mod Parts
pub mod Isolation
pub mod Given
pub mod Lifecycle
pub mod Progress
use s3mer.Base.{
  ℕ, String, Bool, true, false, ◌==◌, ◌&&◌, Option, none, some, List, [], ◌∷◌, length,
  if◌then◌else◌,
}
use s3mer.Base.Texts.{str_eq}
use s3mer.Dict
use s3mer.Dict.{Dict}
use s3mer.Value.{
  Value, null, str, int, bool, bytes, object, list, dict, Values, nil, cons, Fields, end, field,
  Params, entries,
}
use s3mer.Operations
use s3mer.Operations.{
  S3Operation, create_multipart_upload, upload_part, complete_multipart_upload,
  abort_multipart_upload,
}
use s3mer.Errors.{Exn, key_error, attribute_error, value_error, other}
use s3mer.Errors.Codes.{no_such_upload}
use s3mer.Exec.{
  Result, ok, raised, Exec, Action, done, pure, raise, attempt, modify, and_then, ◌>>=◌, ◌>>◌,
}
use s3mer.Env.{Env}
use s3mer.Pool.{Client, exn}
use s3mer.Node.{Node, of_result}
use s3mer.Sessions
use s3mer.Sessions.{MultipartSession, Store}
use s3mer.Strategies.{Scheduler}
use s3mer.Replication.Extraction.{get_default}
use s3mer.Streaming.Bytes.{Bytes}
use s3mer.Sync.{SyncExecutionResult, SyncConfig, select_client_response, quorum_met, best_failure}
use s3mer.Sync.Writes.{Prepare, not_supported, run_concurrent, answer, schedule_async_fill}

abbrev pub is_complete : S3Operation → Bool
is_complete complete_multipart_upload = true
is_complete _ = false

-- `backend_params["UploadId"] = native_upload_id`, if there is one that is not empty
unfoldable pub with_native_id : Option String → S3Operation → Params → Params
with_native_id none op params = params
with_native_id (some id) op params =
    if str_eq id ""
    then params
    else (if Operations.is_multipart op then Dict.put "UploadId" (str id) params else params)

-- `session.part_etags.get(part_number, {})`
unfoldable pub etags_of : ℕ → List (ℕ × Dict String) → Dict String
etags_of n [] = []
etags_of n ((m, etags) ∷ parts) = if m == n then etags else etags_of n parts

-- `session.part_etags.get(part_number, {}).get(backend.name)`; a number is no other key than itself, and a list or a dictionary is
-- no key
unfoldable pub etag_for : MultipartSession → String → Value → Result (Option String)
unfolding etags_of
etag_for session name (int n) = ok (Dict.get name (etags_of n session.part_etags))
etag_for session name (bool true) = ok (Dict.get name (etags_of 1 session.part_etags))
etag_for session name (bool false) = ok (Dict.get name (etags_of 0 session.part_etags))
etag_for session name (list vs) = raised (exn other "unhashable type: 'list'")
etag_for session name (dict fs) = raised (exn other "unhashable type: 'dict'")
etag_for session name v = ok none

-- `part["PartNumber"]`
unfoldable pub part_number_of : Value → Result Value
part_number_of (dict fs) = elim (Dict.get "PartNumber" (entries fs)) [
  | none ↦ raised (exn key_error "PartNumber")
  | some v ↦ ok v
]
part_number_of v = raised (exn other "object is not subscriptable by a string")

abbrev pub part : Value → String → Value
part n etag = dict (field "PartNumber" n (field "ETag" (str etag) end))

abbrev pub keep_part : Value → Option String → Values → Values
keep_part n none rest = rest
keep_part n (some etag) rest = cons (part n etag) rest

-- the loop over the parts of the client
unfoldable pub backend_parts : MultipartSession → String → Values → Result Values
unfolding etag_for part_number_of
backend_parts session name nil = ok nil
backend_parts session name (cons p ps) = and_then (part_number_of p) λ n.
    (and_then (etag_for session name n)
      λ etag. (and_then (backend_parts session name ps) λ rest. ok (keep_part n etag rest)))

-- `params.get("MultipartUpload", {}).get("Parts", [])`
unfoldable pub client_parts : Params → Result Values
client_parts params = elim (get_default "MultipartUpload" (dict end) params) [
  | dict fs ↦ elim (get_default "Parts" (list nil) (entries fs)) [
    | list vs ↦ ok vs
    | _ ↦ raised (exn other "object is not iterable as parts")
  ]
  | _ ↦ raised (exn attribute_error "object has no attribute 'get'")
]

-- `_prepare_backend_params`
unfoldable pub prepare_backend_params : Prepare
unfolding with_native_id backend_parts client_parts
prepare_backend_params backend op params none = ok params
prepare_backend_params backend op params (some session) =
    let native = with_native_id (Dict.get backend.name session.backend_upload_ids) op params in
    if is_complete op
    then and_then (client_parts params) (λ parts.
      and_then (backend_parts session backend.name parts)
        (λ mine. ok (Dict.put "MultipartUpload" (dict (field "Parts" (list mine) end)) native)))
    else ok native

-- a text parameter, which the handlers set, or the empty text
abbrev pub text_param : String → Params → String
text_param k params = elim (get_default k (str "") params) [ str s ↦ s | _ ↦ "" ]

-- `int(params.get("PartNumber", 0))`; the handlers pass a number
unfoldable pub int_param : Value → Result ℕ
int_param (int n) = ok n
int_param (bool true) = ok 1
int_param (bool false) = ok 0
int_param (str s) = raised (exn value_error "invalid literal for int()")
int_param v = raised (exn other "int() argument must be a string or a number")
