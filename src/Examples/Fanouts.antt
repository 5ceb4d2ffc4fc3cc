-- ===== src/Examples/Fanouts.antt =====
-- Writes to the backends "a", which is down, and "b".
use s3mer.Pool
use s3mer.Streaming.Shared
use s3mer.Streaming.Shared.Readers.{next, reads, ahead}
use s3mer.Sync.Distributed.Requests.{Proxy, distributed_write}
use s3mer.Sync.Distributed.{client_parts, prepare_backend_params}
use s3mer.Dict.{Dict}
use s3mer.Base.Texts.{str_mem}
use s3mer.Strategies.{Scheduler}
use s3mer.Base.{
  ◌++◌, ◌≡◌, refl, ℕ, String, true, none, some, List, [], ◌∷◌, arith, concat, map, ◌&&◌, not,
}
use s3mer.Dict
use s3mer.Value.{str, object, list, dict, end, field, Params, entries}
use s3mer.Operations
use s3mer.Operations.{
  put_object, create_multipart_upload, upload_part, complete_multipart_upload,
  abort_multipart_upload,
}
use s3mer.Exec.{ok, done}
use s3mer.Sessions.{MultipartSession, get_session, new_session}
use s3mer.Streaming.Bytes.{at_most, everything, Bytes, Amount}
use s3mer.Streaming.Shared.{
  StreamConfig, close, from_body, stream, MultiSyncBodyBuffer, BodyReader, new_reader,
}
use s3mer.Streaming.Shared.Materialize.{from_body_lem, from_body-readers, outcome, files_after}
use s3mer.Sync.{SyncConfig, resolve_sync_backends, SyncExecutionResult}
use s3mer.Sync.Writes.{quorum_write, simple_write, schedule_async_fill, body_of, fill}
use s3mer.Sync.Writes.Decisions.{
  quorum_write-Decision, simple_write-AllOrError, AllOrError, Decision,
}
use s3mer.Sync.Writes.Fill.{Asked, schedule_async_fill-Fill, success_names}
use s3mer.Sync.Writes.Fanout.{FanOut, content}
use s3mer.Sync.Distributed.Parts.{
  prepare-own_parts, client_list, uploads, own_parts, last_etag, own_id,
}
use s3mer.Sync.Distributed.Isolation.{distributed_write-others, upload_of}
use s3mer.Errors.{other, os_error}
use s3mer.Examples.{env, a, b, node, params, exn, os_error, Node}

abbrev pub small : StreamConfig
small = record { chunk_size = 2; max_memory_size = 3 }

abbrev pub sync : SyncConfig
sync = record {
  stream_config = small;
  sync_backend_names = some ("a" ∷ "b" ∷ []);
  sync_quorum = 1;
  response_backend = none;
}

abbrev chunks : List Bytes
chunks = (1 ∷ 2 ∷ []) ∷ (3 ∷ 4 ∷ []) ∷ []

abbrev streamed : Params
streamed = ("Bucket", str "photos") ∷ ("Key", str "cat") ∷ ("Body", object 0) ∷ []

abbrev pub schedule : Scheduler env
schedule _ _ _ _ _ = done

from_body_lem_example : from_body (stream chunks (some (exn other "reset"))) small 0 ≡ (
  outcome small (1 ∷ 2 ∷ 3 ∷ 4 ∷ []) (some (exn other "reset")),
  files_after small (1 ∷ 2 ∷ 3 ∷ 4 ∷ []) 0,
)
from_body_lem_example = from_body_lem small chunks (some (exn other "reset")) 0

from_body-readers_example :
    (b : MultiSyncBodyBuffer) × ((r : BodyReader) × (((from_body (stream chunks none) small 0).0
          ≡ ok (some b))
        × (new_reader b ≡ ok r)
        × (concat (reads (at_most 3 ∷ everything ∷ []) r).0
              ++ ahead (reads (at_most 3 ∷ everything ∷ []) r).1
            ≡ concat chunks)
        × ((n : Amount)
            → (Shared.read n (reads (at_most 3 ∷ everything ∷ []) r).1).0
              ≡ next n (ahead (reads (at_most 3 ∷ everything ∷ []) r).1))
        × ((close b (from_body (stream chunks none) small 0).1).1 ≡ 0)))
from_body-readers_example = from_body-readers small chunks 0 (at_most 3 ∷ everything ∷ [])

quorum_write-Decision_example :
    (all : SyncExecutionResult) × ((end : Node env) × (FanOut env put_object
          (λ b. ok streamed)
          (content (body_of streamed (some chunks)))
          (a ∷ b ∷ [])
          all
          node
          end
        × Decision schedule sync put_object streamed true all end
            (quorum_write schedule sync put_object streamed (some chunks) true node)))
unfolding Operations.is_multipart resolve_sync_backends s3mer.Pool.get Dict.get
quorum_write-Decision_example =
    quorum_write-Decision schedule sync put_object streamed (some chunks) true node a (b ∷ []) refl
      refl (omega arith) (omega arith)

simple_write-AllOrError_example :
    (all : SyncExecutionResult) × ((end : Node env) × (FanOut env put_object
          (λ b. ok streamed)
          (content (body_of streamed (some chunks)))
          (a ∷ b ∷ [])
          all
          node
          end
        × AllOrError sync put_object streamed all end
            (simple_write sync put_object streamed (some chunks) node)))
unfolding Operations.is_multipart resolve_sync_backends s3mer.Pool.get Dict.get
simple_write-AllOrError_example =
    simple_write-AllOrError sync put_object streamed (some chunks) node a (b ∷ []) refl refl

schedule_async_fill-Fill_example :
    (source : String) × ((targets : List String) × (Asked schedule put_object params [] source
          targets node
          (schedule_async_fill schedule sync put_object params [] ((b, []) ∷ []) node)
        × (str_mem source (success_names ((b, []) ∷ [])) ≡ true)
        × ((name : String)
            → str_mem name targets ≡ (
                str_mem name (map (λ c. c.name) (Pool.all_clients node.pool))
                && not (str_mem name (success_names ((b, []) ∷ [])))))))
schedule_async_fill-Fill_example =
    schedule_async_fill-Fill schedule sync put_object params [] b [] [] node

abbrev pub session : MultipartSession
session = record (new_session "photos" "cat" "u1") { backend_upload_ids = ("b", "native") ∷ [] }

abbrev pub listed : Params
listed =
    ("Bucket", str "photos")
    ∷ ("Key", str "cat")
    ∷ ("UploadId", str "u1")
    ∷ (
      "MultipartUpload",
      dict (field "Parts" (list (client_list ((1, str "e1") ∷ (2, str "e2") ∷ []))) end),
    )
    ∷ []

-- the second part was not accepted by "b"
abbrev history : List (ℕ × Dict String)
history = (1, ("a", "x") ∷ ("b", "y") ∷ []) ∷ (2, ("a", "z") ∷ []) ∷ []

prepare-own_parts_example :
    prepare_backend_params b complete_multipart_upload listed (some (uploads history session))
    ≡ ok (
        Dict.put "MultipartUpload"
          (dict (
            field "Parts"
              (list (
                own_parts (λ n. last_etag "b" n history none) ((1, str "e1") ∷ (2, str "e2") ∷ [])))
              end))
          (own_id (Dict.get "b" (uploads history session).backend_upload_ids) listed))
unfolding client_parts client_list Dict.get entries
prepare-own_parts_example =
    prepare-own_parts b listed session history ((1, str "e1") ∷ (2, str "e2") ∷ []) refl refl

abbrev pub proxy : Proxy env
proxy = record { node = node; sessions = ("u1", session) ∷ [] }

distributed_write-others_example :
    get_session "u1"
      (distributed_write schedule sync create_multipart_upload params none true proxy).1.sessions
    ≡ get_session "u1" proxy.sessions
unfolding upload_of
distributed_write-others_example =
    distributed_write-others schedule sync create_multipart_upload params none true proxy "u1" refl
