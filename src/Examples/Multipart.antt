-- ===== src/Examples/Multipart.antt =====
-- The requests of an upload on the backends "a", which is down, and "b".
use s3mer.Dict.{Dict}
use s3mer.Base.{◌≡◌, refl, none, [], ◌∷◌, true}
use s3mer.Dict
use s3mer.Value.{str, int, Params}
use s3mer.Operations.{complete_multipart_upload}
use s3mer.Errors.{os_error}
use s3mer.Errors.Codes.{no_such_upload}
use s3mer.Exec.{raised}
use s3mer.Pool.{exn}
use s3mer.Sessions.{get_session}
use s3mer.Sync.{SyncConfig}
use s3mer.Sync.Writes.{not_supported}
use s3mer.Sync.Distributed.Requests.{
  create_multipart, handle_upload_part, complete_or_abort, no_upload,
}
use s3mer.Sync.Distributed.Lifecycle.{create_multipart-failed}
use s3mer.Sync.Distributed.Progress.{unknown_upload}
use s3mer.Examples.{params}
use s3mer.Examples.Fanouts.{schedule, sync, proxy, listed}

abbrev strict : SyncConfig
strict = record sync { sync_quorum = 2 }

create_multipart-failed_example :
    get_session "id" (create_multipart schedule strict params none true proxy).1.sessions ≡ none
unfolding create_multipart s3mer.Sync.Writes.run_concurrent s3mer.Streaming.Shared.from_body
    s3mer.Sync.Writes.body_of Dict.get Dict.remove s3mer.Sync.resolve_sync_backends s3mer.Pool.get
    s3mer.Sync.Writes.tasks_for s3mer.Sync.Gather.execute_concurrent s3mer.Sync.quorum_met
    s3mer.Node.settle s3mer.Sync.best_failure
create_multipart-failed_example =
    create_multipart-failed schedule strict params none true proxy
      (create_multipart schedule strict params none true proxy).1 (exn os_error "down") refl

unknown_upload_example :
    (handle_upload_part sync listed none (record proxy { sessions = [] })
      ≡ (raised (not_supported no_such_upload no_upload), record proxy { sessions = [] }))
    × (complete_or_abort schedule sync complete_multipart_upload listed none true
          (record proxy { sessions = [] })
        ≡ (raised (not_supported no_such_upload no_upload), record proxy { sessions = [] }))
unfolding Dict.get get_session
unknown_upload_example =
    unknown_upload listed "u1" refl schedule sync complete_multipart_upload none true
      (record proxy { sessions = [] }) refl

abbrev part_params : Params
part_params = ("UploadId", str "u1") ∷ ("PartNumber", int 1) ∷ []
