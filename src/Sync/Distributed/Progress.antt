-- ===== src/Sync/Distributed/Progress.antt =====
-- The session of an upload when parts are added, and when the upload is completed or aborted.
use s3mer.Base.{String, ◌≡◌, refl, sym, ap, Bool, Option, none, some, List}
use s3mer.Dict
use s3mer.Dict.{Dict}
use s3mer.Value.{str, Params}
use s3mer.Operations.{S3Operation}
use s3mer.Errors.{Exn}
use s3mer.Exec.{Result, ok, raised, ok_eq, or_raise}
use s3mer.Env.{Env}
use s3mer.Sessions.{get_session}
use s3mer.Strategies.{Scheduler}
use s3mer.Streaming.Bytes.{Bytes}
use s3mer.Sync.{SyncConfig}
use s3mer.Sync.Distributed.{not_supported, no_such_upload}
use s3mer.Sync.Distributed.Requests.{
  Proxy, canonical_id, load_session, handle_upload_part, complete_or_abort, no_upload,
}

loaded :
    {S A : Type 0} (o : Option A) (x : Exn) (p end : S) (a : A)
    → or_raise o x p ≡ (ok a, end)
    → (o ≡ some a) × (end ≡ p)
loaded none x p end a e = absurd (not_ok (ap (λ r. r.0) e))
  where
    not_ok : raised x ≡ ok a → ⊥
    not_ok h = cc
loaded (some b) x p end a e = (ap some (ok_eq (ap (λ r. r.0) e)), sym (ap (λ r. r.1) e))

module _ {env : Env} where
  load_none :
      (id : String) (p : Proxy env)
      → get_session id p.sessions ≡ none
      → load_session (str id) p ≡ (raised (not_supported no_such_upload no_upload), p)
  unfolding load_session
  load_none id p h = rw h refl

  module _ (params : Params) (id : String) (is_id : canonical_id params ≡ str id) where
    -- The calls for an upload that is not known, or whose session has ended, raise NoSuchUpload, and neither a backend is called nor
    -- the state changed.
    pub unknown_upload :
        (schedule : Scheduler env) (config : SyncConfig) (op : S3Operation)
        → (source : Option (List Bytes)) (replicate : Bool) (p : Proxy env)
        → get_session id p.sessions ≡ none
        → let refused : Result Params × Proxy env =
            (raised (not_supported no_such_upload no_upload), p) in
          (handle_upload_part config params source p ≡ refused)
          × (complete_or_abort schedule config op params source replicate p ≡ refused)
    unfolding handle_upload_part complete_or_abort
    unknown_upload schedule config op source replicate p h =
        (rw (is_id, load_none id p h) refl, rw (is_id, load_none id p h) refl)
