-- ===== src/Sync/Distributed/Isolation.antt =====
-- The sessions of the store over the requests of an upload.
use s3mer.Operations.{
  upload_part, complete_multipart_upload, abort_multipart_upload, S3Operation,
  create_multipart_upload,
}
use s3mer.Streaming.Bytes.{Bytes}
use s3mer.Dict.{Dict}
use s3mer.Strategies.{Scheduler}
use s3mer.Sessions.Independence.{
  Call, session_after, apply, apply_lem, create, delete, record_part, set_ids,
}
use s3mer.Env.{Env}
use s3mer.Base.{subst, ◌≡◌, refl, sym, ◌∙◌, Bool, false, Option, none, some, List, String, ℕ}
use s3mer.Base.Texts.{str_eq}
use s3mer.Value.{null, bool, object, list, dict, Value, str, int, Params, bytes}
use s3mer.Exec.{Result, ok, raised, Exec, continue, ◌>>=◌, pure, or_raise}
use s3mer.Sessions.{
  Store, MultipartSession, get_session, create_session, set_backend_upload_ids, record_part_etags,
  delete_session,
}
use s3mer.Sync.{SyncConfig, Exn, SyncExecutionResult}
use s3mer.Sync.Distributed.Requests.{
  finish, Proxy, on_node, on_store, create_uploads, create_multipart, handle_upload_part,
  complete_or_abort, drop_session, or_drop, register, select, reply_created, create_with_id, id_of,
  canonical_id, open_session, end_upload, upload_to, number_and_record, reply_ended,
  drop_and_finish, record_upload, distributed_write, load_session, new_id, plain_write,
}

-- One step of a chain keeps a property of the store if its parts do, whether it raises or not.
step :
    {env : Env} {A B : Type 0} (P : Store → Type 0) (r : Result A) (f : A → Exec (Proxy env) B)
    (p : Proxy env)
    → P p.sessions
    → ((a : A) (q : Proxy env) → P q.sessions → P (f a q).1.sessions)
    → P (continue r f p).1.sessions
step P (ok a) f p h next = next a p h
step P (raised e) f p h next = h

same : {S A : Type 0} (o : Option A) (e : Exn) (p : S) → (or_raise o e p).1 ≡ p
same none e p = refl
same (some a) e p = refl

load_session-state : {env : Env} (v : Value) (p : Proxy env) → (load_session v p).1 ≡ p
unfolding load_session
load_session-state (str id) p = same (get_session id p.sessions) _ p
load_session-state null p = refl
load_session-state (int n) p = refl
load_session-state (bool b) p = refl
load_session-state (bytes bs) p = refl
load_session-state (object n) p = refl
load_session-state (list vs) p = refl
load_session-state (dict fs) p = refl

-- What the changes of one session keep.
pub record Stable (id : String) (P : Store → Type 0) : Type 0 where
  pub created :
      (bucket key : String) (store : Store) → P store → P (create_session bucket key id store).1
  pub with_ids :
      (ids : Dict String) (store : Store) → P store → P (set_backend_upload_ids id ids store).1
  pub recorded :
      (n : ℕ) (etags : Dict String) (store : Store)
      → P store
      → P (record_part_etags id n etags store).1
  pub deleted : (store : Store) → P store → P (delete_session id store)

module _ (id other : String) (old : Option MultipartSession)
    (differs : str_eq id other ≡ false) where
  kept :
      (c : Call) (store : Store)
      → session_after other c (get_session other store) ≡ get_session other store
      → get_session other store ≡ old
      → get_session other (apply c store) ≡ old
  kept c store e h = apply_lem other c store ∙ e ∙ h

  -- the session of another id
  other-Stable : Stable id (λ store. get_session other store ≡ old)
  unfolding apply session_after
  other-Stable = record {
    created = λ bucket key store h. kept (create bucket key id) store (rw differs refl) h;
    with_ids = λ ids store h. kept (set_ids id ids) store (rw differs refl) h;
    recorded = λ n etags store h. kept (record_part id n etags) store (rw differs refl) h;
    deleted = λ store h. kept (delete id) store (rw differs refl) h;
  }

module _ (P : Store → Type 0) (id : String) (stable : Stable id P) (params : Params)
    (is_id : id_of (canonical_id params) ≡ id) where
  recorded_at :
      (n : ℕ) (etags : Dict String) (store : Store)
      → P store
      → P (record_part_etags (id_of (canonical_id params)) n etags store).1
  recorded_at n etags store h =
      subst (λ i. P (record_part_etags i n etags store).1) (sym is_id)
        (stable.recorded n etags store h)

  deleted_at : (store : Store) → P store → P (delete_session (id_of (canonical_id params)) store)
  deleted_at store h = subst (λ i. P (delete_session i store)) (sym is_id) (stable.deleted store h)

module _ {env : Env} (P : Store → Type 0) where
  finish-step :
      (schedule : Scheduler env) (config : SyncConfig) (replicate : Bool) (op : S3Operation)
      → (params : Params) (all : SyncExecutionResult) (response : Params) (p : Proxy env)
      → P p.sessions
      → P (finish schedule config replicate op params all response p).1.sessions
  unfolding finish on_node
  finish-step schedule config replicate op params all response p h =
      step P _ (λ _. pure response) _ h λ _ q k. k

  select-step :
      (config : SyncConfig) (all : SyncExecutionResult) (f : Params → Exec (Proxy env) Params)
      (p : Proxy env)
      → P p.sessions
      → ((response : Params) (q : Proxy env) → P q.sessions → P (f response q).1.sessions)
      → P ((select config all >>= f) p).1.sessions
  unfolding select on_node
  select-step config all f p h next = step P _ f _ h next

  module _ (id : String) (stable : Stable id P) where
    create_uploads-step :
        (schedule : Scheduler env) (config : SyncConfig) (params : Params)
        → (source : Option (List Bytes)) (replicate : Bool) (p : Proxy env) → P p.sessions
        → P (create_uploads schedule config params source replicate id p).1.sessions
    unfolding create_uploads on_node on_store register reply_created
    create_uploads-step schedule config params source replicate p h =
        step P _ (register schedule config params replicate id) _ h λ all q h.
          step P _ (λ _. reply_created schedule config params replicate id all) _
            (stable.with_ids _ q.sessions h)
            λ _ q h. select-step config all _ q h λ chosen q h.
              finish-step schedule config replicate create_multipart_upload params all _ q h

    or_drop-step :
        (r : Result Params) (p : Proxy env) → P p.sessions → P (or_drop id r p).1.sessions
    unfolding or_drop drop_session on_store
    or_drop-step (ok response) p h = h
    or_drop-step (raised e) p h = stable.deleted p.sessions h

    create_with_id-step :
        (schedule : Scheduler env) (config : SyncConfig) (params : Params)
        → (source : Option (List Bytes)) (replicate : Bool) (p : Proxy env) → P p.sessions
        → P (create_with_id schedule config params source replicate id p).1.sessions
    unfolding create_with_id open_session on_store
    create_with_id-step schedule config params source replicate p h = or_drop-step _ _ (
        create_uploads-step schedule config params source replicate _
          (stable.created _ _ p.sessions h))

    module _ (params : Params) (is_id : id_of (canonical_id params) ≡ id) where
      upload_to-step :
          (config : SyncConfig) (source : Option (List Bytes)) (session : MultipartSession)
          (p : Proxy env)
          → P p.sessions
          → P (upload_to config params source (canonical_id params) session p).1.sessions
      unfolding upload_to on_node number_and_record record_upload on_store select
      upload_to-step config source session p h =
          step P _ (number_and_record config params (canonical_id params)) _ h λ all q h.
            step P _ (record_upload config (canonical_id params) all) _ h λ number q h.
              step P _ (λ _. select config all) _
                (recorded_at P id stable params is_id number _ q.sessions h) λ _ q h. h

      end_upload-step :
          (schedule : Scheduler env) (config : SyncConfig) (op : S3Operation)
          → (source : Option (List Bytes)) (replicate : Bool) (session : MultipartSession)
            (p : Proxy env)
          → P p.sessions
          → P (end_upload schedule config op params source replicate session p).1.sessions
      unfolding end_upload on_node reply_ended drop_and_finish drop_session on_store
      end_upload-step schedule config op source replicate session p h =
          step P _ (reply_ended schedule config replicate op params) _ h λ all q h.
            select-step config all _ q h λ response q h.
              finish-step schedule config replicate op params all response _
                (deleted_at P id stable params is_id q.sessions h)

  load-step :
      (v : Value) (f : MultipartSession → Exec (Proxy env) Params) (p : Proxy env)
      → P p.sessions
      → ((session : MultipartSession) (q : Proxy env) → P q.sessions → P (f session q).1.sessions)
      → P ((load_session v >>= f) p).1.sessions
  load-step v f p h next =
      step P _ f _ (subst (λ q. P q.sessions) (sym (load_session-state v p)) h) next

-- the id of the session of a request
unfoldable pub upload_of : {env : Env} → S3Operation → Params → Proxy env → String
upload_of {env = env} create_multipart_upload params p = (env.uuid p.node.world).0
upload_of op params p = id_of (canonical_id params)

module _ {env : Env} (P : Store → Type 0) (schedule : Scheduler env) (config : SyncConfig) where
  write-step :
      (op : S3Operation) (params : Params) (source : Option (List Bytes)) (replicate : Bool)
      (p : Proxy env)
      → Stable (upload_of op params p) P
      → P p.sessions
      → P (distributed_write schedule config op params source replicate p).1.sessions
  unfolding distributed_write upload_of create_multipart on_node new_id handle_upload_part
      complete_or_abort plain_write
  write-step create_multipart_upload params source replicate p stable h =
      create_with_id-step P (env.uuid p.node.world).0 stable schedule config params source replicate
        _ h
  write-step upload_part params source replicate p stable h =
      load-step P (canonical_id params) _ p h
        λ session q h. upload_to-step P _ stable params refl config source session q h
  write-step complete_multipart_upload params source replicate p stable h =
      load-step P (canonical_id params) _ p h λ session q h.
        end_upload-step P _ stable params refl schedule config complete_multipart_upload source
          replicate session q h
  write-step abort_multipart_upload params source replicate p stable h =
      load-step P (canonical_id params) _ p h λ session q h.
        end_upload-step P _ stable params refl schedule config abort_multipart_upload source
          replicate session q h
  write-step _ params source replicate p stable h = step P _ _ _ h λ _ q h. h

-- Whatever a request does and however it ends, it leaves the sessions of all other uploads as they are: CreateMultipartUpload touches
-- the session of the new id alone, the other operations that of their upload id.
pub distributed_write-others :
    {env : Env} (schedule : Scheduler env) (config : SyncConfig) (op : S3Operation)
    (params : Params)
    → (source : Option (List Bytes)) (replicate : Bool) (p : Proxy env) (other : String)
    → str_eq (upload_of op params p) other ≡ false
    → get_session other (distributed_write schedule config op params source replicate p).1.sessions
      ≡ get_session other p.sessions
distributed_write-others schedule config op params source replicate p other differs =
    write-step (λ store. get_session other store ≡ get_session other p.sessions) schedule config op
      params source replicate p (other-Stable _ other _ differs) refl
