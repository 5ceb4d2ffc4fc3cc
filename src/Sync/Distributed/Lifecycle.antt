-- ===== src/Sync/Distributed/Lifecycle.antt =====
-- The session of an upload from its creation to its end.
use s3mer.Base.{
  String, ◌≤◌, ◌≡◌, refl, sym, ap, ◌∙◌, subst, Bool, true, false, Option, none, some, List, length,
  leb→le, if◌then◌else◌,
}
use s3mer.Sync.{resolve_sync_backends}
use s3mer.Base.Texts.{eq_refl}
use s3mer.Dict
use s3mer.Dict.{Dict, get-remove}
use s3mer.Value.{Params}
use s3mer.Operations.{S3Operation}
use s3mer.Errors.{Exn}
use s3mer.Exec.{Result, ok, raised, Exec, ok_eq, bind_ok, bind_ok_at}
use s3mer.Sessions.Independence.{apply, apply_lem, set_ids, session_after}
use s3mer.Env.{Env}
use s3mer.Node.{Node, of_result}
use s3mer.Pool.{Client}
use s3mer.Sessions.{
  Store, MultipartSession, get_session, with_upload_ids, delete_session, set_backend_upload_ids,
}
use s3mer.Strategies.{Scheduler}
use s3mer.Streaming.Bytes.{Bytes}
use s3mer.Sync.{SyncConfig, SyncExecutionResult, quorum_met, best_failure}
use s3mer.Sync.Distributed.{prepare_backend_params, run_concurrent}
use s3mer.Sync.Distributed.Requests.{
  finish, open_session, Proxy, require_quorum, fan_out, on_node, on_store, or_drop, drop_session,
  create_with_id, create_multipart, new_id, open_session, select, fill_if,
}
use s3mer.Sync.Writes.{body_of}
use s3mer.Sync.Writes.Fanout.{FanOut, content, run_concurrent-FanOut}

-- The configured backends were resolved in the state `s`, each was called once, and enough of the calls have succeeded.
unfoldable pub Reached :
    (env : Env)
    → SyncConfig
    → S3Operation
    → Params
    → Option (List Bytes)
    → Option MultipartSession
    → Node env
    → SyncExecutionResult
    → Type 0
Reached env config op params source session s all =
    (used : List Client) × ((end : Node env) × ((resolve_sync_backends s.pool
            config.sync_backend_names
          ≡ ok used)
        × FanOut env op (λ c. prepare_backend_params c op params session)
            (content (body_of params source)) used all s end
        × (config.sync_quorum ≤ length all.successes)))

met :
    (config : SyncConfig) (all all' : SyncExecutionResult) (b : Bool)
    → quorum_met (length all'.successes) config.sync_quorum ≡ b
    → (if b then ok all' else raised (best_failure all'.failures)) ≡ ok all
    → (all' ≡ all) × (config.sync_quorum ≤ length all.successes)
unfolding quorum_met
met config all all' true h e =
    let same : all' ≡ all = ok_eq e in
    (same, subst (λ a. config.sync_quorum ≤ length a.successes) same (leb→le _ _ h))
met config all all' false h e = absurd cc

pub set_ids_lem :
    (id : String) (session : MultipartSession) (ids : Dict String) (store : Store)
    → get_session id store ≡ some session
    → get_session id (set_backend_upload_ids id ids store).1 ≡ some (with_upload_ids ids session)
unfolding apply session_after
set_ids_lem id session ids store h = apply_lem id (set_ids id ids) store ∙ rw (eq_refl id, h) refl

module _ {env : Env} where
  pub fan_out-Reached :
      (config : SyncConfig) (op : S3Operation) (params : Params) (source : Option (List Bytes))
      → (session : Option MultipartSession) (s : Node env) (all : SyncExecutionResult)
      → (fan_out config op params source session s).0 ≡ ok all
      → Reached env config op params source session s all
  unfolding fan_out Reached of_result require_quorum
  fan_out-Reached config op params source session s all e =
      let ((all', used), (s1, (ran, e1))) =
        bind_ok (run_concurrent prepare_backend_params config op params source session) _ s _ e in
      let (same, enough) = met config all all' _ refl e1 in
      let (found, out) =
        run_concurrent-FanOut prepare_backend_params config op params source session s all' used s1
          ran in
      (
        used,
        (
          s1,
          (
            found,
            subst
                (λ a.
                  FanOut env op (λ c. prepare_backend_params c op params session)
                    (content (body_of params source)) used a s s1)
                same out,
            enough,
          ),
        ),
      )

  pub on_node_ok :
      {A : Type 0} (m : Exec (Node env) A) (p end : Proxy env) (a : A)
      → on_node m p ≡ (ok a, end)
      → ((m p.node).0 ≡ ok a) × (end.sessions ≡ p.sessions)
  unfolding on_node
  on_node_ok m p end a e = (ap (λ r. r.0) e, sym (ap (λ r. r.1.sessions) e))

  dropped :
      (id : String) (r : Result Params) (p end : Proxy env) (e : Exn)
      → or_drop id r p ≡ (raised e, end)
      → get_session id end.sessions ≡ none
  unfolding or_drop drop_session on_store get_session delete_session
  dropped id (ok response) p end e h = absurd (not_raised (ap (λ r. r.0) h))
    where
      not_raised : ok response ≡ raised e → ⊥
      not_raised x = cc
  dropped id (raised x) p end e h =
      ap (λ r. get_session id r.1.sessions) (sym h)
      ∙ (get-remove id id p.sessions ∙ rw (eq_refl id) refl)

  -- A CreateMultipartUpload that fails, at the backends, for want of the quorum or at the fill-in, leaves no session.
  pub create_multipart-failed :
      (schedule : Scheduler env) (config : SyncConfig) (params : Params)
      → (source : Option (List Bytes)) (replicate : Bool) (p end : Proxy env) (e : Exn)
      → create_multipart schedule config params source replicate p ≡ (raised e, end)
      → get_session (env.uuid p.node.world).0 end.sessions ≡ none
  unfolding create_multipart new_id on_node create_with_id open_session on_store
  create_multipart-failed schedule config params source replicate p end e h =
      dropped (env.uuid p.node.world).0 _ _ end e h

  pub select_ok :
      (config : SyncConfig) (all : SyncExecutionResult) (p end : Proxy env) (response : Params)
      → select config all p ≡ (ok response, end)
      → end.sessions ≡ p.sessions
  unfolding select on_node of_result
  select_ok config all p end response e = sym (ap (λ r. r.1.sessions) e)

  pub finish_ok :
      (schedule : Scheduler env) (config : SyncConfig) (replicate : Bool) (op : S3Operation)
      → (params : Params) (all : SyncExecutionResult) (chosen response : Params) (p end : Proxy env)
      → finish schedule config replicate op params all chosen p ≡ (ok response, end)
      → (chosen ≡ response) × (end.sessions ≡ p.sessions)
  unfolding finish
  finish_ok schedule config replicate op params all chosen response p end h =
      let (u, (q, (filled, e))) =
        bind_ok_at (on_node (fill_if schedule config replicate op params chosen all.successes)) _ p
          _ end h in
      (
        ok_eq (ap (λ r. r.0) e),
        sym (ap (λ r. r.1.sessions) e)
            ∙ (on_node_ok (fill_if schedule config replicate op params chosen all.successes) p q u
                filled).1,
      )
