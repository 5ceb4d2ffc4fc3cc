-- ===== src/Replication/Tasks.antt =====
-- The replication tasks that the two managers hand to the broker.
use Prim.Native.String.{◌++◌ as ◌^^◌}
use s3mer.Base.{String, ◌≡◌, refl, sym, ◌∙◌, ap, Option, none, some, List, [], ◌∷◌, ◌++◌, map}
use mathlib.Core.List.{append-nil, append_assoc}
use s3mer.Dict
use s3mer.Value.{Value, str, Params}
use s3mer.Operations.{S3Operation}
use s3mer.Exec.{ok, Action, ◌>>◌}
use s3mer.Env.{Env}
use s3mer.Message.{ReplicationMessage}
use s3mer.Node.{Node, replication_task, metric, of_result, outside}
use s3mer.Replication.Extraction.{map_operation, extract_keys, build_metadata}
use s3mer.Replication.Broker.{
  Task, task_for, tasks_of, tasks_of-append, Accepts, key_value, task, all_tasks,
}
use s3mer.Replication.Publishing.{
  batch_schedule_replication, per_backend_schedule_replication, schedule, each, batch_key,
  per_backend_target, make_message, publish, record_tasks, stamp, bucket_field, key_field,
}

module _ {env : Env} (broker : Accepts env) where
  pub sent : Node env → List Task
  sent s = tasks_of (broker.log s.world)

  -- The action succeeds and adds these tasks.
  pub record Sends (m : Action (Node env)) (tasks : List Task) (s : Node env) : Type 0 where
    pub succeeds : (m s).0 ≡ ok tt
    pub adds : sent (m s).1 ≡ sent s ++ tasks

  record_tasks_lem :
      (operation : String) (ts : List String) (s : Node env)
      → ((record_tasks operation ts s).0 ≡ ok tt)
        × ((record_tasks operation ts s).1.world ≡ s.world)
  unfolding record_tasks metric
  record_tasks_lem operation [] s = (refl, refl)
  record_tasks_lem operation (t ∷ ts) s =
      record_tasks_lem operation ts
        (record s { metrics = replication_task operation t ∷ s.metrics })

  pub publish_lem :
      (m : ReplicationMessage) (topic : String) (s : Node env)
      → Sends (publish m topic) (map (task_for m) m.target_backends) s
  unfolding publish sent tasks_of outside
  publish_lem m topic s = record {
    succeeds = broker.accepts _ s.world;
    adds = rw (broker.logs _ s.world) (
        tasks_of-append (broker.log s.world) _
        ∙ ap (λ t. tasks_of (broker.log s.world) ++ t) (append-nil _));
  }

  -- the message that a write with these parameters makes for a key
  made :
      String
      → String
      → Option String
      → String
      → List String
      → Params
      → Node env
      → ReplicationMessage
  made operation bucket key source targets metadata s = record {
    message_id = (env.uuid s.world).0;
    timestamp = env.now (env.uuid s.world).1;
    operation = operation;
    bucket = bucket;
    key = key;
    source_backend = source;
    target_backends = targets;
    metadata = metadata;
    retry_count = 0;
  }

  make_message_lem :
      (operation bucket : String) (params : Params) (key : Option String) (source : String)
      → (targets : List String) (metadata : Params) (s : Node env)
      → Dict.get "Bucket" params ≡ some (str bucket)
      → make_message operation params (key_value key) source targets metadata s ≡ (
        ok (made operation bucket key source targets metadata s),
        record s { world = (env.uuid s.world).1 },
      )
  unfolding make_message of_result stamp bucket_field key_field made
  make_message_lem operation bucket params none source targets metadata s h = rw h refl
  make_message_lem operation bucket params (some k) source targets metadata s h = rw h refl

  batch_key_lem :
      (topic operation bucket : String) (params : Params) (source : String) (targets : List String)
      → (metadata : Params) (key : Option String) (s : Node env)
      → Dict.get "Bucket" params ≡ some (str bucket)
      → Sends
          (batch_key topic operation params source targets metadata (key_value key))
          (map (task operation bucket source metadata key) targets)
          s
  unfolding batch_key made sent
  batch_key_lem topic operation bucket params source targets metadata key s h =
      let m = made operation bucket key source targets metadata s in
      let stamped : Node env = record s { world = (env.uuid s.world).1 } in
      let counted = record_tasks_lem operation targets stamped in
      let last = publish_lem m topic (record_tasks operation targets stamped).1 in
      let start = make_message_lem operation bucket params key source targets metadata s h in
      record {
        succeeds = rw (start, counted.0) last.succeeds;
        adds = rw (start, counted.0, last.adds, counted.1, broker.keeps s.world) refl;
      }

  and_then :
      (m n : Action (Node env)) (ts us : List Task) (s : Node env)
      → Sends m ts s
      → Sends n us (m s).1
      → Sends (m >> n) (ts ++ us) s
  and_then m n ts us s one two = record {
    succeeds = rw one.succeeds two.succeeds;
    adds = rw (one.succeeds, two.adds, one.adds, append_assoc) refl;
  }

  per_backend_target_lem :
      (topic operation bucket : String) (params : Params) (source target : String)
      (metadata : Params)
      → (key : Option String) (s : Node env) → Dict.get "Bucket" params ≡ some (str bucket)
      → Sends
          (per_backend_target topic operation params source metadata (key_value key) target)
          (task operation bucket source metadata key target ∷ [])
          s
  unfolding per_backend_target made sent metric
  per_backend_target_lem topic operation bucket params source target metadata key s h =
      let m = made operation bucket key source (target ∷ []) metadata s in
      let counted : Node env = record s {
        world = (env.uuid s.world).1;
        metrics = replication_task operation target ∷ s.metrics;
      } in
      let start = make_message_lem operation bucket params key source (target ∷ []) metadata s h in
      let last = publish_lem m (topic ^^ ("." ^^ target)) counted in
      record {
        succeeds = rw start last.succeeds;
        adds = rw (start, last.adds, broker.keeps s.world) refl;
      }

  targets_lem :
      (topic operation bucket : String) (params : Params) (source : String) (targets : List String)
      → (metadata : Params) (key : Option String) (s : Node env)
      → Dict.get "Bucket" params ≡ some (str bucket)
      → Sends
          (each (per_backend_target topic operation params source metadata (key_value key)) targets)
          (map (task operation bucket source metadata key) targets)
          s
  unfolding each
  targets_lem topic operation bucket params source [] metadata key s h = record {
    succeeds = refl;
    adds = sym (append-nil _);
  }
  targets_lem topic operation bucket params source (t ∷ ts) metadata key s h =
      let one = per_backend_target_lem topic operation bucket params source t metadata key s h in
      and_then _ _ _ _ s one (targets_lem topic operation bucket params source ts metadata key _ h)

  keys_lem :
      (f : Value → Action (Node env)) (operation bucket source : String) (targets : List String)
      → (metadata : Params) (keys : List (Option String)) (s : Node env)
      → ((k : Option String) (s : Node env)
          → Sends (f (key_value k)) (map (task operation bucket source metadata k) targets) s)
      → Sends
          (each f (map key_value keys))
          (all_tasks operation bucket source metadata targets keys)
          s
  unfolding each all_tasks
  keys_lem f operation bucket source targets metadata [] s h = record {
    succeeds = refl;
    adds = sym (append-nil _);
  }
  keys_lem f operation bucket source targets metadata (k ∷ ks) s h =
      and_then _ _ _ _ s (h k s) (keys_lem f operation bucket source targets metadata ks _ h)

  schedule_lem :
      (send : String → Params → Value → Action (Node env)) (op : S3Operation)
      → (params response : Params) (bucket source : String) (targets : List String)
      → (keys : List (Option String)) (s : Node env)
      → extract_keys op params response ≡ ok (map key_value keys)
      → ((k : Option String) (s : Node env)
          → Sends
              (send (map_operation op) (build_metadata params response) (key_value k))
              (map
                (task (map_operation op) bucket source (build_metadata params response) k)
                targets)
              s)
      → Sends
          (schedule send op params response)
          (all_tasks (map_operation op) bucket source (build_metadata params response) targets keys)
          s
  unfolding schedule of_result metric sent
  schedule_lem send op params response bucket source targets keys s e h =
      let all =
        keys_lem (send (map_operation op) (build_metadata params response)) _ _ _ _ _ keys _ h in
      record { succeeds = rw e all.succeeds; adds = rw (e, all.adds) refl }

  -- With a broker that takes every message, both managers succeed and hand over the same tasks, for
  -- the same write: each key that the write concerns, once for every target and in this order, with
  -- the mapped operation, the source and the metadata. The write has a bucket, and its keys, as far
  -- as it has any, are texts.
  pub schedule_replication-tasks :
      (topic : String) (op : S3Operation) (params response : Params) (bucket source target : String)
      → (targets : List String) (keys : List (Option String)) (s : Node env)
      → Dict.get "Bucket" params ≡ some (str bucket)
      → extract_keys op params response ≡ ok (map key_value keys)
      → let tasks =
          all_tasks
            (map_operation op)
            bucket
            source
            (build_metadata params response)
            (target ∷ targets)
            keys in
        Sends
          (batch_schedule_replication topic op params response source (target ∷ targets))
          tasks
          s
        × Sends
            (per_backend_schedule_replication topic op params response source (target ∷ targets))
            tasks
            s
  unfolding batch_schedule_replication per_backend_schedule_replication
  schedule_replication-tasks topic op params response bucket source target targets keys s b e = (
    schedule_lem
        (λ operation metadata. batch_key topic operation params source (target ∷ targets) metadata)
        op params response bucket source (target ∷ targets) keys s e
        (λ k s. batch_key_lem topic _ bucket params source (target ∷ targets) _ k s b),
    schedule_lem
        (λ operation metadata key.
          each (per_backend_target topic operation params source metadata key) (target ∷ targets))
        op params response bucket source (target ∷ targets) keys s e
        (λ k s. targets_lem topic _ bucket params source (target ∷ targets) _ k s b),
  )
