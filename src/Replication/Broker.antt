-- ===== src/Replication/Broker.antt =====
-- The replication tasks in what a broker was given.
use s3mer.Base.{String, ◌≡◌, refl, Option, none, some, List, [], ◌∷◌, ◌++◌, map}
use mathlib.Core.List.{append_assoc}
use s3mer.Value.{Value, null, str, Params}
use s3mer.Exec.{ok}
use s3mer.Env.{Env}
use s3mer.Message.{ReplicationMessage, Publication, Payload, replication, dead_letter}

-- One object, or bucket, to be copied to one backend.
pub record Task : Type 0 where
  pub operation : String
  pub bucket : String
  pub key : Option String
  pub source : String
  pub target : String
  pub metadata : Params

abbrev pub task_for : ReplicationMessage → String → Task
task_for m target = record {
  operation = m.operation;
  bucket = m.bucket;
  key = m.key;
  source = m.source_backend;
  target = target;
  metadata = m.metadata;
}

abbrev pub tasks_in : Payload → List Task
tasks_in (replication m) = map (task_for m) m.target_backends
tasks_in (dead_letter d) = []

unfoldable pub tasks_of : List Publication → List Task
tasks_of [] = []
tasks_of (p ∷ ps) = tasks_in p.payload ++ tasks_of ps

pub tasks_of-append : (ps qs : List Publication) → tasks_of (ps ++ qs) ≡ tasks_of ps ++ tasks_of qs
unfolding tasks_of
tasks_of-append [] qs = refl
tasks_of-append (p ∷ ps) qs = rw (tasks_of-append ps qs, append_assoc) refl

-- A broker that takes what it is given and keeps it in order, as an acknowledged `publish` does.
pub record Accepts (env : Env) : Type 0 where
  pub log : env.World → List Publication
  pub accepts : (p : Publication) (w : env.World) → (env.publish p w).0 ≡ ok tt
  pub logs : (p : Publication) (w : env.World) → log (env.publish p w).1 ≡ log w ++ (p ∷ [])
  pub keeps : (w : env.World) → log (env.uuid w).1 ≡ log w

-- the value of a key in the dictionaries of the S3 client
abbrev pub key_value : Option String → Value
key_value none = null
key_value (some k) = str k

abbrev pub task : String → String → String → Params → Option String → String → Task
task operation bucket source metadata key target = record {
  operation = operation;
  bucket = bucket;
  key = key;
  source = source;
  target = target;
  metadata = metadata;
}

-- every key for every target
unfoldable pub all_tasks :
    String → String → String → Params → List String → List (Option String) → List Task
all_tasks operation bucket source metadata targets [] = []
all_tasks operation bucket source metadata targets (k ∷ ks) =
    map (task operation bucket source metadata k) targets
    ++ all_tasks operation bucket source metadata targets ks
