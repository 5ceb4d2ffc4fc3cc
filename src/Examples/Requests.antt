-- ===== src/Examples/Requests.antt =====
-- Requests on two backends, of which the primary is down.
use s3mer.Base.{arith, subst, ◌≡◌, ◌≢◌, refl, true, none, some, List, [], ◌∷◌, All}
use s3mer.Dict
use s3mer.Operations
use s3mer.Operations.{get_object, put_object}
use s3mer.Errors.{timeout_error, classify}
use s3mer.Errors.Classification.{classify-exception_action, exception_action}
use s3mer.Pool.{exn}
use s3mer.Strategies.{read_from, write_to, wrap_body}
use s3mer.Strategies.Reads
use s3mer.Strategies.Reads.{read_from-Outcome}
use s3mer.Strategies.Bodies.{ReadsForward}
use s3mer.Strategies.Writes
use s3mer.Strategies.Writes.{write_to-Outcome}
use s3mer.Streaming.Bytes.{Bytes}
use s3mer.Replication.Extraction.{map_operation, extract_keys, build_metadata}
use s3mer.Replication.Publishing.{batch_schedule_replication, per_backend_schedule_replication}
use s3mer.Replication.Broker.{Accepts, all_tasks}
use s3mer.Replication.Tasks.{Sends, schedule_replication-tasks}
use s3mer.Examples.{env, a, b, node, params}

read_from-Outcome_example :
    Reads.Outcome get_object params
      (a ∷ b ∷ [])
      none
      node
      (read_from get_object params (a ∷ b ∷ []) none node)
read_from-Outcome_example = read_from-Outcome get_object params (a ∷ b ∷ []) none node

forward : ReadsForward env
forward name op ps r w = (omega arith, tt)

abbrev chunks : List Bytes
chunks = (1 ∷ 2 ∷ 3 ∷ []) ∷ (4 ∷ []) ∷ []

full : (cs : List Bytes) → some chunks ≡ some cs → All (λ c. c ≢ []) cs
full cs h =
    subst (λ o. elim o [ none ↦ Unit {0} | some cs ↦ All (λ c. c ≢ []) cs ]) h
      ((λ e. cc), ((λ e. cc), tt))

write_to-Outcome_example :
    Writes.Outcome
      (some chunks)
      put_object
      params
      true
      (a ∷ b ∷ [])
      none
      (wrap_body (some chunks) 4 node)
      (write_to put_object params true (a ∷ b ∷ []) none (wrap_body (some chunks) 4 node))
write_to-Outcome_example =
    write_to-Outcome put_object params (some chunks) 4 (a ∷ b ∷ []) node forward full

broker : Accepts env
broker = record { log = λ w. w; accepts = λ p w. refl; logs = λ p w. refl; keeps = λ w. refl }

schedule_replication-tasks_example :
    Sends broker
      (batch_schedule_replication "replication" put_object params [] "b" ("a" ∷ "c" ∷ []))
      (all_tasks "put_object" "photos" "b"
        (build_metadata params [])
        ("a" ∷ "c" ∷ [])
        (some "cat" ∷ []))
      node
    × Sends broker
        (per_backend_schedule_replication "replication" put_object params [] "b" ("a" ∷ "c" ∷ []))
        (all_tasks "put_object" "photos" "b"
          (build_metadata params [])
          ("a" ∷ "c" ∷ [])
          (some "cat" ∷ []))
        node
unfolding Dict.get extract_keys Operations.is_bucket_level map_operation Operations.value
schedule_replication-tasks_example =
    schedule_replication-tasks broker "replication" put_object params [] "photos" "b" "a" ("c" ∷ [])
      (some "cat" ∷ []) node refl refl

classify-exception_action_example :
    classify (exn timeout_error "read") ≡ exception_action (exn timeout_error "read")
classify-exception_action_example = classify-exception_action (exn timeout_error "read")
