-- ===== src/Examples/Workers.antt =====
-- A worker that deletes an object on a backend that is down.
use s3mer.Base.{[], ◌∷◌, ◌≢◌, refl, none, some, ◌+◌}
use s3mer.Operations.{delete_object}
use s3mer.Dict
use s3mer.Pool
use s3mer.Worker.BatchSubscriber.{BatchTask, batch_origin}
use s3mer.Worker.BatchSubscriber.Commits
use s3mer.Worker.BatchRetry
use s3mer.Worker.Retry.{schedule_per_backend_retry}
use s3mer.Worker.Retry.Bounds.{IsSteady, schedule_per_backend_retry-ends}
use s3mer.Worker.Subscriber.{Place, Handled}
use s3mer.Examples.{env, a, b, node, config, dlq, origin, message, place_tp, Node}

steady : IsSteady env
steady = record { present = λ w. refl; seeks = λ tp n w. refl; resumes = λ tps w. refl }

schedule_per_backend_retry-ends_example :
    (schedule_per_backend_retry config origin delete_object b a (2 + 1) node).0 ≢ none
schedule_per_backend_retry-ends_example =
    schedule_per_backend_retry-ends config origin delete_object b a node steady

abbrev place : Place
place = record { topic_partition = place_tp; offset = 7; request_id = none }

abbrev batch_task : BatchTask
batch_task = record {
  origin = batch_origin (some dlq) place (message "delete_object");
  operation = delete_object;
  source = b;
  failed_targets = "a" ∷ [];
  assigned = [];
}
