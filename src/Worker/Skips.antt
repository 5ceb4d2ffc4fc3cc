-- ===== src/Worker/Skips.antt =====
-- What the consumers record of a target that they do not copy to, and of the targets of a batch.
use Prim.Native.String.{◌++◌ as ◌^^◌}
use s3mer.Base.{
  String, ◌≡◌, refl, ap, subst, ◌⊎◌, inl, inr, Bool, true, false, Option, none, some, List, [], ◌∷◌,
}
use s3mer.Base.Texts.{str_mem}
use s3mer.Exec.{raised_not_ok, Result, ok, raised, continue}
use s3mer.Env.{Env}
use s3mer.Message.{Publication, dead_letter}
use s3mer.Node.{Node, metric, outside, replication_dlq, replication_consumer_outcome}
use s3mer.Worker.DeadLetters.{
  DlqPublisher, Origin, topic_for, key_or_empty, dead_outcomes, send, publish, bury, record_skip,
}

-- the publication of a dead letter
pub letter :
    {env : Env} → DlqPublisher → Origin → String → String → Option String → Node env → Publication
letter {env} dlq o target outcome error s = record {
  payload = dead_letter record {
    original_message = o.message;
    reason = outcome;
    error = error;
    target_backend = target;
    partition = o.topic_partition.partition;
    offset = o.offset;
    timestamp = env.now s.world;
  };
  topic = topic_for dlq target o.per_backend;
  partition_key = o.message.bucket ^^ ("/" ^^ key_or_empty o.message.key);
  request_id = none;
}

module _ {env : Env} (o : Origin) (target outcome : String) (error : Option String) where
  -- From the state `s` to the state `end` exactly this skip was recorded: its outcome is counted, and, if there is a queue that is
  -- enabled, a dead letter was published and counted.
  pub data Skips (s : Node env) : Node env → Type 0 where
    counted :
        (o.dlq ≡ none) ⊎ ((dlq : DlqPublisher) × ((o.dlq ≡ some dlq) × (dlq.enabled ≡ false)))
        → Skips s (record s {
          metrics = replication_consumer_outcome o.message.operation target outcome ∷ s.metrics;
        })
    buried :
        (dlq : DlqPublisher) (w : env.World)
        → o.dlq ≡ some dlq
        → dlq.enabled ≡ true
        → env.publish (letter dlq o target outcome error s) s.world ≡ (ok tt, w)
        → Skips s (record s {
          world = w;
          metrics =
              replication_dlq outcome
              ∷ replication_consumer_outcome o.message.operation target outcome
              ∷ s.metrics;
        })

  sent :
      (dlq : DlqPublisher) (s end : Node env) (r : Result (Unit {0}) × env.World)
      → o.dlq ≡ some dlq
      → dlq.enabled ≡ true
      → env.publish (letter dlq o target outcome error s) s.world ≡ r
      → continue {B = Unit {0}} r.0
          (λ u. metric (replication_dlq outcome))
          (record s {
            world = r.1;
            metrics = replication_consumer_outcome o.message.operation target outcome ∷ s.metrics;
          })
        ≡ (ok tt, end)
      → Skips s end
  unfolding metric
  sent dlq s end (raised e, w) known on published h = absurd (raised_not_ok (ap (λ r. r.0) h))
  sent dlq s end (ok u, w) known on published h =
      subst (Skips s) (ap (λ r. r.1) h) (buried dlq w known on published)

  by_switch :
      (dlq : DlqPublisher) (on : Bool) (s end : Node env)
      → o.dlq ≡ some dlq
      → dlq.enabled ≡ on
      → (let counted_state = record s {
        metrics = replication_consumer_outcome o.message.operation target outcome ∷ s.metrics;
      } in
          publish dlq
            record {
              original_message = o.message;
              reason = outcome;
              error = error;
              target_backend = target;
              partition = o.topic_partition.partition;
              offset = o.offset;
              timestamp = env.now s.world;
            }
            o.per_backend
            counted_state
          ≡ (ok tt, end))
      → Skips s end
  unfolding publish send outside metric letter
  by_switch dlq true s end known on = rw (publish, on) (λ h. sent dlq s end _ known on refl h)
  by_switch dlq false s end known off =
      rw (publish, off) (λ h. subst (Skips s) (ap (λ r. r.1) h) (counted (inr (dlq, (known, off)))))

  by_queue :
      (queue : Option DlqPublisher) (s end : Node env)
      → o.dlq ≡ queue
      → str_mem outcome dead_outcomes ≡ true
      → bury queue o target outcome error (record s {
        metrics = replication_consumer_outcome o.message.operation target outcome ∷ s.metrics;
      })
        ≡ (ok tt, end)
      → Skips s end
  unfolding bury
  by_queue none s end known dead h = subst (Skips s) (ap (λ r. r.1) h) (counted (inl known))
  by_queue (some dlq) s end known dead h = by_switch dlq dlq.enabled s end known refl (rw dead at h)

  pub record_skip-Skips :
      (s end : Node env)
      → str_mem outcome dead_outcomes ≡ true
      → record_skip o target outcome error s ≡ (ok tt, end)
      → Skips s end
  unfolding record_skip metric
  record_skip-Skips s end dead h = by_queue o.dlq s end refl dead h

-- What has become of the targets, one after the other: `Done` of those that need no retry, `Left` of the others, which are
-- in the second list.
pub data Served {env : Env} (Done Left : String → Node env → Node env → Type 0)
    : List String → List String → Node env → Node env → Type 0 where
  nobody : (s : Node env) → Served Done Left [] [] s s
  done_with :
      (name : String) (names left : List String) (s mid end : Node env)
      → Done name s mid
      → Served Done Left names left mid end
      → Served Done Left (name ∷ names) left s end
  left_over :
      (name : String) (names left : List String) (s mid end : Node env)
      → Left name s mid
      → Served Done Left names left mid end
      → Served Done Left (name ∷ names) (name ∷ left) s end
