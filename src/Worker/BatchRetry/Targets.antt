-- ===== src/Worker/BatchRetry/Targets.antt =====
-- What the retry of a batch does for each target, and what one pass over the targets leaves.
use s3mer.Base.{
  subst, String, ◌≡◌, refl, sym, ap, ◌∙◌, Bool, true, false, Option, none, some, List, [], ◌∷◌,
}
use s3mer.Operations.{S3Operation}
use s3mer.Errors.{Exn, ErrorAction, fail, retry, fallback, classify}
use s3mer.Exec.{answer_eq, raised_not_ok, Result, ok, raised, bind_ok_at, pure, ◌>>=◌}
use s3mer.Env.{Env}
use s3mer.Message.{TopicPartition}
use s3mer.Node.{Node, metric, replication_retry}
use s3mer.Pool
use s3mer.Pool.{Client}
use s3mer.Worker.DeadLetters.{Origin, record_skip}
use s3mer.Worker.Executor.{RetryConfig}
use s3mer.Worker.Skips.{Skips, record_skip-Skips, Served, nobody, done_with, left_over}
use s3mer.Worker.Subscriber.Verdicts.{retry_not_fail, fallback_not_fail}
use s3mer.Worker.BatchRetry.{
  bury_all, replicate_to, after_failure, after_copy, retry_client, retry_target, keep_failed,
  retry_all,
}

module _ (env : Env) (config : RetryConfig) (o : Origin) (op : S3Operation) (source : Client)
    (assigned : List TopicPartition) where
  -- the state in which the retry of the target is counted
  abbrev pub tried : String → Node env → Node env
  tried name s = record s { metrics = replication_retry o.message.operation name ∷ s.metrics }

  -- From the state `s` to the state `end` this target was dealt with: the retry is counted, and it was copied
  -- to, or the copy failed for good and this was recorded.
  pub data Done (name : String) (s end : Node env) : Type 0 where
    copied :
        (target : Client)
        → Pool.get name s.pool ≡ some target
        → replicate_to config o op source assigned target name (tried name s) ≡ (ok tt, end)
        → Done name s end
    failed_for_good :
        (target : Client) (e : Exn) (mid : Node env)
        → Pool.get name s.pool ≡ some target
        → replicate_to config o op source assigned target name (tried name s) ≡ (raised e, mid)
        → classify e ≡ fail
        → Skips o name "skipped_permanent" (some e.text) mid end
        → Done name s end

  -- The copy to it failed again, and may yet succeed.
  pub data Failed (name : String) (s end : Node env) : Type 0 where
    failed :
        (target : Client) (e : Exn)
        → Pool.get name s.pool ≡ some target
        → replicate_to config o op source assigned target name (tried name s) ≡ (raised e, end)
        → (classify e ≡ fail → ⊥)
        → Failed name s end

  -- The target was given up after the last retry.
  pub data GivenUp (name : String) (s end : Node env) : Type 0 where
    given_up : Skips o name "skipped_max_retries" none s end → GivenUp name s end

  -- One pass over the targets, which leaves the second list of them for the next round.
  abbrev pub Tries : List String → List String → Node env → Node env → Type 0
  Tries ts left s end = Served Done Failed ts left s end

  -- All targets were given up, one after the other.
  abbrev pub Buries : List String → Node env → Node env → Type 0
  Buries ts s end = Served GivenUp Failed ts [] s end

  pub bury_all-Served :
      (ts : List String) (s end : Node env)
      → bury_all config o op source assigned ts s ≡ (ok tt, end)
      → Buries ts s end
  unfolding bury_all
  bury_all-Served [] s end e = subst (Served GivenUp Failed [] [] s) (ap (λ r. r.1) e) (nobody s)
  bury_all-Served (t ∷ ts) s end e =
      let (u, (mid, (first, rest))) =
        bind_ok_at (record_skip o t "skipped_max_retries" none)
          (λ u. bury_all config o op source assigned ts) s tt end e in
      done_with t ts [] s mid end
        (given_up (record_skip-Skips o t "skipped_max_retries" none s mid refl first))
        (bury_all-Served ts mid end rest)

  -- what the answer of `retry_target` says
  Says : String → Node env → Bool → Node env → Type 0
  Says name s true end = Failed name s end
  Says name s false end = Done name s end

  failure-Says :
      (name : String) (target : Client) (e : Exn) (action : ErrorAction) (s mid end : Node env)
      (b : Bool)
      → Pool.get name s.pool ≡ some target
      → replicate_to config o op source assigned target name (tried name s) ≡ (raised e, mid)
      → classify e ≡ action
      → after_failure config o op source assigned name e mid ≡ (ok b, end)
      → Says name s b end
  unfolding after_failure Says
  failure-Says name target e fail s mid end b known ran a =
      rw (after_failure, a)
        (λ h.
          let (u, (after, (first, rest))) =
            bind_ok_at (record_skip o name "skipped_permanent" (some e.text)) (λ u. pure false) mid
              b end h in
          subst (λ (p : Bool × Node env). Says name s p.0 p.1) (answer_eq rest)
            (failed_for_good target e mid known ran a
              (record_skip-Skips o name "skipped_permanent" (some e.text) mid after refl first)))
  failure-Says name target e retry s mid end b known ran a =
      rw (after_failure, a)
        (λ h.
          subst (λ (p : Bool × Node env). Says name s p.0 p.1) (answer_eq h)
            (failed target e known ran (λ f. retry_not_fail (sym a ∙ f))))
  failure-Says name target e fallback s mid end b known ran a =
      rw (after_failure, a)
        (λ h.
          subst (λ (p : Bool × Node env). Says name s p.0 p.1) (answer_eq h)
            (failed target e known ran (λ f. fallback_not_fail (sym a ∙ f))))

  copy-Says :
      (name : String) (target : Client) (s end : Node env) (b : Bool)
      (r : Result (Unit {0}) × Node env)
      → Pool.get name s.pool ≡ some target
      → replicate_to config o op source assigned target name (tried name s) ≡ r
      → after_copy config o op source assigned name r.0 r.1 ≡ (ok b, end)
      → Says name s b end
  unfolding after_copy Says
  copy-Says name target s end b (ok u, mid) known ran h =
      subst (λ (p : Bool × Node env). Says name s p.0 p.1) (answer_eq h) (copied target known ran)
  copy-Says name target s end b (raised x, mid) known ran h =
      failure-Says name target x (classify x) s mid end b known ran refl h

  client-Says :
      (name : String) (c : Option Client) (s end : Node env) (b : Bool)
      → Pool.get name s.pool ≡ c
      → retry_client config o op source assigned name c (tried name s) ≡ (ok b, end)
      → Says name s b end
  unfolding retry_client
  client-Says name none s end b known h = absurd (raised_not_ok (ap (λ r. r.0) h))
  client-Says name (some target) s end b known h = copy-Says name target s end b _ known refl h

  target-Says :
      (name : String) (s end : Node env) (b : Bool)
      → retry_target config o op source assigned name s ≡ (ok b, end)
      → Says name s b end
  unfolding retry_target metric
  target-Says name s end b h = client-Says name _ s end b refl h

  kept-Served :
      (name : String) (failing : Bool) (names rest : List String) (s mid end : Node env)
      → Says name s failing mid
      → Served Done Failed names rest mid end
      → Served Done Failed (name ∷ names) (keep_failed name failing rest) s end
  unfolding Says keep_failed
  kept-Served name true names rest s mid end h hs = left_over name names rest s mid end h hs
  kept-Served name false names rest s mid end h hs = done_with name names rest s mid end h hs

  pub retry_all-Served :
      (ts left : List String) (s end : Node env)
      → retry_all config o op source assigned ts s ≡ (ok left, end)
      → Tries ts left s end
  unfolding retry_all
  retry_all-Served [] left s end e =
      subst (λ (p : List String × Node env). Served Done Failed [] p.0 s p.1) (answer_eq e)
        (nobody s)
  retry_all-Served (t ∷ ts) left s end e =
      let (failing, (mid, (first, more))) =
        bind_ok_at (retry_target config o op source assigned t)
          (λ failing.
            retry_all config o op source assigned ts >>= λ rest. pure (keep_failed t failing rest))
          s left end e in
      let (rest, (after, (second, last))) =
        bind_ok_at (retry_all config o op source assigned ts)
          (λ rest. pure (keep_failed t failing rest)) mid left end more in
      subst (λ (p : List String × Node env). Served Done Failed (t ∷ ts) p.0 s p.1) (answer_eq last)
        (kept-Served t failing ts rest s mid after (target-Says t s mid failing first)
          (retry_all-Served ts rest mid after second))
