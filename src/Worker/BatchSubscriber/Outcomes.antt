-- ===== src/Worker/BatchSubscriber/Outcomes.antt =====
-- What the consumer of batches has done for each target.
use Prim.Native.String.{◌++◌ as ◌^^◌}
use s3mer.Base.{
  String, ◌≡◌, refl, sym, ◌∙◌, subst, Bool, true, false, Option, none, some, List, [], ◌∷◌,
}
use s3mer.Operations.{S3Operation}
use s3mer.Errors.{Exn, ErrorAction, fail, retry, fallback, classify}
use s3mer.Exec.{Result, ok, raised, bind_ok_at, pure, ◌>>=◌, answer_eq}
use s3mer.Env.{Env}
use s3mer.Node.{Node}
use s3mer.Pool
use s3mer.Pool.{Client}
use s3mer.Worker.DeadLetters.{Origin, record_skip}
use s3mer.Worker.Executor.{RetryConfig}
use s3mer.Worker.Skips.{Skips, record_skip-Skips, Served, nobody, done_with, left_over}
use s3mer.Worker.Subscriber.Verdicts.{retry_not_fail, fallback_not_fail}
use s3mer.Worker.BatchRetry.{keep_failed}
use s3mer.Worker.BatchSubscriber.{
  replicate_to, after_failure, after_copy, serve_client, serve, serve_all,
}

module _ (env : Env) (config : RetryConfig) (o : Origin) (op : S3Operation) (source : Client) where
  -- From the state `s` to the state `end` this target was dealt with: it was copied to, or it is no backend of
  -- the pool or the copy failed for good, and this was recorded.
  pub data Done (name : String) (s end : Node env) : Type 0 where
    copied :
        (target : Client)
        → Pool.get name s.pool ≡ some target
        → replicate_to config o op source target name s ≡ (ok tt, end)
        → Done name s end
    unknown_backend :
        Pool.get name s.pool ≡ none
        → Skips o name "skipped_poison" (some ("Unknown backend: " ^^ name)) s end
        → Done name s end
    failed_for_good :
        (target : Client) (e : Exn) (mid : Node env)
        → Pool.get name s.pool ≡ some target
        → replicate_to config o op source target name s ≡ (raised e, mid)
        → classify e ≡ fail
        → Skips o name "skipped_permanent" (some e.text) mid end
        → Done name s end

  -- The copy to it failed, and may yet succeed.
  pub data Failed (name : String) (s end : Node env) : Type 0 where
    failed :
        (target : Client) (e : Exn)
        → Pool.get name s.pool ≡ some target
        → replicate_to config o op source target name s ≡ (raised e, end)
        → (classify e ≡ fail → ⊥)
        → Failed name s end

  -- what the answer of `serve` says
  Says : String → Node env → Bool → Node env → Type 0
  Says name s true end = Failed name s end
  Says name s false end = Done name s end

  failure-Says :
      (name : String) (target : Client) (e : Exn) (action : ErrorAction) (s mid end : Node env)
      (b : Bool)
      → Pool.get name s.pool ≡ some target
      → replicate_to config o op source target name s ≡ (raised e, mid)
      → classify e ≡ action
      → after_failure config o op source name e mid ≡ (ok b, end)
      → Says name s b end
  unfolding after_failure Says
  failure-Says name target e fail s mid end b known ran a =
      rw (after_failure, a)
        (λ h.
          let (u, (after, (first, rest))) =
            bind_ok_at (record_skip o name "skipped_permanent" (some e.text)) (λ u. pure false) mid
              b end h in
          subst (λ (p : Bool × Node env). Says name s p.0 p.1) (answer_eq rest)
            (failed_for_good target e mid known ran a
              (record_skip-Skips o name "skipped_permanent" (some e.text) mid after refl first)))
  failure-Says name target e retry s mid end b known ran a =
      rw (after_failure, a)
        (λ h.
          subst (λ (p : Bool × Node env). Says name s p.0 p.1) (answer_eq h)
            (failed target e known ran (λ f. retry_not_fail (sym a ∙ f))))
  failure-Says name target e fallback s mid end b known ran a =
      rw (after_failure, a)
        (λ h.
          subst (λ (p : Bool × Node env). Says name s p.0 p.1) (answer_eq h)
            (failed target e known ran (λ f. fallback_not_fail (sym a ∙ f))))

  copy-Says :
      (name : String) (target : Client) (s end : Node env) (b : Bool)
      (r : Result (Unit {0}) × Node env)
      → Pool.get name s.pool ≡ some target
      → replicate_to config o op source target name s ≡ r
      → after_copy config o op source name r.0 r.1 ≡ (ok b, end)
      → Says name s b end
  unfolding after_copy Says
  copy-Says name target s end b (ok u, mid) known ran h =
      subst (λ (p : Bool × Node env). Says name s p.0 p.1) (answer_eq h) (copied target known ran)
  copy-Says name target s end b (raised x, mid) known ran h =
      failure-Says name target x (classify x) s mid end b known ran refl h

  client-Says :
      (name : String) (c : Option Client) (s end : Node env) (b : Bool)
      → Pool.get name s.pool ≡ c
      → serve_client config o op source name c s ≡ (ok b, end)
      → Says name s b end
  unfolding serve_client Says
  client-Says name none s end b known h =
      let (u, (after, (first, rest))) =
        bind_ok_at (record_skip o name "skipped_poison" (some ("Unknown backend: " ^^ name)))
          (λ u. pure false) s b end h in
      subst (λ (p : Bool × Node env). Says name s p.0 p.1) (answer_eq rest)
        (unknown_backend known (
          record_skip-Skips o name "skipped_poison" (some ("Unknown backend: " ^^ name)) s after
            refl first))
  client-Says name (some target) s end b known h = copy-Says name target s end b _ known refl h

  kept-Served :
      (name : String) (failing : Bool) (names rest : List String) (s mid end : Node env)
      → Says name s failing mid
      → Served Done Failed names rest mid end
      → Served Done Failed (name ∷ names) (keep_failed name failing rest) s end
  unfolding Says keep_failed
  kept-Served name true names rest s mid end h hs = left_over name names rest s mid end h hs
  kept-Served name false names rest s mid end h hs = done_with name names rest s mid end h hs

  pub serve_all-Served :
      (ts left : List String) (s end : Node env)
      → serve_all config o op source ts s ≡ (ok left, end)
      → Served Done Failed ts left s end
  unfolding serve_all serve
  serve_all-Served [] left s end e =
      subst (λ (p : List String × Node env). Served Done Failed [] p.0 s p.1) (answer_eq e)
        (nobody s)
  serve_all-Served (t ∷ ts) left s end e =
      let (failing, (mid, (first, more))) =
        bind_ok_at (serve config o op source t)
          (λ failing. serve_all config o op source ts >>= λ rest. pure (keep_failed t failing rest))
          s left end e in
      let (rest, (after, (second, last))) =
        bind_ok_at (serve_all config o op source ts) (λ rest. pure (keep_failed t failing rest)) mid
          left end more in
      subst (λ (p : List String × Node env). Served Done Failed (t ∷ ts) p.0 s p.1) (answer_eq last)
        (kept-Served t failing ts rest s mid after (client-Says t _ s mid failing refl first)
          (serve_all-Served ts rest mid after second))
