-- ===== src/Sync/Writes/Decisions.antt =====
-- What the simple and the quorum strategy return.
use s3mer.Base.{
  ℕ, ◌+◌, ◌≤◌, ◌<◌, ◌≡◌, refl, sym, ap, Bool, false, Option, none, List, [], ◌∷◌, length, arith,
  if◌then◌else◌, subst,
}
use s3mer.Operations
use s3mer.Operations.{S3Operation}
use s3mer.Exec.{Result, ok, raised, continue, done, pure, ◌>>◌, Exec}
use s3mer.Node.{Node, of_result}
use s3mer.Sync.{SyncExecutionResult, SyncConfig, resolve_sync_backends, Params, Exn, Client}
use s3mer.Sync.Writes.{
  same_params, run_concurrent, body_of, judge, answer, simple_write, quorum_write,
  schedule_async_fill, Env, Scheduler, Node, of_result, Bytes, reject_multipart_if_disabled,
}
use s3mer.Sync.Writes.Totality.{Total, run_concurrent-ok}
use s3mer.Sync.Writes.Quorum.{Preferred, Verdict, accepted, refused, judge-Verdict}
use s3mer.Sync.Writes.Fanout.{FanOut, FanOut-length, content}

same_params-Total : (op : S3Operation) (params : Params) → Total (λ c. same_params c op params none)
unfolding Total same_params
same_params-Total op params c = (params, refl)

module _ {env : Env} (schedule : Scheduler env) (config : SyncConfig) (op : S3Operation)
    (params : Params) where
  -- the fill-in that follows an accepted write, and the response
  pub then_fill : Bool → SyncExecutionResult → Params → Exec (Node env) Params
  then_fill replicate all response =
      (if replicate
        then schedule_async_fill schedule config op params response all.successes
        else done)
      >> pure response

  -- How a write ends in the state after its calls.
  pub data Decision (replicate : Bool) (all : SyncExecutionResult) (end : Node env)
      : Result Params × Node env → Type 0 where
    enough :
        (response : Params)
        → config.sync_quorum ≤ length all.successes
        → Preferred config.response_backend all.successes response
        → Decision replicate all end (then_fill replicate all response end)
    too_few :
        (e : Exn)
        → length all.successes < config.sync_quorum
        → Preferred none all.failures e
        → Decision replicate all end (raised e, end)

  judged :
      (replicate : Bool) (all : SyncExecutionResult) (end : Node env) (r : Result Params)
      → judge config config.sync_quorum all ≡ r
      → answer schedule config op params replicate all end
        ≡ continue {B = Params} r (then_fill replicate all) end
  unfolding answer of_result then_fill
  judged replicate all end r e = ap (λ x. continue {B = Params} x (then_fill replicate all) end) e

  answer-Decision :
      (replicate : Bool) (all : SyncExecutionResult) (end : Node env) (r : Result Params)
      → Verdict config config.sync_quorum all r
      → judge config config.sync_quorum all ≡ r
      → Decision replicate all end (answer schedule config op params replicate all end)
  answer-Decision replicate all end _ (accepted response q h) e =
      subst (Decision replicate all end) (sym (judged replicate all end _ e)) (enough response q h)
  answer-Decision replicate all end _ (refused x q h) e =
      subst (Decision replicate all end) (sym (judged replicate all end _ e)) (too_few x q h)

  after_calls :
      (source : Option (List Bytes)) (replicate : Bool) (s end : Node env)
      (all : SyncExecutionResult)
      → (used : List Client) → Operations.is_multipart op ≡ false
      → run_concurrent same_params config op params source none s ≡ (ok (all, used), end)
      → quorum_write schedule config op params source replicate s
        ≡ answer schedule config op params replicate all end
  unfolding quorum_write reject_multipart_if_disabled of_result
  after_calls source replicate s end all used plain ran = rw plain (
      ap (λ r. continue {B = Params} r.0 (λ p. answer schedule config op params replicate p.0) r.1)
        ran)

  -- The quorum strategy, for an operation that is not of a multipart upload and backends that are known, with a
  -- quorum between one and their number: exactly one call is made on each backend that is started, and no other, and each
  -- backend is reported once by its answer; if at least the quorum accept the write, the response of the configured backend is returned, or that of the primary, or the
  -- first, after the fill-in of the other backends; if not, the error of the primary is raised,
  -- or the first error, in the state that the calls have left.
  pub quorum_write-Decision :
      (source : Option (List Bytes)) (replicate : Bool) (s : Node env) (c : Client)
      (cs : List Client)
      → Operations.is_multipart op ≡ false
      → resolve_sync_backends s.pool config.sync_backend_names ≡ ok (c ∷ cs)
      → 1 ≤ config.sync_quorum
      → config.sync_quorum ≤ length (c ∷ cs)
      → (all : SyncExecutionResult) × ((end : Node env) × (FanOut env op
              (λ b. ok params)
              (content (body_of params source))
              (c ∷ cs)
              all
              s
              end
            × Decision replicate all end
                (quorum_write schedule config op params source replicate s)))
  unfolding same_params
  quorum_write-Decision source replicate s c cs plain found low high =
      let (all, (end, (ran, out))) =
        run_concurrent-ok same_params config op params source none s c cs
          (same_params-Total op params) found in
      let verdict =
        judge-Verdict config config.sync_quorum all low
          (omega (arith, FanOut-length (c ∷ cs) all s end out)) in
      (
        all,
        (
          end,
          (
            out,
            subst (Decision replicate all end)
                (sym (after_calls source replicate s end all (c ∷ cs) plain ran))
                (answer-Decision replicate all end _ verdict refl),
          ),
        ),
      )

no_failures : {A : Type 0} (xs : List A) → length xs ≤ 0 → xs ≡ []
no_failures [] h = refl
no_failures (x ∷ xs) h = absurd (omega arith)

module _ {env : Env} (config : SyncConfig) (op : S3Operation) (params : Params) where
  simple_lem :
      (source : Option (List Bytes)) (s end : Node env) (all : SyncExecutionResult)
      (used : List Client)
      → Operations.is_multipart op ≡ false
      → resolve_sync_backends s.pool config.sync_backend_names ≡ ok used
      → run_concurrent same_params config op params source none s ≡ (ok (all, used), end)
      → simple_write config op params source s ≡ (judge config (length used) all, end)
  unfolding simple_write reject_multipart_if_disabled of_result
  simple_lem source s end all used plain found ran =
      rw (plain, found)
        (ap (λ r. continue {B = Params} r.0 (λ p. of_result (judge config (length used) p.0)) r.1)
          ran)

  -- How a write ends that all backends must accept.
  pub data AllOrError (all : SyncExecutionResult) (end : Node env)
      : Result Params × Node env → Type 0 where
    all_accepted :
        (response : Params)
        → all.failures ≡ []
        → Preferred config.response_backend all.successes response
        → AllOrError all end (ok response, end)
    some_failed : (e : Exn) → Preferred none all.failures e → AllOrError all end (raised e, end)

  Verdict-AllOrError :
      (n : ℕ) (all : SyncExecutionResult) (end : Node env) (r : Result Params)
      → length all.successes + length all.failures ≡ n
      → Verdict config n all r
      → AllOrError all end (r, end)
  Verdict-AllOrError n all end _ h (accepted response q p) =
      all_accepted response (no_failures all.failures (omega arith)) p
  Verdict-AllOrError n all end _ h (refused e q p) = some_failed e p

  -- The simple strategy, for an operation that is not of a multipart upload and backends that are
  -- known: exactly one call is made on each that is started, and no other, each is reported once by its answer, and the write is accepted only if all accept it; otherwise the error
  -- of the primary is raised, or the first error.
  pub simple_write-AllOrError :
      (source : Option (List Bytes)) (s : Node env) (c : Client) (cs : List Client)
      → Operations.is_multipart op ≡ false
      → resolve_sync_backends s.pool config.sync_backend_names ≡ ok (c ∷ cs)
      → (all : SyncExecutionResult) × ((end : Node env) × (FanOut env op
              (λ b. ok params)
              (content (body_of params source))
              (c ∷ cs)
              all
              s
              end
            × AllOrError all end (simple_write config op params source s)))
  unfolding same_params
  simple_write-AllOrError source s c cs plain found =
      let (all, (end, (ran, out))) =
        run_concurrent-ok same_params config op params source none s c cs
          (same_params-Total op params) found in
      let total = FanOut-length (c ∷ cs) all s end out in
      let verdict =
        judge-Verdict config (length (c ∷ cs)) all (omega arith) (omega (arith, total)) in
      (
        all,
        (
          end,
          (
            out,
            subst (AllOrError all end) (sym (simple_lem source s end all (c ∷ cs) plain found ran))
                (Verdict-AllOrError (length (c ∷ cs)) all end _ total verdict),
          ),
        ),
      )
