-- ===== src/Strategies/Writes.antt =====
-- A write tries the backends in turn; every attempt has the whole body.
use s3mer.Base.{ℕ, ◌≡◌, ◌≢◌, refl, Bool, true, false, Option, none, some, List, [], ◌∷◌, All}
use s3mer.Value.{Params}
use s3mer.Operations.{S3Operation}
use s3mer.Errors.{Exn, ErrorAction, fail, retry, fallback, classify, runtime_error}
use s3mer.Exec.{Result, ok, raised}
use s3mer.Env.{Env}
use s3mer.Pool.{Client, exn}
use s3mer.Node.{Node, execute}
use s3mer.Strategies.{write_to, last_error, rewind, wrap_body}
use s3mer.Strategies.Bodies.{
  ReadsForward, IsFresh, IsKept, IsServed, execute_lem, rewind-IsFresh, wrap_body-IsFresh,
}
use s3mer.Streaming.Bytes.{Bytes}

abbrev pub error_of : Option Exn → Exn
error_of none = exn runtime_error "No backends succeeded for write operation"
error_of (some e) = e

module _ {env : Env} (source : Option (List Bytes)) (op : S3Operation) (params : Params) where
  Fresh : Node env → Type 0
  Fresh s = elim source [ none ↦ Unit | some chunks ↦ IsFresh chunks s ]

  Kept : Node env → Type 0
  Kept s = elim source [ none ↦ Unit | some chunks ↦ IsKept chunks s ]

  -- a streamed body is read from its first byte
  pub Served : Client → Node env → Type 0
  Served c s = elim source [ none ↦ Unit | some chunks ↦ IsServed chunks c op params s ]

  -- What the loop may do; `first` says that no backend was tried yet.
  pub data Outcome
      : Bool
        → List Client
        → Option Exn
        → Node env
        → Result (Params × Client) × Node env
        → Type 0 where
    -- no backend is left: the last error
    exhausted :
        (first : Bool) (last : Option Exn) (s : Node env)
        → Outcome first [] last s (raised (error_of last), s)
    -- the backend accepts the write, and no other is tried
    accepted :
        (first : Bool) (c : Client) (cs : List Client) (last : Option Exn) (s s' : Node env)
        → (response : Params) → Served c (rewind first s)
        → execute c op params (rewind first s) ≡ (ok response, s')
        → Outcome first (c ∷ cs) last s (ok (response, c), s')
    -- an error that no other backend can mend is raised at once
    rejected :
        (first : Bool) (c : Client) (cs : List Client) (last : Option Exn) (s s' : Node env)
        (e : Exn)
        → Served c (rewind first s)
        → execute c op params (rewind first s) ≡ (raised e, s')
        → classify e ≡ fail
        → Outcome first (c ∷ cs) last s (raised e, s')
    -- after another error the next backends are tried
    skipped :
        (first : Bool) (c : Client) (cs : List Client) (last : Option Exn) (s s' : Node env)
        (e : Exn)
        → (end : Result (Params × Client) × Node env) → Served c (rewind first s)
        → execute c op params (rewind first s) ≡ (raised e, s')
        → classify e ≢ fail
        → Outcome false cs (some e) s' end
        → Outcome first (c ∷ cs) last s end

  exhausted-write :
      (first : Bool) (last : Option Exn) (s : Node env)
      → Outcome first [] last s (write_to op params first [] last s)
  unfolding write_to last_error
  exhausted-write first none s = exhausted first none s
  exhausted-write first (some e) s = exhausted first (some e) s

  after_error :
      (action : ErrorAction) (first : Bool) (c : Client) (cs : List Client) (last : Option Exn)
      → (s s' : Node env) (e : Exn)
      → ((e : Exn) (s : Node env)
          → Kept s
          → Outcome false cs (some e) s (write_to op params false cs (some e) s))
      → Served c (rewind first s)
      → execute c op params (rewind first s) ≡ (raised e, s')
      → Kept s'
      → classify e ≡ action
      → Outcome first
          (c ∷ cs)
          last
          s
          (elim action [ fail ↦ (raised e, s') | _ ↦ write_to op params false cs (some e) s' ])
  after_error fail first c cs last s s' e next served h kept a =
      rejected first c cs last s s' e served h a
  after_error retry first c cs last s s' e next served h kept a =
      skipped first c cs last s s' e _ served h (λ f. cc) (next e s' kept)
  after_error fallback first c cs last s s' e next served h kept a =
      skipped first c cs last s s' e _ served h (λ f. cc) (next e s' kept)

  after_one :
      (first : Bool) (c : Client) (cs : List Client) (last : Option Exn) (s : Node env)
      → (r : Result Params × Node env)
      → ((e : Exn) (s : Node env)
          → Kept s
          → Outcome false cs (some e) s (write_to op params false cs (some e) s))
      → Served c (rewind first s)
      → execute c op params (rewind first s) ≡ r
      → Kept r.1
      → Outcome first (c ∷ cs) last s (elim r.0 [
        | ok response ↦ (ok (response, c), r.1)
        | raised e ↦ elim (classify e) [
          | fail ↦ (raised e, r.1)
          | _ ↦ write_to op params false cs (some e) r.1
        ]
      ])
  after_one first c cs last s (ok response, s') next served h kept =
      accepted first c cs last s s' response served h
  after_one first c cs last s (raised e, s') next served h kept =
      after_error (classify e) first c cs last s s' e next served h kept refl

module _ {env : Env} (op : S3Operation) (params : Params) where
  attempt_lem :
      (source : Option (List Bytes)) (c : Client) (s : Node env)
      → ReadsForward env
      → Fresh source op params s
      → Served source op params c s × Kept source op params (execute c op params s).1
  unfolding Fresh Served Kept
  attempt_lem none c s forward fresh = (tt, tt)
  attempt_lem (some chunks) c s forward fresh = execute_lem chunks c op params s forward fresh

  rewind_lem :
      (source : Option (List Bytes)) (s : Node env)
      → Kept source op params s
      → Fresh source op params (rewind false s)
  unfolding Kept Fresh
  rewind_lem none s kept = tt
  rewind_lem (some chunks) s kept = rewind-IsFresh chunks s kept

  write_keeps :
      (source : Option (List Bytes)) (first : Bool) (cs : List Client) (last : Option Exn)
      → (s : Node env) → ReadsForward env
      → Fresh source op params (rewind first s)
      → Outcome source op params first cs last s (write_to op params first cs last s)
  unfolding write_to
  write_keeps source first [] last s forward fresh = exhausted-write source op params first last s
  write_keeps source first (c ∷ cs) last s forward fresh =
      let one = attempt_lem source c (rewind first s) forward fresh in
      after_one source op params first c cs last s (execute c op params (rewind first s))
        (λ e s' kept. write_keeps source false cs (some e) s' forward (rewind_lem source s' kept))
        one.0 refl one.1

  start_lem :
      (source : Option (List Bytes)) (size : ℕ) (s : Node env)
      → ((chunks : List Bytes) → source ≡ some chunks → All (λ c. c ≢ []) chunks)
      → Fresh source op params (rewind true (wrap_body source size s))
  unfolding Fresh rewind
  start_lem none size s h = tt
  start_lem (some chunks) size s h = wrap_body-IsFresh chunks size s (h chunks refl)

  -- A write tries the candidates in the order of the list until one accepts it, goes on after
  -- every error but one that is classified as FAIL, which it raises at once, and raises the last
  -- error if none accepts. Each backend that it tries is served a streamed body from its first
  -- byte, whatever the backends before it have read of it. The chunks of a stream are not empty and the client
  -- library asks for positive sizes.
  pub write_to-Outcome :
      (source : Option (List Bytes)) (size : ℕ) (cs : List Client) (s : Node env)
      → ReadsForward env
      → ((chunks : List Bytes) → source ≡ some chunks → All (λ c. c ≢ []) chunks)
      → let start = wrap_body source size s in
        Outcome source op params true cs none start (write_to op params true cs none start)
  write_to-Outcome source size cs s forward h =
      write_keeps source true cs none (wrap_body source size s) forward (start_lem source size s h)
