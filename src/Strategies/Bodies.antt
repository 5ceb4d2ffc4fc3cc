-- ===== src/Strategies/Bodies.antt =====
-- The streamed body of a request over several attempts of a write.
use s3mer.Base.{
  ℕ, String, ◌≡◌, ◌≢◌, refl, ◌∙◌, Bool, true, false, some, List, [], ◌++◌, concat, All,
}
use s3mer.Value.{Params}
use s3mer.Operations.{S3Operation}
use s3mer.Exec.{Result, ok, raised}
use s3mer.Env.{Env}
use s3mer.Pool.{Client}
use s3mer.Node.{Node, execute, consume, invoke, settle, record_success, record_failure}
use s3mer.Strategies.{rewind, wrap_body}
use s3mer.Streaming.Bytes.{Bytes}
use s3mer.Streaming.Buffered
use s3mer.Streaming.Buffered.{Buffered}
use s3mer.Streaming.Buffered.Replay.{
  IsValid, whole, ahead, reads, reads_lem, IsPositive, init-IsValid, seek_to_start-IsValid,
}

-- The client library asks for a positive number of bytes, or for all.
abbrev pub ReadsForward : Env → Type 0
ReadsForward env =
    (name : String) (op : S3Operation) (params : Params) (b : Buffered) (w : env.World)
    → All IsPositive (env.body_reads name op params b w)

module _ {env : Env} (source : List Bytes) where
  -- The body of the request is this stream, not yet read in this attempt.
  pub record IsFresh (s : Node env) : Type 0 where
    pub stream : Buffered
    pub is_body : s.body ≡ some stream
    pub valid : IsValid stream
    pub from_first : ahead stream ≡ concat source
    pub complete : whole stream ≡ concat source

  -- The body of the request is this stream, read up to any point.
  pub record IsKept (s : Node env) : Type 0 where
    pub stream : Buffered
    pub is_body : s.body ≡ some stream
    pub valid : IsValid stream
    pub complete : whole stream ≡ concat source

  -- What a backend reads in this state is the beginning of the body: what is ahead of the reads
  -- completes it.
  pub record IsServed (c : Client) (op : S3Operation) (params : Params) (s : Node env)
      : Type 0 where
    pub stream : Buffered
    pub is_body : (consume c.name op params s).1.body ≡ some stream
    pub from_first : concat (consume c.name op params s).0 ++ ahead stream ≡ concat source

  pub rewind-IsFresh : (s : Node env) → IsKept s → IsFresh (rewind false s)
  unfolding rewind Buffered.seek_to_start
  rewind-IsFresh s h = record {
    stream = Buffered.seek_to_start h.stream;
    is_body = rw h.is_body refl;
    valid = seek_to_start-IsValid h.stream h.valid;
    from_first = h.complete;
    complete = h.complete;
  }

  consume_lem :
      (c : Client) (op : S3Operation) (params : Params) (s : Node env)
      → ReadsForward env
      → IsFresh s
      → IsServed c op params s × IsKept (consume c.name op params s).1
  unfolding consume
  consume_lem c op params s forward h =
      let ns = env.body_reads c.name op params h.stream s.world in
      let all = reads_lem ns h.stream (forward c.name op params h.stream s.world) h.valid in
      let end = (reads ns h.stream).1 in
      (
        record {
          stream = end;
          is_body = rw h.is_body refl;
          from_first = rw h.is_body (all.1 ∙ h.from_first);
        },
        record {
          stream = end;
          is_body = rw h.is_body refl;
          valid = all.0;
          complete = all.2 ∙ h.complete;
        },
      )

  settle-IsKept :
      (name : String) (op : S3Operation) (r : Result Params) (s : Node env)
      → IsKept s
      → IsKept (settle name op r s).1
  unfolding settle record_success record_failure
  settle-IsKept name op (ok response) s h = record {
    stream = h.stream;
    is_body = h.is_body;
    valid = h.valid;
    complete = h.complete;
  }
  settle-IsKept name op (raised e) s h = record {
    stream = h.stream;
    is_body = h.is_body;
    valid = h.valid;
    complete = h.complete;
  }

  invoke-IsKept :
      (c : Client) (op : S3Operation) (params : Params) (s : Node env)
      → IsKept (consume c.name op params s).1
      → IsKept (invoke c.name op params s).1
  unfolding invoke
  invoke-IsKept c op params s h = record {
    stream = h.stream;
    is_body = h.is_body;
    valid = h.valid;
    complete = h.complete;
  }

  execute_if :
      (c : Client) (op : S3Operation) (params : Params) (s : Node env) (started : Bool)
      → c.started ≡ started
      → IsKept s
      → IsKept (consume c.name op params s).1
      → IsKept (execute c op params s).1
  unfolding execute
  execute_if c op params s true e kept h = rw e (
      settle-IsKept c.name op (invoke c.name op params s).0 (invoke c.name op params s).1
        (invoke-IsKept c op params s h))
  execute_if c op params s false e kept h = rw e kept

  -- An attempt on a fresh body serves the backend from the first byte and keeps the body whole.
  pub execute_lem :
      (c : Client) (op : S3Operation) (params : Params) (s : Node env)
      → ReadsForward env
      → IsFresh s
      → IsServed c op params s × IsKept (execute c op params s).1
  execute_lem c op params s forward h =
      let served = consume_lem c op params s forward h in
      let kept : IsKept s = record {
        stream = h.stream;
        is_body = h.is_body;
        valid = h.valid;
        complete = h.complete;
      } in
      (served.0, execute_if c op params s c.started refl kept served.1)

  pub wrap_body-IsFresh :
      (size : ℕ) (s : Node env)
      → All (λ c. c ≢ []) source
      → IsFresh (wrap_body (some source) size s)
  unfolding wrap_body Buffered.init
  wrap_body-IsFresh size s h = record {
    stream = Buffered.init source size;
    is_body = refl;
    valid = init-IsValid source size h;
    from_first = refl;
    complete = refl;
  }
