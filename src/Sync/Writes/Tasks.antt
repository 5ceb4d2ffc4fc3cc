-- ===== src/Sync/Writes/Tasks.antt =====
-- The call that each backend gets in a write to several backends.
use s3mer.Base.{
  ℕ, ◌≡◌, refl, sym, ◌⊎◌, inl, inr, Bool, true, false, Option, none, some, List, [], ◌∷◌, All,
  length, ◌++◌, subst, if◌then◌else◌,
}
use s3mer.Dict
use s3mer.Value.{object, Params}
use s3mer.Exec.{Result, ok, raised}
use s3mer.Pool.{Client}
use s3mer.Streaming.Bytes.{Bytes}
use s3mer.Streaming.Shared.{BodyReader, MultiSyncBodyBuffer, new_reader, open_reader}
use s3mer.Streaming.Shared.Readers.{ahead}
use s3mer.Streaming.Shared.Materialize.{Serves}
use s3mer.Sync.{prepend-ok}
use s3mer.Sync.Gather.{Task, waiting}
use s3mer.Sync.Writes.{given_reader, with_reader, task_for, tasks_for, task}

-- The task is the call of this backend with the parameters prepared for it; a `Body` that was buffered is replaced by a
-- reader of the whole body.
pub record IsTaskFor (prepare : Client → Result Params) (body : Bytes) (c : Client) (t : Task)
    : Type 0 where
  pub params : Params
  pub is_prepared : prepare c ≡ ok params
  pub is_client : t.client ≡ c
  pub is_new : t.stage ≡ waiting
  pub input :
      ((t.reader ≡ none) × (t.params ≡ params))
      ⊎ ((r : BodyReader) × ((n : ℕ) × ((t.reader ≡ some r)
              × (ahead r ≡ body)
              × (t.params ≡ Dict.put "Body" (object n) params))))

-- what a write has as its buffer, if any
unfoldable pub ServesIf : Option MultiSyncBodyBuffer → Bytes → Type 0
ServesIf none body = Unit
ServesIf (some b) body = Serves b body

Made : (Client → Result Params) → Bytes → Client → Result Task → Option MultiSyncBodyBuffer → Type 0
Made prepare body c (raised e) buffer = ServesIf buffer body
Made prepare body c (ok t) buffer = IsTaskFor prepare body c t × ServesIf buffer body

pub open_reader_lem :
    (b : MultiSyncBodyBuffer) (r : BodyReader)
    → new_reader b ≡ ok r
    → open_reader b ≡ (ok r, record b { readers = b.readers ++ (r ∷ []) })
unfolding open_reader
open_reader_lem b r e = rw (open_reader, e) refl

module _ (prepare : Client → Result Params) (body : Bytes) where
  task-IsTaskFor :
      (c : Client) (params : Params)
      → prepare c ≡ ok params
      → IsTaskFor prepare body c (task c params)
  task-IsTaskFor c params e = record {
    params = params;
    is_prepared = e;
    is_client = refl;
    is_new = refl;
    input = inl (refl, refl);
  }

  with_reader-Made :
      (c : Client) (params : Params) (b : MultiSyncBodyBuffer)
      → prepare c ≡ ok params
      → Serves b body
      → Made prepare body c (with_reader c params b).0 (some (with_reader c params b).1)
  unfolding Made ServesIf with_reader given_reader Serves new_reader
  with_reader-Made c params b e (r, (opens, whole)) =
      subst
        (λ p.
          Made prepare body c (given_reader c params (length b.readers) p).0
            (some (given_reader c params (length b.readers) p).1))
        (sym (open_reader_lem b r opens))
        (
          record {
            params = params;
            is_prepared = e;
            is_client = refl;
            is_new = refl;
            input = inr (r, (length b.readers, (refl, whole, refl)));
          },
          (r, (opens, whole)),
        )

  task_for-Made :
      (c : Client) (r : Result Params) (buffer : Option MultiSyncBodyBuffer)
      → prepare c ≡ r
      → ServesIf buffer body
      → Made prepare body c (task_for c r buffer).0 (task_for c r buffer).1
  unfolding Made ServesIf task_for
  task_for-Made c (raised x) buffer e h = h
  task_for-Made c (ok params) none e h = (task-IsTaskFor c params e, h)
  task_for-Made c (ok params) (some b) e h = either (Dict.contains "Body" params)
    where
      either :
          (has_body : Bool)
          → let pair : Result Task × Option MultiSyncBodyBuffer =
              (if has_body
                then ((with_reader c params b).0, some (with_reader c params b).1)
                else (ok (task c params), some b)) in
            Made prepare body c pair.0 pair.1
      either true = with_reader-Made c params b e h
      either false = (task-IsTaskFor c params e, h)

  -- The tasks are those of the backends, in their order.
  pub data Tasks : List Client → List Task → Type 0 where
    no_task : Tasks [] []
    one_more :
        (c : Client) (t : Task) (cs : List Client) (ts : List Task)
        → IsTaskFor prepare body c t
        → Tasks cs ts
        → Tasks (c ∷ cs) (t ∷ ts)

  Made-ok :
      (c : Client) (r : Result Task) (buffer : Option MultiSyncBodyBuffer) (t : Task)
      → r ≡ ok t
      → Made prepare body c r buffer
      → Made prepare body c (ok t) buffer
  Made-ok c r buffer t e h = subst (λ x. Made prepare body c x buffer) e h

  Made-ServesIf :
      (c : Client) (r : Result Task) (buffer : Option MultiSyncBodyBuffer)
      → Made prepare body c r buffer
      → ServesIf buffer body
  unfolding Made
  Made-ServesIf c (raised e) buffer h = h
  Made-ServesIf c (ok t) buffer h = h.1

  pub tasks_for-Tasks :
      (cs : List Client) (buffer : Option MultiSyncBodyBuffer) (ts : List Task)
      → ServesIf buffer body
      → tasks_for prepare cs buffer ≡ ok ts
      → Tasks cs ts
  unfolding tasks_for Made
  tasks_for-Tasks [] buffer [] h e = no_task
  tasks_for-Tasks [] buffer (t ∷ ts) h e = absurd cc
  tasks_for-Tasks (c ∷ cs) buffer all h e =
      let one = task_for c (prepare c) buffer in
      let made = task_for-Made c (prepare c) buffer refl h in
      let (t, (ts, (first, rest, is))) = prepend-ok one.0 (tasks_for prepare cs one.1) all e in
      rw is (
        one_more c t cs ts (Made-ok c one.0 one.1 t first made).0
          (tasks_for-Tasks cs one.1 ts (Made-ServesIf c one.0 one.1 made) rest))

  pub Tasks-waiting :
      (cs : List Client) (ts : List Task) → Tasks cs ts → All (λ t. t.stage ≡ waiting) ts
  Tasks-waiting _ _ no_task = tt
  Tasks-waiting _ _ (one_more c t cs ts h hs) = (h.is_new, Tasks-waiting cs ts hs)
