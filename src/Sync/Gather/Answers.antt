-- ===== src/Sync/Gather/Answers.antt =====
-- What each call of `execute_concurrent` comes to, whatever the interleaving.
use mathlib.Core.List.{Perm, append_assoc, append-nil}
use mathlib.Core.List.Perm
use s3mer.Sync.Gather.Calls.{
  Event, called, noted, Ran, still, answers, notes, Ran-append, add_first, add_second, add_both,
}
use s3mer.Base.{subst, sym}
use s3mer.Base.{
  ℕ, zero, suc, String, ◌≡◌, refl, ap, Bool, true, false, Option, none, some, List, [], ◌∷◌, ◌++◌,
  concat, map, All,
}
use s3mer.Value.{Params}
use s3mer.Operations.{S3Operation}
use s3mer.Errors.{runtime_error}
use s3mer.Exec.{Result, ok, raised}
use s3mer.Env.{Env}
use s3mer.Pool.{exn}
use s3mer.Node.{Node, settle}
use s3mer.Streaming.Bytes.{Bytes}
use s3mer.Streaming.Shared.{BodyReader}
use s3mer.Streaming.Shared.Readers.{ahead, reads-ahead}
use s3mer.Sync.Gather.{
  Stage, waiting, answered, settled, Task, parts_of, call, begin, advance, advance_at, follow,
  complete, gather,
}

-- These parts are the beginning of what the reader returns.
unfoldable pub IsBeginning : Option BodyReader → List Bytes → Type 0
IsBeginning none parts = parts ≡ []
IsBeginning (some r) parts = (rest : Bytes) × (concat parts ++ rest ≡ ahead r)

module _ (env : Env) (op : S3Operation) where
  -- The result of a task with the events that it has made: the error of a client that is not started, without any, or
  -- the answer of the backend to one call with the parameters of the task, to which it has read the
  -- body from its first byte, and which is noted once.
  pub data Answer (t : Task) : List Event → Result Params → Type 0 where
    not_started :
        t.client.started ≡ false
        → Answer t [] (raised (exn runtime_error "Backend client not started — call start() first"))
    once :
        (parts : List Bytes) (r : Result Params)
        → t.client.started ≡ true
        → IsBeginning t.reader parts
        → Answer t (called t.client.name t.params parts r ∷ noted t.client.name r ∷ []) r

  data Begun (t : Task) : Stage → List Event → Type 0 where
    has_answer :
        (parts : List Bytes) (r : Result Params)
        → t.client.started ≡ true
        → IsBeginning t.reader parts
        → Begun t (answered parts r) (called t.client.name t.params parts r ∷ [])
    has_result :
        (parts : List Bytes) (r : Result Params) (events : List Event)
        → Answer t events r
        → Begun t (settled parts r) events

  data Reached (t : Task) : Stage → List Event → Type 0 where
    not_yet : Reached t waiting []
    begun : (stage : Stage) (events : List Event) → Begun t stage events → Reached t stage events

  pub data Settled (t : Task) : Stage → List Event → Type 0 where
    is_settled :
        (parts : List Bytes) (r : Result Params) (events : List Event)
        → Answer t events r
        → Settled t (settled parts r) events

  -- the task `t` at another stage, which satisfies `P` with these events
  pub data At (P : Task → Stage → List Event → Type 0) (t : Task) : Task → List Event → Type 0 where
    at :
        (stage : Stage) (events : List Event)
        → P t stage events
        → At P t (record t { stage = stage }) events

  pub data Each (P : Task → Stage → List Event → Type 0)
      : List Task → List Task → List Event → Type 0 where
    nobody : Each P [] [] []
    next :
        (t now : Task) (ts nows : List Task) (made rest : List Event)
        → At P t now made
        → Each P ts nows rest
        → Each P (t ∷ ts) (now ∷ nows) (made ++ rest)

  -- a step of a task from the state `s`, with the events that it adds
  Moves :
      (Task → Stage → List Event → Type 0) → Task → List Event → Node env → Task × Node env → Type 0
  Moves P t made s p = (new : List Event) × (Ran env op new s p.1 × At P t p.0 (made ++ new))

  -- steps of several tasks, whose events come in any order
  unfoldable pub AllMove :
      (Task → Stage → List Event → Type 0)
      → List Task
      → List Event
      → Node env
      → List Task × Node env
      → Type 0
  AllMove P ts made s p =
      (new : List Event) × ((all : List Event) × (Ran env op new s p.1
          × Perm (made ++ new) all
          × Each P ts p.0 all))

module _ {env : Env} (op : S3Operation) where
  settle-result : (name : String) (r : Result Params) (s : Node env) → (settle name op r s).0 ≡ r
  unfolding settle
  settle-result name (ok r) s = refl
  settle-result name (raised e) s = refl

  parts_of-IsBeginning :
      (t : Task) (reader : Option BodyReader) (s : Node env)
      → IsBeginning reader (parts_of op t reader s)
  unfolding parts_of IsBeginning
  parts_of-IsBeginning t none s = refl
  parts_of-IsBeginning t (some r) s = (_, reads-ahead _ r)

  begin_lem :
      (started : Bool) (t : Task) (s : Node env)
      → t.client.started ≡ started
      → Moves env op (Begun env op) t [] s (begin op started (record t { stage = waiting }) s)
  unfolding Moves begin call
  begin_lem true t s e =
      let parts = parts_of op t t.reader s in
      let r = (env.call t.client.name op t.params parts s.world).0 in
      (
        called t.client.name t.params parts r ∷ [],
        (
          answers t.client.name t.params parts [] s _ (still _),
          at _ _ (has_answer parts r e (parts_of-IsBeginning t t.reader s)),
        ),
      )
  begin_lem false t s e = ([], (still s, at _ _ (has_result [] _ [] (not_started e))))

  note_lem :
      (t : Task) (parts : List Bytes) (r : Result Params) (s : Node env)
      → t.client.started ≡ true
      → IsBeginning t.reader parts
      → Moves env op
          (Settled env op)
          t
          (called t.client.name t.params parts r ∷ [])
          s
          (advance op (record t { stage = answered parts r }) s)
  unfolding Moves advance
  note_lem t parts r s started h = (
    noted t.client.name r ∷ [],
    (
      notes t.client.name r [] s _ (still _),
      at _ _ (
          subst
            (λ x.
              Settled env op t (settled parts x)
                (called t.client.name t.params parts r ∷ noted t.client.name r ∷ []))
            (sym (settle-result t.client.name r s))
            (is_settled parts r _ (once parts r started h))),
    ),
  )

  -- a task that has begun is settled by a step
  advance-Begun :
      (t now : Task) (made : List Event) (s : Node env)
      → At env op (Begun env op) t now made
      → Moves env op (Settled env op) t made s (advance op now s)
  unfolding Moves advance
  advance-Begun t _ made s (at _ _ (has_answer parts r started h)) = note_lem t parts r s started h
  advance-Begun t _ made s (at _ _ (has_result parts r events h)) = (
    [],
    (
      still s,
      subst (At env op (Settled env op) t _) (sym (append-nil events))
          (at _ _ (is_settled parts r events h)),
    ),
  )

  Settled-Begun :
      (t : Task) (stage : Stage) (events : List Event)
      → Settled env op t stage events
      → Begun env op t stage events
  Settled-Begun t _ _ (is_settled parts r events h) = has_result parts r events h

  -- and any other begins by it
  advance-Reached :
      (t now : Task) (made : List Event) (s : Node env)
      → At env op (Reached env op) t now made
      → Moves env op (Begun env op) t made s (advance op now s)
  unfolding Moves advance
  advance-Reached t _ _ s (at _ _ not_yet) = begin_lem t.client.started t s refl
  advance-Reached t _ made s (at _ _ (begun stage events h)) =
      weaken (advance-Begun t _ events s (at stage events h))
    where
      weaken :
          {p : Task × Node env}
          → Moves env op (Settled env op) t events s p
          → Moves env op (Begun env op) t events s p
      weaken (new, (ran, at st evs k)) = (new, (ran, at st evs (Settled-Begun t st evs k)))

  settle_twice :
      (t now : Task) (made : List Event) (s : Node env)
      → At env op (Reached env op) t now made
      → let one = advance op now s in
        Moves env op (Settled env op) t made s (advance op one.0 one.1)
  unfolding Moves
  settle_twice t now made s h =
      let one = advance op now s in
      let (new, (ran, k)) = advance-Reached t now made s h in
      let (more, (ran', k')) = advance-Begun t one.0 (made ++ new) one.1 k in
      (
        new ++ more,
        (
          Ran-append new more s one.1 _ ran ran',
          subst (At env op (Settled env op) t _) (append_assoc made new more) k',
        ),
      )

  advance_lem :
      (t now : Task) (made : List Event) (s : Node env)
      → At env op (Reached env op) t now made
      → Moves env op (Reached env op) t made s (advance op now s)
  unfolding Moves
  advance_lem t now made s h = weaken (advance-Reached t now made s h)
    where
      weaken :
          {p : Task × Node env}
          → Moves env op (Begun env op) t made s p
          → Moves env op (Reached env op) t made s p
      weaken (new, (ran, at st evs k)) = (new, (ran, at st evs (begun st evs k)))

  advance_at_lem :
      (ts nows : List Task) (made : List Event) (n : ℕ) (s : Node env)
      → Each env op (Reached env op) ts nows made
      → AllMove env op (Reached env op) ts made s (advance_at op n nows s)
  unfolding advance_at AllMove Moves
  advance_at_lem _ _ _ n s nobody = ([], ([], (still s, Perm.refl [], nobody)))
  advance_at_lem _ _ _ zero s (next t now ts nows made rest h hs) =
      let (new, (ran, k)) = advance_lem t now made s h in
      (
        new,
        (
          (made ++ new) ++ rest,
          (ran, add_first made rest new, next t _ ts nows (made ++ new) rest k hs),
        ),
      )
  advance_at_lem _ _ _ (suc n) s (next t now ts nows made rest h hs) =
      let (new, (all, (ran, same, ks))) = advance_at_lem ts nows rest n s hs in
      (new, (made ++ all, (ran, add_second made rest new all same, next t now ts _ made all h ks)))

  follow_lem :
      (ns : List ℕ) (ts nows : List Task) (made : List Event) (s : Node env)
      → Each env op (Reached env op) ts nows made
      → AllMove env op (Reached env op) ts made s (follow op ns nows s)
  unfolding follow AllMove
  follow_lem [] ts nows made s hs =
      ([], (made, (still s, subst (λ l. Perm l made) (sym (append-nil made)) (Perm.refl made), hs)))
  follow_lem (n ∷ ns) ts nows made s hs =
      let one = advance_at op n nows s in
      let (new, (all, (ran, same, ks))) = advance_at_lem ts nows made n s hs in
      let (new', (all', (ran', same', ks'))) = follow_lem ns ts one.0 all one.1 ks in
      (
        new ++ new',
        (
          all',
          (Ran-append new new' s one.1 _ ran ran', add_both made new new' all all' same same', ks'),
        ),
      )

  complete_lem :
      (ts nows : List Task) (made : List Event) (s : Node env)
      → Each env op (Reached env op) ts nows made
      → AllMove env op (Settled env op) ts made s (complete op nows s)
  unfolding complete AllMove Moves
  complete_lem _ _ _ s nobody = ([], ([], (still s, Perm.refl [], nobody)))
  complete_lem _ _ _ s (next t now ts nows made rest h hs) =
      let one = advance op now s in
      let two = advance op one.0 one.1 in
      let (new, (ran, k)) = settle_twice t now made s h in
      let (new', (all', (ran', same', ks'))) = complete_lem ts nows rest two.1 hs in
      (
        new ++ new',
        (
          (made ++ new) ++ all',
          (
            Ran-append new new' s two.1 _ ran ran',
            add_both (made ++ rest) new new' ((made ++ new) ++ rest) ((made ++ new) ++ all')
                (add_first made rest new) (add_second (made ++ new) rest new' all' same'),
            next t two.0 ts _ (made ++ new) all' k ks',
          ),
        ),
      )

  start_lem :
      (ts : List Task) → All (λ t. t.stage ≡ waiting) ts → Each env op (Reached env op) ts ts []
  start_lem [] h = nobody
  start_lem (t ∷ ts) h =
      next t t ts ts [] []
        (subst (λ now. At env op (Reached env op) t now []) (sym (same_at t h.0))
          (at waiting [] not_yet))
        (start_lem ts h.1)
    where
      same_at : (t : Task) → t.stage ≡ waiting → t ≡ record t { stage = waiting }
      same_at t e = ap (λ st. record t { stage = st }) e

  pub gather_lem :
      (ts : List Task) (s : Node env)
      → All (λ t. t.stage ≡ waiting) ts
      → AllMove env op (Settled env op) ts [] s (gather op ts s)
  unfolding gather AllMove
  gather_lem ts s h =
      let order = env.interleaving (map (λ t. t.client.name) ts) s.world in
      let mid = follow op order ts s in
      let (new, (all, (ran, same, ks))) = follow_lem order ts ts [] s (start_lem ts h) in
      let (new', (all', (ran', same', ks'))) = complete_lem ts mid.0 all mid.1 ks in
      (
        new ++ new',
        (
          all',
          (Ran-append new new' s mid.1 _ ran ran', add_both [] new new' all all' same same', ks'),
        ),
      )
