-- ===== src/Sync/Gather/Calls.antt =====
-- The calls that a computation has made on the backends, in the order of the event loop.
use mathlib.Core.List.{Perm, append_assoc, append-nil}
use mathlib.Core.List.Perm
use s3mer.Base.{String, sym, subst, List, [], ◌∷◌, ◌++◌}
use s3mer.Value.{Params}
use s3mer.Operations.{S3Operation}
use s3mer.Exec.{Result}
use s3mer.Env.{Env}
use s3mer.Node.{Node, settle}
use s3mer.Streaming.Bytes.{Bytes}

-- A call of a backend, with its parameters, the parts of the body that it has read and its answer; or the update of
-- the breaker and the metrics of a backend by an answer.
pub data Event : Type 0 where
  called : String → Params → List Bytes → Result Params → Event
  noted : String → Result Params → Event

-- From the one state to the other nothing but these events has happened, each once, in this order.
pub data Ran (env : Env) (op : S3Operation) : List Event → Node env → Node env → Type 0 where
  still : (s : Node env) → Ran env op [] s s
  answers :
      (name : String) (params : Params) (parts : List Bytes) (events : List Event)
      (s end : Node env)
      → Ran env op events (record s { world = (env.call name op params parts s.world).1 }) end
      → Ran env op
          (called name params parts (env.call name op params parts s.world).0 ∷ events)
          s
          end
  notes :
      (name : String) (r : Result Params) (events : List Event) (s end : Node env)
      → Ran env op events (settle name op r s).1 end
      → Ran env op (noted name r ∷ events) s end

module _ {env : Env} {op : S3Operation} where
  pub Ran-append :
      (before after : List Event) (s mid end : Node env)
      → Ran env op before s mid
      → Ran env op after mid end
      → Ran env op (before ++ after) s end
  Ran-append _ after _ _ end (still s) rest = rest
  Ran-append _ after _ _ end (answers name params parts events s mid h) rest =
      answers name params parts (events ++ after) s end (Ran-append events after _ mid end h rest)
  Ran-append _ after _ _ end (notes name r events s mid h) rest =
      notes name r (events ++ after) s end (Ran-append events after _ mid end h rest)

module _ {A : Type 0} where
  middle : (a : A) (xs ys : List A) → Perm (xs ++ (a ∷ ys)) (a ∷ (xs ++ ys))
  middle a [] ys = Perm.refl _
  middle a (x ∷ xs) ys = Perm.trans (Perm.cons x (middle a xs ys)) (Perm.swap a x (xs ++ ys))

  flip : (xs ys : List A) → Perm (xs ++ ys) (ys ++ xs)
  flip [] ys = subst (Perm ys) (sym (append-nil ys)) (Perm.refl ys)
  flip (x ∷ xs) ys = Perm.trans (Perm.cons x (flip xs ys)) (Perm.symm (middle x ys xs))

  -- what is added at the end of a list belongs to its first part
  pub add_first : (xs ys new : List A) → Perm ((xs ++ ys) ++ new) ((xs ++ new) ++ ys)
  add_first xs ys new =
      subst (λ l. Perm l ((xs ++ new) ++ ys)) (sym (append_assoc xs ys new))
        (subst (Perm (xs ++ (ys ++ new))) (sym (append_assoc xs new ys))
          (Perm.append_left xs (flip ys new)))

  -- or to its second part
  pub add_second :
      (xs ys new zs : List A) → Perm (ys ++ new) zs → Perm ((xs ++ ys) ++ new) (xs ++ zs)
  add_second xs ys new zs h =
      subst (λ l. Perm l (xs ++ zs)) (sym (append_assoc xs ys new)) (Perm.append_left xs h)

  pub add_both :
      (xs new more ys zs : List A)
      → Perm (xs ++ new) ys
      → Perm (ys ++ more) zs
      → Perm (xs ++ (new ++ more)) zs
  add_both xs new more ys zs h k =
      subst (λ l. Perm l zs) (append_assoc xs new more) (Perm.trans (Perm.append_right more h) k)
