-- ===== src/Strategies/Reads.antt =====
-- A read asks the backends in turn, and answers with the first success.
use s3mer.Base.{◌≡◌, refl, Option, none, some, List, [], ◌∷◌}
use s3mer.Value.{Params}
use s3mer.Operations.{S3Operation}
use s3mer.Errors.{Exn, runtime_error}
use s3mer.Exec.{Result, ok, raised}
use s3mer.Env.{Env}
use s3mer.Pool.{Client, exn}
use s3mer.Node.{Node, execute}
use s3mer.Strategies.{read_from, last_error}

-- the exception that the loop raises when no backend is left
abbrev pub error_of : Option Exn → Exn
error_of none = exn runtime_error "No backends configured"
error_of (some e) = e

module _ {env : Env} (op : S3Operation) (params : Params) where
  -- What the loop may do from a state, and with which result and state it ends.
  pub data Outcome : List Client → Option Exn → Node env → Result Params × Node env → Type 0 where
    -- no backend is left: the last error
    exhausted : (last : Option Exn) (s : Node env) → Outcome [] last s (raised (error_of last), s)
    -- the first backend answers, and no other is asked
    answered :
        (c : Client) (cs : List Client) (last : Option Exn) (s s' : Node env) (response : Params)
        → execute c op params s ≡ (ok response, s')
        → Outcome (c ∷ cs) last s (ok response, s')
    -- the first backend fails, whatever its error, and the next are asked from the state it left
    skipped :
        (c : Client) (cs : List Client) (last : Option Exn) (s s' : Node env) (e : Exn)
        → (end : Result Params × Node env) → execute c op params s ≡ (raised e, s')
        → Outcome cs (some e) s' end
        → Outcome (c ∷ cs) last s end

  exhausted-read :
      (last : Option Exn) (s : Node env) → Outcome [] last s (read_from op params [] last s)
  unfolding read_from last_error
  exhausted-read none s = exhausted none s
  exhausted-read (some e) s = exhausted (some e) s

  after_one :
      (c : Client) (cs : List Client) (last : Option Exn) (s : Node env)
      → ((e : Exn) (s' : Node env) → Outcome cs (some e) s' (read_from op params cs (some e) s'))
      → (r : Result Params × Node env) → execute c op params s ≡ r
      → Outcome (c ∷ cs) last s (elim r.0 [
        | ok response ↦ (ok response, r.1)
        | raised e ↦ read_from op params cs (some e) r.1
      ])
  after_one c cs last s rest (ok response, s') h = answered c cs last s s' response h
  after_one c cs last s rest (raised e, s') h = skipped c cs last s s' e _ h (rest e s')

  -- For any list of backends the loop of a read does one of these: it asks them in the order of
  -- the list, goes on after every error, ends at the first answer and returns it, and raises the
  -- last error if none answers.
  pub read_from-Outcome :
      (cs : List Client) (last : Option Exn) (s : Node env)
      → Outcome cs last s (read_from op params cs last s)
  unfolding read_from
  read_from-Outcome [] last s = exhausted-read last s
  read_from-Outcome (c ∷ cs) last s =
      after_one c cs last s (λ e s'. read_from-Outcome cs (some e) s') (execute c op params s) refl
