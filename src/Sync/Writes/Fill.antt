-- ===== src/Sync/Writes/Fill.antt =====
-- Which backends are filled in after an accepted write, and from which.
use s3mer.Base.{
  Option, none, some, ◌≡◌, refl, ap, true, not, ◌&&◌, arith, List, [], ◌∷◌, map, String, Option,
  some,
}
use s3mer.Base.Texts.{str_eq, str_mem, eq_iff, eq_refl}
use s3mer.Pool
use s3mer.Exec.{Result, ok}
use s3mer.Sync.Writes.{
  missing, source_of, fill, schedule_async_fill, Client, Params, Env, Scheduler, SyncConfig,
  S3Operation, Node,
}

pub success_names : List (Client × Params) → List String
success_names successes = map (λ p. p.0.name) successes

same_mem : (x y : String) (xs : List String) → str_eq x y ≡ true → str_mem x xs ≡ str_mem y xs
same_mem x y xs e = ap (λ z. str_mem z xs) ((eq_iff x y).0 e)

-- The names that `missing` keeps are those of clients that are not among the names.
str_mem-missing :
    (name : String) (names : List String) (cs : List Client)
    → str_mem name (missing names cs)
      ≡ (str_mem name (map (λ c. c.name) cs) && not (str_mem name names))
unfolding missing
str_mem-missing name names [] = refl
str_mem-missing name names (c ∷ cs) =
    ground (arith, same_mem name c.name names, str_mem-missing name names cs)

source_of-success :
    (preferred : Option String) (c : Client) (r : Params) (rest : List (Client × Params))
    → str_mem (source_of preferred c ((c, r) ∷ rest)) (success_names ((c, r) ∷ rest)) ≡ true
unfolding source_of success_names
source_of-success none c r rest = rw (eq_refl c.name) refl
source_of-success (some name) c r rest = ground (arith, eq_refl c.name)

-- What was asked of the replication manager: nothing if there are no targets, and otherwise one call for them.
abbrev pub Asked :
    {env : Env}
    → Scheduler env
    → S3Operation
    → Params
    → Params
    → String
    → List String
    → Node env
    → Result (Unit {0}) × Node env
    → Type 0
Asked schedule op params response source [] s r = r ≡ (ok tt, s)
Asked schedule op params response source (t ∷ ts) s r =
    r ≡ schedule op params response source (t ∷ ts) s

fill-Asked :
    {env : Env} (schedule : Scheduler env) (op : S3Operation) (params response : Params)
    (source : String) (targets : List String) (s : Node env)
    → Asked schedule op params response source targets s
        (fill schedule op params response source targets s)
unfolding fill
fill-Asked schedule op params response source [] s = refl
fill-Asked schedule op params response source (t ∷ ts) s = refl

-- After an accepted write, there are targets, which are exactly the clients of the pool that are not among
-- the successes. If there are none, the fill returns and nothing has changed; otherwise it is one call of the
-- replication manager for all of them, with a source that is one of the successes.
pub schedule_async_fill-Fill :
    {env : Env} (schedule : Scheduler env) (config : SyncConfig) (op : S3Operation)
    → (params response : Params) (c : Client) (r : Params) (rest : List (Client × Params))
      (s : Node env)
    → (source : String) × ((targets : List String) × (Asked schedule op params response source
            targets s
            (schedule_async_fill schedule config op params response ((c, r) ∷ rest) s)
          × (str_mem source (success_names ((c, r) ∷ rest)) ≡ true)
          × ((name : String)
              → str_mem name targets ≡ (
                  str_mem name (map (λ c. c.name) (Pool.all_clients s.pool))
                  && not (str_mem name (success_names ((c, r) ∷ rest)))))))
unfolding schedule_async_fill success_names
schedule_async_fill-Fill schedule config op params response c r rest s = (
  _,
  (
    _,
    (
      fill-Asked schedule op params response (source_of config.response_backend c ((c, r) ∷ rest))
          (missing (success_names ((c, r) ∷ rest)) (Pool.all_clients s.pool)) s,
      source_of-success config.response_backend c r rest,
      λ name. str_mem-missing name (success_names ((c, r) ∷ rest)) (Pool.all_clients s.pool),
    ),
  ),
)
