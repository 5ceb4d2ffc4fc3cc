-- ===== src/Pool.antt =====
-- The pool of backends (src/s3mer/backends/pool.py and the fields of the clients in client.py).
pub mod Ordering
pub mod Candidates
pub mod Built
use s3mer.Base.Int.{ℤ, pos, negsuc}
use s3mer.Base.Int.{ℤ}
use s3mer.Base.{
  ℕ, zero, suc, String, Bool, true, false, not, ltb, leb, Option, none, some, List, [], ◌∷◌, ◌++◌,
  keep_if, if◌then◌else◌,
}
use s3mer.Dict
use s3mer.Dict.{Dict}
use s3mer.Breaker
use s3mer.Breaker.{Breaker}
use s3mer.Errors.{Exn, ExnClass, runtime_error, key_error}

-- A latency in seconds is a number of ticks, or `float("inf")` after a failed probe.
pub data Latency : Type 0 where
  finite : ℕ → Latency
  infinite : Latency

-- The fields of a backend client. A client is one object: the pool, its primary and the prober
-- mean the same one, so they refer to it by its name.
pub record Client : Type 0 where
  pub name : String
  pub is_primary : Bool
  pub priority : ℤ
  pub last_latency : Latency
  pub started : Bool

pub record BackendConfig : Type 0 where
  pub is_primary : Bool
  pub priority : ℤ

pub record CircuitBreakerConfig : Type 0 where
  pub enabled : Bool
  pub failure_threshold : ℕ
  pub open_duration : ℕ

pub record Pool : Type 0 where
  pub clients : Dict Client
  pub primary_name : Option String
  pub breakers : Dict Breaker

abbrev pub empty_pool : Pool
empty_pool = record { clients = []; primary_name = none; breakers = [] }

new_client : String → BackendConfig → Client
new_client name cfg = record {
  name = name;
  is_primary = cfg.is_primary;
  priority = cfg.priority;
  last_latency = finite 0;
  started = false;
}

-- the body of the loop in `__init__`
add_backend : CircuitBreakerConfig → String → BackendConfig → Pool → Pool
unfolding new_client
add_backend cb name cfg pool = record {
  clients = Dict.put name (new_client name cfg) pool.clients;
  primary_name = if cfg.is_primary then some name else pool.primary_name;
  breakers =
      if cb.enabled
      then Dict.put name (Breaker.init cb.failure_threshold cb.open_duration) pool.breakers
      else pool.breakers;
}

add_backends : CircuitBreakerConfig → Dict BackendConfig → Pool → Pool
unfolding add_backend
add_backends cb [] pool = pool
add_backends cb ((name, cfg) ∷ rest) pool = add_backends cb rest (add_backend cb name cfg pool)

-- `BackendPool.__init__`
unfoldable pub init : CircuitBreakerConfig → Dict BackendConfig → Pool
unfolding add_backends
init cb configs = add_backends cb configs empty_pool

abbrev pub exn : ExnClass → String → Exn
exn class text = record { class = class; response = none; text = text }

find_client : Option String → Dict Client → Option Client
find_client none clients = none
find_client (some name) clients = Dict.get name clients

-- `primary`; `none` is its RuntimeError
unfoldable pub primary : Pool → Option Client
unfolding find_client
primary pool = find_client pool.primary_name pool.clients

-- `get`; `none` is its KeyError
unfoldable pub get : String → Pool → Option Client
get name pool = Dict.get name pool.clients

-- `all_clients`
unfoldable pub all_clients : Pool → List Client
all_clients pool = Dict.values pool.clients

unfoldable pub get_secondaries : Pool → List Client
unfolding all_clients
get_secondaries pool = keep_if (λ c. not c.is_primary) (all_clients pool)

-- `sorted(…)`, which is stable
module _ {A : Type 0} (le : A → A → Bool) where
  insert : A → List A → List A
  insert x [] = x ∷ []
  insert x (y ∷ ys) = let rest = y ∷ insert x ys in if le x y then x ∷ y ∷ ys else rest

  unfoldable pub sorted : List A → List A
  unfolding insert
  sorted [] = []
  sorted (x ∷ xs) = insert x (sorted xs)

-- `<=` of integers
unfoldable pub int_leb : ℤ → ℤ → Bool
int_leb (pos n) (pos m) = leb n m
int_leb (pos n) (negsuc m) = false
int_leb (negsuc n) (pos m) = true
int_leb (negsuc n) (negsuc m) = leb m n

abbrev pub by_priority : Client → Client → Bool
by_priority c d = int_leb c.priority d.priority

abbrev pub latency_before : Latency → Latency → Bool
latency_before (finite n) (finite m) = ltb n m
latency_before (finite n) infinite = true
latency_before infinite l = false

-- the order of the pairs `(last_latency, priority)`
abbrev pub by_latency : Client → Client → Bool
by_latency c d =
    if latency_before c.last_latency d.last_latency
    then true
    else if latency_before d.last_latency c.last_latency
    then false
    else by_priority c d

-- `allow_request` of a client's breaker, if it has one; the state may move to half-open
ask : ℕ → String → Dict Breaker → Bool × Dict Breaker
ask now name breakers = elim (Dict.get name breakers) [
  | none ↦ (true, breakers)
  | some b ↦ let (allowed, b') = Breaker.allow_request now b in (allowed, Dict.put name b' breakers)
]

-- `_filter_available`, at the time `now`
unfoldable pub filter_available : ℕ → List Client → Dict Breaker → List Client × Dict Breaker
unfolding ask
filter_available now [] breakers = ([], breakers)
filter_available now (c ∷ cs) breakers =
    let (allowed, breakers') = ask now c.name breakers in
    let (rest, breakers'') = filter_available now cs breakers' in
    (if allowed then c ∷ rest else rest, breakers'')

-- A list of candidates, with the pool after its breakers were asked; `none` is the RuntimeError of
-- `primary`.
available : ℕ → Option Client → List Client → Pool → Option (List Client) × Pool
available now none secondaries pool = (none, pool)
available now (some p) secondaries pool =
    let (cs, breakers) = filter_available now (p ∷ secondaries) pool.breakers in
    (some cs, record pool { breakers = breakers })

unfoldable pub get_write_candidates : ℕ → Pool → Option (List Client) × Pool
unfolding available
get_write_candidates now pool =
    available now (primary pool) (sorted by_priority (get_secondaries pool)) pool

unfoldable pub all_by_latency : ℕ → Pool → Option (List Client) × Pool
unfolding available
all_by_latency now pool =
    available now (primary pool) (sorted by_latency (get_secondaries pool)) pool
