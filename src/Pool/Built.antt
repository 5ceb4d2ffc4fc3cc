-- ===== src/Pool/Built.antt =====
-- The pool that `BackendPool.__init__` builds from the configured backends
-- (src/s3mer/backends/pool.py): its clients have the configured names, in order, and its primary
-- is one of them.
use mathlib.Core.List.{append_assoc, append-nil}
use s3mer.Base.{
  String, Bool, true, false, not, ◌&&◌, ◌||◌, ◌≡◌, refl, Option, none, some, List, [], ◌∷◌, ◌++◌,
  length, arith, if◌then◌else◌, Bool-cases, ◌⊎◌, inl, ap, inr, ◌∙◌,
}
use s3mer.Base.Texts.{str_eq, str_mem, eq_iff, eq_refl}
use s3mer.Dict
use s3mer.Dict.{Dict, get-put, get-put_self}
use s3mer.Pool.{
  Pool, Client, BackendConfig, CircuitBreakerConfig, init, primary, add_backends, add_backend,
  empty_pool, find_client, new_client,
}

-- no name twice, as in any `dict`
unfoldable pub distinct : List String → Bool
distinct [] = true
distinct (name ∷ names) = not (str_mem name names) && distinct names

-- the pool's primary is a client that is marked as the primary
pub HasPrimary : Pool → Type 0
HasPrimary pool = (c : Client) × ((primary pool ≡ some c) × (c.is_primary ≡ true))

module _ {V : Type 0} where
  pub contains-keys :
      (name : String) (d : Dict V) → Dict.contains name d ≡ str_mem name (Dict.keys d)
  unfolding Dict.get Dict.keys
  contains-keys name [] = refl
  contains-keys name ((k, v) ∷ d) =
      ground (arith, contains-keys name d, eq_iff k name, eq_iff name k)

  pub length-values : (d : Dict V) → length (Dict.values d) ≡ length (Dict.keys d)
  unfolding Dict.values Dict.keys
  length-values [] = refl
  length-values ((k, v) ∷ d) = grind (arith, length-values d)

  keys-put :
      (k : String) (v : V) (d : Dict V)
      → (Dict.contains k d ≡ false)
      → Dict.keys (Dict.put k v d) ≡ Dict.keys d ++ (k ∷ [])
  unfolding Dict.get Dict.put Dict.keys
  keys-put k v [] h = refl
  keys-put k v ((j, w) ∷ d) h = ground (arith, keys-put k v d)

differ : {a b : Bool} → (a ≡ b) → (a ≡ false) → (b ≡ true) → ⊥
differ same lost found = cc

-- none of the names is a key
AllNew : {V : Type 0} → List String → Dict V → Type 0
AllNew names d = (name : String) → (str_mem name names ≡ true) → Dict.contains name d ≡ false

split_distinct :
    (name : String) (names : List String)
    → (distinct (name ∷ names) ≡ true)
    → (str_mem name names ≡ false) × (distinct names ≡ true)
unfolding distinct
split_distinct name names h = ground arith

is_some-put :
    {V : Type 0} (t : Bool) (v : V) (o : Option V)
    → (t ≡ false)
    → (Dict.is_some o ≡ false)
    → Dict.is_some (if t then some v else o) ≡ false
is_some-put true v o e h = absurd cc
is_some-put false v o e h = h

other_name :
    (name other : String) (names : List String)
    → (str_mem name names ≡ false)
    → (str_mem other names ≡ true)
    → str_eq name other ≡ false
other_name name other names e listed = elim (Bool-cases (str_eq name other)) [
  | inl same ↦ absurd (differ (ap (λ n. str_mem n names) ((eq_iff name other).0 same)) e listed)
  | inr differs ↦ differs
]

listed_first : (name : String) (names : List String) → str_mem name (name ∷ names) ≡ true
listed_first name names = rw (eq_refl name) refl

step_AllNew :
    {V : Type 0} (name : String) (names : List String) (v : V) (d : Dict V)
    → (distinct (name ∷ names) ≡ true)
    → AllNew (name ∷ names) d
    → AllNew names (Dict.put name v d)
unfolding AllNew
step_AllNew name names v d once new other listed =
    let differs : str_eq name other ≡ false =
      other_name name other names (split_distinct name names once).0 listed in
    rw (get-put name other v d) (
      is_some-put (str_eq name other) v (Dict.get other d) differs
        (new other (ground (arith, listed))))

keys-add_backends :
    (cb : CircuitBreakerConfig) (configs : Dict BackendConfig) (pool : Pool)
    → (distinct (Dict.keys configs) ≡ true)
    → AllNew (Dict.keys configs) pool.clients
    → Dict.keys (add_backends cb configs pool).clients ≡ Dict.keys pool.clients ++ Dict.keys configs
unfolding add_backends add_backend AllNew Dict.keys
keys-add_backends cb [] pool once new = rw append-nil refl
keys-add_backends cb ((name, cfg) ∷ rest) pool once new =
    let names = Dict.keys rest in
    let client = new_client name cfg in
    keys-add_backends cb rest (add_backend cb name cfg pool) (split_distinct name names once).1
      (step_AllNew name names client pool.clients once new)
    ∙ ap (λ ks. ks ++ names)
        (keys-put name client pool.clients (new name (listed_first name names)))
    ∙ append_assoc (Dict.keys pool.clients) (name ∷ []) names

-- The clients have the configured names, in their order.
pub keys-init :
    (cb : CircuitBreakerConfig) (configs : Dict BackendConfig)
    → (distinct (Dict.keys configs) ≡ true)
    → Dict.keys (init cb configs).clients ≡ Dict.keys configs
unfolding init Dict.keys AllNew Dict.get
keys-init cb configs once = keys-add_backends cb configs empty_pool once λ name listed. refl

-- One of the configurations has the mark of the primary.
unfoldable pub any_primary : Dict BackendConfig → Bool
any_primary [] = false
any_primary ((name, cfg) ∷ rest) = cfg.is_primary || any_primary rest

add_primary :
    (cb : CircuitBreakerConfig) (name : String) (cfg : BackendConfig) (pool : Pool)
    → (cfg.is_primary ≡ true)
    → HasPrimary (add_backend cb name cfg pool)
unfolding HasPrimary primary add_backend new_client find_client
add_primary cb name cfg pool marked =
    let clients = Dict.put name (new_client name cfg) pool.clients in
    (
      new_client name cfg,
      (
        ap (λ t. find_client (if t then some name else pool.primary_name) clients) marked
            ∙ get-put_self name (new_client name cfg) pool.clients,
        marked,
      ),
    )

find-put :
    (name : String) (client : Client) (o : Option String) (clients : Dict Client) (c : Client)
    → (Dict.contains name clients ≡ false)
    → (find_client o clients ≡ some c)
    → find_client o (Dict.put name client clients) ≡ some c
unfolding find_client
find-put name client none clients c new found = found
find-put name client (some n) clients c new found =
    rw (get-put name n client clients) (elim (Bool-cases (str_eq name n)) [
      | inl same ↦ absurd (
          differ (ap (λ k. Dict.contains k clients) ((eq_iff name n).0 same)) new
            (ap Dict.is_some found))
      | inr differs ↦ rw differs found
    ])

kept :
    (cb : CircuitBreakerConfig) (name : String) (cfg : BackendConfig) (pool : Pool)
    → (cfg.is_primary ≡ false)
    → (Dict.contains name pool.clients ≡ false)
    → HasPrimary pool
    → HasPrimary (add_backend cb name cfg pool)
unfolding HasPrimary primary add_backend find_client
kept cb name cfg pool plain new (c, (found, marked)) =
    let client = new_client name cfg in
    let clients = Dict.put name client pool.clients in
    (
      c,
      (
        ap (λ t. find_client (if t then some name else pool.primary_name) clients) plain
            ∙ find-put name client pool.primary_name pool.clients c new found,
        marked,
      ),
    )

step_clients :
    (cb : CircuitBreakerConfig) (name : String) (cfg : BackendConfig) (names : List String)
    (pool : Pool)
    → (distinct (name ∷ names) ≡ true)
    → AllNew (name ∷ names) pool.clients
    → AllNew names (add_backend cb name cfg pool).clients
unfolding add_backend
step_clients cb name cfg names pool once new =
    step_AllNew name names (new_client name cfg) pool.clients once new

next :
    (cb : CircuitBreakerConfig) (name : String) (cfg : BackendConfig) (rest : Dict BackendConfig)
    (pool : Pool)
    → (Dict.contains name pool.clients ≡ false)
    → (any_primary ((name, cfg) ∷ rest) ≡ true) ⊎ HasPrimary pool
    → (any_primary rest ≡ true) ⊎ HasPrimary (add_backend cb name cfg pool)
unfolding any_primary
next cb name cfg rest pool new h = elim (Bool-cases cfg.is_primary) [
  | inl marked ↦ inr (add_primary cb name cfg pool marked)
  | inr plain ↦ elim h [
    | inl more ↦ inl (ground (arith, more, plain))
    | inr has ↦ inr (kept cb name cfg pool plain new has)
  ]
]

primary-add_backends :
    (cb : CircuitBreakerConfig) (configs : Dict BackendConfig) (pool : Pool)
    → (distinct (Dict.keys configs) ≡ true)
    → AllNew (Dict.keys configs) pool.clients
    → (any_primary configs ≡ true) ⊎ HasPrimary pool
    → HasPrimary (add_backends cb configs pool)
unfolding add_backends AllNew Dict.keys any_primary
primary-add_backends cb [] pool once new (inl h) = absurd cc
primary-add_backends cb [] pool once new (inr h) = h
primary-add_backends cb ((name, cfg) ∷ rest) pool once new h =
    let names = Dict.keys rest in
    let pool' = add_backend cb name cfg pool in
    primary-add_backends cb rest pool' (split_distinct name names once).1
      (step_clients cb name cfg names pool once new)
      (next cb name cfg rest pool (new name (listed_first name names)) h)

-- A configuration with a primary gives a pool that has one.
pub init-HasPrimary :
    (cb : CircuitBreakerConfig) (configs : Dict BackendConfig)
    → (distinct (Dict.keys configs) ≡ true)
    → (any_primary configs ≡ true)
    → HasPrimary (init cb configs)
unfolding init AllNew Dict.get
init-HasPrimary cb configs once marked =
    primary-add_backends cb configs empty_pool once (λ name listed. refl) (inl marked)
