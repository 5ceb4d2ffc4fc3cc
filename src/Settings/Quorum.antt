-- ===== src/Settings/Quorum.antt =====
-- What the validated settings promise the strategies: a pool that is built from them has a primary,
-- knows the backends of a synchronous write, and has enough of them for the quorum.
use s3mer.Base.{
  ℕ, ◌≤◌, String, Bool, true, false, ltb, leb, ◌≡◌, refl, sym, ap, ◌∙◌, Option, none, some, List,
  [], ◌∷◌, length, arith, suc, subst,
}
use s3mer.Base.Texts.{str_mem}
use s3mer.Dict
use s3mer.Dict.{Dict}
use s3mer.Exec.{ok, and_then_ok, ok_eq}
use s3mer.Pool
use s3mer.Pool.{Pool, Client, BackendConfig, CircuitBreakerConfig}
use s3mer.Pool.Built.{
  HasPrimary, distinct, keys-init, init-HasPrimary, any_primary, contains-keys, length-values,
}
use s3mer.Streaming.Shared.{StreamConfig}
use s3mer.Sync.{resolve_sync_backends, get_each, get_one, prepend}
use s3mer.Settings.{
  Settings, load, validate_backends, validate_some, require, require_known, primaries,
  effective_backends, normalized, filled,
}
use s3mer.Settings.Factory.{sync_config, names_or_none}

require_ok : (b : Bool) (text : String) (u : Unit) → require b text ≡ ok u → b ≡ true
unfolding require
require_ok true text u h = refl
require_ok false text u h = absurd cc

any_primary-primaries :
    (configs : Dict BackendConfig)
    → (ltb 0 (length (primaries configs)) ≡ true)
    → any_primary configs ≡ true
unfolding any_primary primaries
any_primary-primaries [] h = absurd cc
any_primary-primaries ((name, cfg) ∷ rest) h = ground (arith, any_primary-primaries rest)

abbrev text : String
text = "sync_backends references unknown backend"

has_value : {A : Type 0} (o : Option A) → (Dict.is_some o ≡ true) → (a : A) × (o ≡ some a)
has_value none h = absurd cc
has_value (some a) h = (a, refl)

get_each-step :
    (name : String) (names : List String) (pool : Pool) (client : Client) (cs : List Client)
    → (Dict.get name pool.clients ≡ some client)
    → (get_each names pool ≡ ok cs)
    → get_each (name ∷ names) pool ≡ ok (client ∷ cs)
unfolding get_each get_one Pool.get prepend
get_each-step name names pool client cs found got =
    rw (get_each, get_one, Pool.get, found, got) refl

-- The clients of known names are found.
get_each-known :
    (names : List String) (backends : Dict BackendConfig) (pool : Pool) (u : Unit)
    → (require_known names backends ≡ ok u)
    → (Dict.keys pool.clients ≡ Dict.keys backends)
    → (cs : List Client) × ((get_each names pool ≡ ok cs) × (length cs ≡ length names))
unfolding require_known get_each get_one Pool.get
get_each-known [] backends pool u h same = ([], (refl, refl))
get_each-known (name ∷ names) backends pool u h same =
    let (v, (e, h')) = and_then_ok (require (Dict.contains name backends) text) _ _ h in
    let (client, found) = has_value (Dict.get name pool.clients) (
      contains-keys name pool.clients
      ∙ ap (str_mem name) same
      ∙ sym (contains-keys name backends)
      ∙ require_ok (Dict.contains name backends) text v e) in
    let (cs, (got, size)) = get_each-known names backends pool u h' same in
    (client ∷ cs, (get_each-step name names pool client cs found got, ap suc size))

-- What the pool owes to a synchronous write.
pub Ready : Settings → StreamConfig → Pool → Type 0
Ready loaded stream pool =
    let config = sync_config loaded stream in
    (backends : List Client) × ((resolve_sync_backends pool config.sync_backend_names ≡ ok backends)
      × ((1 ≤ config.sync_quorum) × (config.sync_quorum ≤ length backends)))

-- The pool has a primary, and the names that the strategies get for synchronous writes are
-- resolved to at least as many backends as the quorum asks for, which is not zero.
pub Serves : Settings → StreamConfig → Pool → Type 0
Serves loaded stream pool = HasPrimary pool × Ready loaded stream pool

abbrev not_positive : String
not_positive = "Input should be greater than or equal to 1"

abbrev no_primary : String
no_primary = "At least one backend must have is_primary=True"

abbrev two_primaries : String
two_primaries = "Exactly one primary backend allowed"

abbrev too_many : String
too_many = "sync_quorum cannot exceed number of sync_backends"

-- what the validator of the model has checked
IsValid : Settings → Type 0
IsValid settings =
    (ltb 0 (length (primaries settings.backends)) ≡ true)
    × ((leb settings.sync_quorum (length (effective_backends settings)) ≡ true)
        × ((v : Unit) × (require_known (effective_backends settings) settings.backends ≡ ok v)))

validate_some-IsValid :
    (settings : Settings) (u : Unit) → (validate_some settings ≡ ok u) → IsValid settings
unfolding validate_some IsValid
validate_some-IsValid settings u h =
    let names = primaries settings.backends in
    let sync = effective_backends settings in
    let (v1, (e1, h1)) = and_then_ok (require (ltb 0 (length names)) no_primary) _ u h in
    let (v2, (e2, h2)) = and_then_ok (require (leb (length names) 1) two_primaries) _ u h1 in
    let (v3, (e3, h3)) =
      and_then_ok (require (leb settings.sync_quorum (length sync)) too_many) _ u h2 in
    let (v4, (e4, h4)) = and_then_ok (require_known sync settings.backends) _ u h3 in
    (require_ok _ no_primary v1 e1, (require_ok _ too_many v3 e3, (v4, e4)))

-- The names that the strategies get are resolved to the effective backends.
resolved :
    (names : List String) (backends : Dict BackendConfig) (pool : Pool) (v : Unit)
    → (require_known (filled names (Dict.keys backends)) backends ≡ ok v)
    → (Dict.keys pool.clients ≡ Dict.keys backends)
    → (cs : List Client) × ((resolve_sync_backends pool (names_or_none names) ≡ ok cs)
        × (length cs ≡ length (filled names (Dict.keys backends))))
unfolding resolve_sync_backends names_or_none Pool.all_clients
resolved [] backends pool v known same =
    (Dict.values pool.clients, (refl, length-values pool.clients ∙ ap length same))
resolved (name ∷ names) backends pool v known same =
    get_each-known (name ∷ names) backends pool v known same

validate_backends-some :
    (settings : Settings) (name : String) (cfg : BackendConfig) (rest : Dict BackendConfig)
    → (settings.backends ≡ (name, cfg) ∷ rest)
    → (v : Unit) → (validate_backends settings ≡ ok v)
    → validate_some settings ≡ ok v
unfolding validate_backends
validate_backends-some settings name cfg rest e v h =
    sym (ap (λ bs. elim bs [ [] ↦ ok tt | b ∷ bs' ↦ validate_some settings ]) e) ∙ h

leb_le : {n m : ℕ} → (leb n m ≡ true) → n ≤ m
leb_le h = ground arith

built-Serves :
    (cb : CircuitBreakerConfig) (stream : StreamConfig) (settings : Settings)
    → (distinct (Dict.keys settings.backends) ≡ true)
    → (1 ≤ settings.sync_quorum)
    → IsValid settings
    → Serves settings stream (Pool.init cb settings.backends)
unfolding Serves Ready sync_config IsValid effective_backends
built-Serves cb stream settings once positive (marked, (fits, (v, known))) =
    let backends = settings.backends in
    let (cs, (found, size)) =
      resolved settings.sync_backends backends (Pool.init cb backends) v known
        (keys-init cb backends once) in
    (
      init-HasPrimary cb backends once (any_primary-primaries backends marked),
      (cs, (found, (positive, ground (arith, size, fits)))),
    )

-- A configuration with a backend that is accepted gives a pool that has a primary, and that
-- resolves the backends of a synchronous write to at least as many clients as the quorum, which is
-- at least one.
pub load-Serves :
    (cb : CircuitBreakerConfig) (stream : StreamConfig) (settings loaded : Settings) (name : String)
    (cfg : BackendConfig) (rest : Dict BackendConfig)
    → (settings.backends ≡ (name, cfg) ∷ rest)
    → (distinct (Dict.keys settings.backends) ≡ true)
    → (load settings ≡ ok loaded)
    → Serves loaded stream (Pool.init cb loaded.backends)
unfolding load normalized validate_backends
load-Serves cb stream settings loaded name cfg rest some_backend once h =
    let (u, (e, h1)) = and_then_ok (require (leb 1 settings.sync_quorum) not_positive) _ loaded h in
    let (v, (e2, h2)) = and_then_ok (validate_backends (normalized settings)) _ loaded h1 in
    subst (λ s. Serves s stream (Pool.init cb s.backends)) (ok_eq h2)
      (built-Serves cb stream (normalized settings) once
        (leb_le (require_ok (leb 1 settings.sync_quorum) not_positive u e))
        (validate_some-IsValid (normalized settings) v
          (validate_backends-some (normalized settings) name cfg rest some_backend v e2)))
