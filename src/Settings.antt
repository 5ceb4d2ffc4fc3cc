-- ===== src/Settings.antt =====
-- The settings that choose the write strategy, and their validation (src/s3mer/config/settings.py).
-- pydantic reads them from the environment; here they come as the record that it fills.
pub mod Factory
pub mod Quorum
use s3mer.Base.{
  ℕ, String, Bool, true, false, not, ◌&&◌, ◌||◌, ltb, leb, Option, none, some, List, [], ◌∷◌,
  length, if◌then◌else◌,
}
use s3mer.Base.Texts.{str_eq, str_mem}
use s3mer.Dict
use s3mer.Dict.{Dict}
use s3mer.Errors.{value_error}
use s3mer.Exec.{Result, ok, raised, and_then}
use s3mer.Pool.{BackendConfig, exn}

pub data WriteStrategyType : Type 0 where
  primary_replication multi_sync multi_sync_simple quorum_replication : WriteStrategyType
  multi_sync_distributed : WriteStrategyType

pub record Settings : Type 0 where
  pub backends : Dict BackendConfig
  pub write_strategy : WriteStrategyType
  pub sync_quorum : ℕ
  pub sync_backends : List String
  pub response_backend : Option String
  pub valkey_url : String

-- `normalize_write_strategy`
unfoldable pub normalize_write_strategy : WriteStrategyType → WriteStrategyType
normalize_write_strategy multi_sync = multi_sync_simple
normalize_write_strategy t = t

-- `if …: raise ValueError(…)`, where the test says what is right
unfoldable pub require : Bool → String → Result (Unit {0})
require true text = ok tt
require false text = raised (exn value_error text)

-- `[name for name, cfg in self.backends.items() if cfg.is_primary]`
unfoldable pub primaries : Dict BackendConfig → List String
primaries [] = []
primaries ((name, cfg) ∷ rest) =
    let more = primaries rest in if cfg.is_primary then name ∷ more else more

-- `get_secondaries`
unfoldable pub get_secondaries : Dict BackendConfig → List String
get_secondaries [] = []
get_secondaries ((name, cfg) ∷ rest) =
    let more = get_secondaries rest in if cfg.is_primary then more else name ∷ more

-- `names or others`
abbrev pub filled : List String → List String → List String
filled [] others = others
filled (name ∷ names) others = name ∷ names

-- `self.sync_backends or list(self.backends.keys())`
unfoldable pub effective_backends : Settings → List String
effective_backends settings = filled settings.sync_backends (Dict.keys settings.backends)

-- `for name in sync_backends: if name not in self.backends: raise …`
unfoldable pub require_known : List String → Dict BackendConfig → Result (Unit {0})
unfolding require
require_known [] backends = ok tt
require_known (name ∷ names) backends =
    and_then (require (Dict.contains name backends) "sync_backends references unknown backend")
      λ _. require_known names backends

abbrev known_response : Option String → Dict BackendConfig → Bool
known_response none backends = true
known_response (some name) backends = Dict.contains name backends

abbrev is_distributed : WriteStrategyType → Bool
is_distributed multi_sync_distributed = true
is_distributed _ = false

-- `validate_backends` where there are backends
unfoldable pub validate_some : Settings → Result (Unit {0})
unfolding require primaries effective_backends require_known
validate_some settings =
    let names = primaries settings.backends in
    let sync = effective_backends settings in
    and_then (require (ltb 0 (length names)) "At least one backend must have is_primary=True") λ _.
      (and_then (require (leb (length names) 1) "Exactly one primary backend allowed") λ _.
        (and_then
          (require (leb settings.sync_quorum (length sync))
            "sync_quorum cannot exceed number of sync_backends")
          λ _.
            (and_then (require_known sync settings.backends) λ _.
              (and_then
                (require (known_response settings.response_backend settings.backends)
                  "response_backend references unknown backend")
                λ _.
                  require
                    (not (is_distributed settings.write_strategy && str_eq settings.valkey_url ""))
                    "valkey.url is required for multi_sync_distributed"))))

-- `validate_backends`
unfoldable pub validate_backends : Settings → Result (Unit {0})
unfolding validate_some
validate_backends settings = elim settings.backends [ [] ↦ ok tt | b ∷ bs ↦ validate_some settings ]

-- the settings after the validator of the strategy
unfoldable pub normalized : Settings → Settings
unfolding normalize_write_strategy
normalized settings = record settings {
  write_strategy = normalize_write_strategy settings.write_strategy;
}

-- the settings that pydantic accepts: the field's bound `ge=1`, and the two validators
unfoldable pub load : Settings → Result Settings
unfolding require validate_backends normalized
load settings =
    and_then (require (leb 1 settings.sync_quorum) "Input should be greater than or equal to 1")
      λ _. (and_then (validate_backends (normalized settings)) λ _. ok (normalized settings))
