-- ===== src/Examples/Configs.antt =====
-- Settings on concrete values.
use s3mer.Base.Int.{pos}
use s3mer.Base.{[], ◌∷◌, none, true, false, refl}
use s3mer.Pool
use s3mer.Pool.{BackendConfig, CircuitBreakerConfig}
use s3mer.Settings.{Settings, load, quorum_replication}
use s3mer.Settings.Quorum.{load-Serves, Serves}
use s3mer.Examples.Fanouts.{small}

abbrev main : BackendConfig
main = record { is_primary = true; priority = pos 0 }

abbrev copy : BackendConfig
copy = record { is_primary = false; priority = pos 1 }

abbrev breaker_config : CircuitBreakerConfig
breaker_config = record { enabled = true; failure_threshold = 3; open_duration = 10 }

abbrev quorum_of_two : Settings
quorum_of_two = record {
  backends = ("main", main) ∷ ("copy", copy) ∷ [];
  write_strategy = quorum_replication;
  sync_quorum = 2;
  sync_backends = [];
  response_backend = none;
  valkey_url = "";
}

load-Serves_example : Serves quorum_of_two small (Pool.init breaker_config quorum_of_two.backends)
unfolding s3mer.Pool.Built.distinct s3mer.Dict.keys load s3mer.Dict.get
load-Serves_example =
    load-Serves breaker_config small quorum_of_two quorum_of_two "main" main (("copy", copy) ∷ [])
      refl refl refl
