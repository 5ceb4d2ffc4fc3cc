-- ===== src/Settings/Factory.antt =====
-- The choice of the write strategy (src/s3mer/backends/write_factory.py).
use s3mer.Base.{String, Option, none, some, List, [], ◌∷◌}
use s3mer.Settings.{
  Settings, primary_replication, multi_sync, multi_sync_simple, quorum_replication,
  multi_sync_distributed,
}
use s3mer.Streaming.Shared.{StreamConfig}
use s3mer.Sync.{SyncConfig}

-- `settings.sync_backends or None`
unfoldable pub names_or_none : List String → Option (List String)
names_or_none [] = none
names_or_none (name ∷ names) = some (name ∷ names)

-- `sync_kwargs`
unfoldable pub sync_config : Settings → StreamConfig → SyncConfig
unfolding names_or_none
sync_config settings stream = record {
  stream_config = stream;
  sync_backend_names = names_or_none settings.sync_backends;
  sync_quorum = settings.sync_quorum;
  response_backend = settings.response_backend;
}

pub data WriteStrategy : Type 0 where
  primary : StreamConfig → WriteStrategy
  simple quorum distributed : SyncConfig → WriteStrategy

-- `build_write_strategy`; its last case, for a value that is no member of the enumeration, cannot be reached
unfoldable pub build_write_strategy : Settings → StreamConfig → WriteStrategy
unfolding sync_config
build_write_strategy settings stream = elim settings.write_strategy [
  | primary_replication ↦ primary stream
  | multi_sync ↦ simple (sync_config settings stream)
  | multi_sync_simple ↦ simple (sync_config settings stream)
  | quorum_replication ↦ quorum (sync_config settings stream)
  | multi_sync_distributed ↦ distributed (sync_config settings stream)
]
