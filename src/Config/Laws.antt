-- ===== src/Config/Laws.antt =====
-- The checks of infra/infra_core.c on a configuration, beside those of infra/infra_memory.c.
use ai_ppdb.Base.{◌≡◌, true, some, arith, ltb}
use ai_ppdb.Error.{ok}
use ai_ppdb.Memory.{header}
use ai_ppdb.Memory.Api.{pool_config_rejected}
use ai_ppdb.Config.{Config, infra_config_validate}

-- Of the configurations with a pool that infra_config_validate accepts, infra_memory_init
-- rejects exactly those whose initial size is less than the header of a block.
pub validate-pool_config :
    (c : Config)
    → c.memory.use_memory_pool ≡ true
    → infra_config_validate (some c) ≡ ok
    → pool_config_rejected c.memory ≡ ltb c.memory.pool_initial_size header
unfolding infra_config_validate pool_config_rejected
validate-pool_config c pooled valid = ground arith
