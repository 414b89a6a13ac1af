-- ===== src/Config.antt =====
-- The configuration of the layer in infra/infra_core.c (in ppdb/src/internal): its default, its
-- checks, and what is taken over from it.
pub mod Laws
use ai_ppdb.Base.{
  ℕ, Bool, true, false, not, ◌==◌, ◌&&◌, ◌||◌, Option, none, some, ltb, if◌then◌else◌,
}
use ai_ppdb.Base.Int.{ℤ, pos, negsuc}
use ai_ppdb.Base.Words.{sub64}
use ai_ppdb.Error.{InfraError, ok, invalid_param, is_error}
use ai_ppdb.Memory.{MemoryConfig}
use ai_ppdb.Mux.{MuxConfig}
use Prim.Native.Nat.{bit_and}

pub record NetConfig : Type 0 where
  pub flags : ℕ
  pub connect_timeout_ms : ℕ
  pub read_timeout_ms : ℕ
  pub write_timeout_ms : ℕ

-- `infra_config_t`; the name of the log file is an address or NULL.
pub record Config : Type 0 where
  pub memory : MemoryConfig
  pub log_level : ℤ
  pub log_file : Option ℕ
  pub hash_initial_size : ℕ
  pub hash_load_factor : ℕ
  pub mux : MuxConfig
  pub net : NetConfig

-- The parts `log` and `ds` of `g_infra` that a configuration sets.
pub record Global : Type 0 where
  pub log_level : ℤ
  pub log_file : Option ℕ
  pub hash_initial_size : ℕ
  pub hash_load_factor : ℕ

-- `INFRA_DEFAULT_CONFIG`
abbrev pub default_config : Config
default_config = record {
  memory = record { use_memory_pool = false; pool_initial_size = 1048576; pool_alignment = 8 };
  log_level = pos 3;
  log_file = none;
  hash_initial_size = 16;
  hash_load_factor = 75;
  mux = record { max_events = 1024; edge_trigger = false };
  net = record { flags = 0; connect_timeout_ms = 1000; read_timeout_ms = 0; write_timeout_ms = 0 };
}

-- `*config` before, or NULL; the result holds it afterwards.
unfoldable pub infra_config_init : Option Config → InfraError × Option Config
infra_config_init none = (invalid_param, none)
infra_config_init (some c) = (ok, some default_config)

-- `level < INFRA_LOG_LEVEL_NONE || level > INFRA_LOG_LEVEL_TRACE`
abbrev pub level_rejected : ℤ → Bool
level_rejected (negsuc n) = true
level_rejected (pos n) = ltb 5 n

-- The checks of `infra_config_validate` on a configuration that asks for a pool.
abbrev pub pool_rejected : MemoryConfig → Bool
pool_rejected m =
    m.pool_initial_size == 0
    || m.pool_alignment == 0
    || ltb m.pool_alignment 8
    || not (bit_and m.pool_alignment (sub64 m.pool_alignment 1) == 0)

unfoldable pub infra_config_validate : Option Config → InfraError
infra_config_validate none = invalid_param
infra_config_validate (some c) =
    let m = c.memory in
    if m.use_memory_pool && pool_rejected m
    then invalid_param
    else if level_rejected c.log_level
    then invalid_param
    else if c.hash_initial_size == 0 || c.hash_load_factor == 0 || ltb 100 c.hash_load_factor
    then invalid_param
    else ok

unfoldable pub infra_config_apply : Option Config → Global → InfraError × Global
infra_config_apply none g = (invalid_param, g)
infra_config_apply (some c) g =
    let err = infra_config_validate (some c) in
    if is_error err then (err, g) else (
      ok,
      record {
        log_level = c.log_level;
        log_file = c.log_file;
        hash_initial_size = c.hash_initial_size;
        hash_load_factor = c.hash_load_factor;
      },
    )
