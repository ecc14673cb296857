-- ===== src/Config.antt =====
-- src/config.rs: the limits of the payload cache, and the WAL's own configuration, which is the WAL
-- crate's.
use raft_log.Prelude.{ℕ, Option, none, some, ◌*◌}

pub record Config (WalConfig : Type 0) : Type 0 where
  pub wal : WalConfig
  pub log_cache_max_items : Option ℕ
  pub log_cache_capacity : Option ℕ

abbrev unwrap_or : Option ℕ → ℕ → ℕ
unwrap_or none d = d
unwrap_or (some a) d = a

unfoldable pub max_items : {C : Type 0} → Config C → ℕ
max_items c = unwrap_or c.log_cache_max_items 100_000

unfoldable pub capacity : {C : Type 0} → Config C → ℕ
capacity c = unwrap_or c.log_cache_capacity (1024 * 1024 * 1024)
