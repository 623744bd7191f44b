-- ===== src/Config.antt =====
-- config.h and `initConfig` of config.c. Times that the program keeps as `double` seconds are in
-- milliseconds here. `serverDownQuota` is only compared with counts, so a negative one is 0 here.
pub mod Load
use store_monitor.Common.{ℕ, List, Str, ℤ, pos}

-- `stServerConfig`, without `logFile`, which nothing sets or reads.
pub record Config : Type 0 where
  pub log_level : ℤ
  pub port : ℕ
  pub type_str : List Str
  pub lib_dir : Str
  pub monitor_group : Str
  pub meta_update_interval : ℤ
  pub connection_repair_interval : ℤ
  pub monitor_interval_ms : ℕ
  pub gather_interval : ℤ
  pub action_check_interval : ℤ
  pub server_state_expire_time : ℤ
  pub rw_timeout_ms : ℕ
  pub server_down_quota : ℕ
  pub scripts_dir : Str
  pub exchange_script_file : Str

-- `initConfig`; the other fields keep what they hold.
unfoldable pub init_config : Config → Config
init_config c = record c {
  meta_update_interval = pos 5;
  connection_repair_interval = pos 1;
  monitor_interval_ms = 3000;
  action_check_interval = pos 3;
  rw_timeout_ms = 500;
  server_state_expire_time = pos 15;
  server_down_quota = 3;
}
