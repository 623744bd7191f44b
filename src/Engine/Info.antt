-- ===== src/Engine/Info.antt =====
-- engine/redis.c, `logMonitorInfo`: the reply to `INFO` is taken apart.
pub mod Sections
use store_monitor.Common.{
  ℕ, zero, suc, ◌+◌, leb, if◌then◌else◌, Bool, true, false, Option, none, some, List, [], ◌∷◌, Str,
  codes, str_eq, take, drop, length, atoi, ℤ, pos, ◌-ℤ◌,
}
use store_monitor.Action.Data.{ServerProperty}
use store_monitor.Connection.Data.{Ptr}
use store_monitor.Common.Text.Search.{strchr}

-- `stRedisMonitorInfo`, the time in microseconds.
pub record RedisInfo : Type 0 where
  pub time : ℕ
  pub cmd_proc : ℤ

-- `redisData`. Of `compute` the program uses `cmd_proc` only.
pub record RedisData : Type 0 where
  pub last : RedisInfo
  pub compute : ℤ
  pub server_detail : Ptr

-- The variables of the function, and what it keeps in `now` and `compute`. `db` is the text from
-- which `sscanf` reads `keys` and `expires`.
pub record InfoFields : Type 0 where
  pub memory : ℤ
  pub rss : ℤ
  pub cmd_proc : ℤ
  pub sync_delay : ℤ
  pub db : Str
  pub fork_usec : ℤ
  pub clients : ℤ
  pub now_cmd_proc : ℤ
  pub compute : ℤ

unfoldable pub no_fields : ℤ → InfoFields
no_fields compute = record {
  memory = pos 0;
  rss = pos 0;
  cmd_proc = pos 0;
  sync_delay = pos 0;
  db = [];
  fork_usec = pos 0;
  clients = pos 0;
  now_cmd_proc = pos 0;
  compute = compute;
}

-- `total_commands_processed`; the flag is `useOldCompute`.
set_commands : Bool → ℤ → ℤ → InfoFields → InfoFields
set_commands true last n t = record t { now_cmd_proc = n; cmd_proc = t.compute }
set_commands false last n t = record t {
  now_cmd_proc = n;
  cmd_proc = n -ℤ last;
  compute = n -ℤ last;
}

module _ (use_old : Bool) (last : ℤ) where
  -- One field. Numbers are exact here also beyond the range of `long long`.
  unfoldable pub set_field : Str → Str → InfoFields → InfoFields
  unfolding set_commands
  set_field key value t =
      if str_eq key (codes "used_memory")
      then record t { memory = atoi value }
      else (if str_eq key (codes "used_memory_rss")
          then record t { rss = atoi value }
          else (if str_eq key (codes "total_commands_processed")
              then set_commands use_old last (atoi value) t
              else (if str_eq key (codes "sync_delay_mstime")
                  then record t { sync_delay = atoi value }
                  else (if str_eq (take 2 key) (codes "db")
                      then record t { db = value }
                      else (if str_eq key (codes "latest_fork_usec")
                          then record t { fork_usec = atoi value }
                          else (if str_eq key (codes "connected_clients")
                              then record t { clients = atoi value }
                              else t))))))

  -- The loop: a key up to `:`, a value up to `\r`, and the byte behind it is passed over. False is
  -- the return for an invalid reply. The reply holds no NUL.
  unfoldable pub read_info : ℕ → Str → InfoFields → Bool × InfoFields
  unfolding strchr set_field
  read_info zero s t = (true, t)
  read_info (suc fuel) [] t = (true, t)
  read_info (suc fuel) (c ∷ s) t = elim (strchr b':' (c ∷ s)) [
    | none ↦ (false, t)
    | some (key, behind) ↦ elim (strchr b'\r' behind) [
      | none ↦ (false, t)
      | some (value, rest) ↦ read_info fuel (drop 1 rest) (set_field key value t)
    ]
  ]

-- What an invalid reply leaves is the new `compute`.
after_info : ℕ → RedisData → Bool × InfoFields → RedisData
after_info now d (false, t) = record d { compute = t.compute }
after_info now d (true, t) = record d {
  last = record { time = now; cmd_proc = t.now_cmd_proc };
  compute = t.compute;
}

-- `logMonitorInfo` without the logging, at the time `now`; nothing is read as long as `pid` or
-- `cluster` is not known.
unfoldable pub log_monitor_info : ℕ → Str → ServerProperty → RedisData → RedisData
unfolding read_info no_fields after_info
log_monitor_info now info p d = elim p.pid [
  | none ↦ d
  | some _ ↦ elim p.cluster [
    | none ↦ d
    | some _ ↦ after_info now d (
        read_info (leb now d.last.time) d.last.cmd_proc (suc (length info)) info
          (no_fields d.compute))
  ]
]
