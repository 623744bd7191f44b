-- ===== src/Engine/Stats.antt =====
-- engine/memcached.c, `logMonitorInfo`: the text of the answer to `STATS` is taken apart.
pub mod Recorded
pub mod RoundTrip
use store_monitor.Common.{
  ℕ, zero, suc, ◌==◌, if◌then◌else◌, ◌>>=◌, Bool, true, false, ◌||◌, Option, none, some, List, [],
  ◌∷◌, Str, codes, str_eq, atoi, take, length, ℤ, pos, negsuc, ◌-ℤ◌, to_int, to_long, bytes_at,
}
use store_monitor.Common.Text.Search.{strchr}
use store_monitor.Engine.Packet.{buf_len}

-- `stMonitorInfo`: the integer fields under the keys of their statistics, and the values that
-- `atof` reads.
pub record MonitorInfo : Type 0 where
  pub time : ℤ
  pub counters : Str → ℤ
  pub rusage : Str → Str

-- What the function keeps in variables of its own, for the line that it logs.
pub record Reported : Type 0 where
  pub uptime : ℤ
  pub version : Str
  pub buildinfo : Str
  pub bytes : ℤ
  pub limit_max_bytes : ℤ
  pub slab_reassign_running : ℤ

pub record Stats : Type 0 where
  pub now : MonitorInfo
  pub reported : Reported

-- The keys whose values go to a counter of `now`.
abbrev pub counter_keys : List Str
counter_keys =
    codes "curr_connections"
    ∷ codes "total_connections"
    ∷ codes "curr_items"
    ∷ codes "cmd_get"
    ∷ codes "cmd_set"
    ∷ codes "get_hits"
    ∷ codes "get_misses"
    ∷ codes "delete_hits"
    ∷ codes "delete_misses"
    ∷ codes "bytes_read"
    ∷ codes "bytes_written"
    ∷ codes "listen_disabled_num"
    ∷ codes "conn_yields"
    ∷ codes "expired_unfetched"
    ∷ codes "evicted_unfetched"
    ∷ codes "evictions"
    ∷ codes "reclaimed"
    ∷ codes "slabs_moved"
    ∷ []

abbrev pub rusage_keys : List Str
rusage_keys = codes "rusage_user" ∷ codes "rusage_system" ∷ []

unfoldable pub is_one_of : Str → List Str → Bool
is_one_of key [] = false
is_one_of key (k ∷ ks) = str_eq key k || is_one_of key ks

-- What one statistic does: its key, its value, and the number that the value starts with, which
-- `atoi` and `atoll` make an `int` or a `long long` of.
module _ (key value : Str) (number : ℤ) where
  unfoldable pub set_now : MonitorInfo → MonitorInfo
  unfolding is_one_of
  set_now m =
      if str_eq key (codes "time")
      then record m { time = to_int (to_long number) }
      else (if is_one_of key counter_keys
          then record m { counters = λ k. if str_eq k key then to_long number else m.counters k }
          else (if is_one_of key rusage_keys
              then record m { rusage = λ k. if str_eq k key then value else m.rusage k }
              else m))

  set_reported : Reported → Reported
  set_reported r =
      if str_eq key (codes "uptime")
      then record r { uptime = to_int (to_long number) }
      else (if str_eq key (codes "version")
          then record r { version = take 63 value }
          else (if str_eq key (codes "buildinfo")
              then record r { buildinfo = take 127 value }
              else (if str_eq key (codes "bytes")
                  then record r { bytes = to_long number }
                  else (if str_eq key (codes "limit_maxbytes")
                      then record r { limit_max_bytes = to_long number }
                      else (if str_eq key (codes "slab_reassign_running")
                          then record r { slab_reassign_running = to_int (to_long number) }
                          else r)))))

  unfoldable pub set_stat : Stats → Stats
  unfolding set_now set_reported
  set_stat t = record { now = set_now t.now; reported = set_reported t.reported }

-- The loop over the text; false is the return for an invalid text. A number is read from where the
-- value starts, and may so run beyond it.
unfoldable pub read_stats : ℕ → Str → Stats → Bool × Stats
unfolding strchr set_stat
read_stats zero s t = (true, t)
read_stats (suc fuel) s t = elim (strchr b'=' s) [
  | none ↦ (true, t)
  | some (key, behind) ↦ elim (strchr b' ' behind) [
    | none ↦ (false, t)
    | some (value, rest) ↦ read_stats fuel rest (set_stat key value (atoi behind) t)
  ]
]

-- A C string at the start of some bytes.
unfoldable pub c_string : List ℕ → Str
c_string [] = []
c_string (c ∷ cs) = if c == 0 then [] else c ∷ c_string cs

unfoldable pub no_reported : Reported
no_reported = record {
  uptime = pos 0;
  version = [];
  buildinfo = [];
  bytes = pos 0;
  limit_max_bytes = pos 0;
  slab_reassign_running = pos 0;
}

unfoldable pub is_negative : ℤ → Bool
is_negative (pos n) = false
is_negative (negsuc n) = true

unfoldable pub is_zero : ℤ → Bool
is_zero (pos n) = n == 0
is_zero (negsuc n) = false

-- Whether `now` and `last` are exchanged at the end: not after a step back in time.
unfoldable pub advances : MonitorInfo → MonitorInfo → Bool
unfolding is_negative is_zero
advances now last =
    if is_zero last.time
    then true
    else (if is_negative (to_int (now.time -ℤ last.time)) then false else true)

-- `logMonitorInfo` without the logging and without `compute`, which only the log line uses: the
-- records behind `now` and `last` afterwards.
unfoldable pub log_monitor_info : (ℕ → ℕ) → MonitorInfo → MonitorInfo → MonitorInfo × MonitorInfo
unfolding read_stats c_string no_reported advances
log_monitor_info buffer now last =
    let text = c_string (bytes_at buffer 0 buf_len) in
    let (valid, t) =
      read_stats (suc (length text)) text (record { now = now; reported = no_reported }) in
    if valid then (if advances t.now last then (last, t.now) else (t.now, last)) else (t.now, last)
