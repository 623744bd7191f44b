-- ===== src/Processes.antt =====
-- analyzer.c and dmonitor.c: how the two processes start. The signals, the log and the event loop are
-- left out.
pub mod Started
use store_monitor.Common.{
  ℕ, if◌then◌else◌, ◌>>=◌, Bool, true, false, Option, none, some, List, [], ◌∷◌, Str, ℤ,
}
use store_monitor.Common.Hash.{UtHash}
use store_monitor.Config.{Config, init_config}
use store_monitor.Config.Load.{Loading, load_config}
use store_monitor.Connection.Data.{Pool}
use store_monitor.Connection.Pool.{init_connection_pool}
use store_monitor.Connection.Create.{TypeProperty, TypeTable, init_type_table}
use store_monitor.Action.Data.{Action}
use store_monitor.Action.DownList.{action_init}
use store_monitor.Gather.Data.{Analyzer}
use store_monitor.Gather.Meta.{analyzer_init}
use store_monitor.Monitor.{Dmonitor, dmonitor_init}

-- The callbacks of the periodic timers.
pub data TimerCb : Type 0 where
  meta_update connection_repair gather action_check monitor : TimerCb

-- `repeat` of a timer: an `int` of seconds, or a `double`, here in milliseconds.
pub data Interval : Type 0 where
  seconds : ℤ → Interval
  milliseconds : ℕ → Interval

abbrev pub Timers : Type 0
Timers = List (TimerCb × Interval)

-- `analyzerRun` and `dmonitorRun`: the timers that are started, in order.
unfoldable pub analyzer_run : Config → Timers
analyzer_run c =
    (meta_update, seconds c.meta_update_interval)
    ∷ (connection_repair, seconds c.connection_repair_interval)
    ∷ (gather, seconds c.gather_interval)
    ∷ (action_check, seconds c.action_check_interval)
    ∷ []

unfoldable pub dmonitor_run : Config → Timers
dmonitor_run c =
    (meta_update, seconds c.meta_update_interval)
    ∷ (connection_repair, seconds c.connection_repair_interval)
    ∷ (monitor, milliseconds c.monitor_interval_ms)
    ∷ []

-- The part of the state that both processes have.
pub record Base (T : Type 0) : Type 0 where
  pub loading : Loading
  pub types : TypeTable T

-- What `main` comes to: an exit, or the event loop with the state and the timers.
pub data Main (S : Type 0) : Type 0 where
  exits : Main S
  runs : S → Timers → Main S

-- `dl` is `dlopen` with `dlsym`, `split` is not called here, and `load` is `loadConfig` on the
-- configuration file of the process.
module _ (H : UtHash) (split : Str → List Str) (dl : Str → Option TypeProperty)
    (load : Loading → Option (Bool × Loading)) where
  open H use {Table}

  -- `initConfig` and `loadConfig`, with the state if the program goes on.
  configured : Base Table → Option (Option (Base Table))
  unfolding init_config
  configured b = do
    (taken, l) ← load (record (b.loading) { config = init_config b.loading.config })
    some (if taken then some (record b { loading = l }) else none)

  -- `initConnectionPool` and `initTypeTable`, which `analyzerInit` and `dmonitorInit` both call.
  init_base : Base Table → Bool × Base Table
  unfolding init_connection_pool init_type_table
  init_base b =
      let (ok, t) = init_type_table H dl b.loading.config.type_str b.types in
      (
        ok,
        record b {
          loading = record (b.loading) { pool = init_connection_pool b.loading.pool };
          types = t;
        },
      )

  analyzer_from :
      Option (Base Table)
      → Analyzer Table
      → Action Table
      → Main (Base Table × Analyzer Table × Action Table)
  unfolding init_base analyzer_init action_init analyzer_run
  analyzer_from none a act = exits
  analyzer_from (some b) a act =
      let (ok, b') = init_base b in
      if ok
      then runs (b', analyzer_init H a, action_init H split act) (analyzer_run b.loading.config)
      else exits

  dmonitor_from : Option (Base Table) → Dmonitor Table → Main (Base Table × Dmonitor Table)
  unfolding init_base dmonitor_init dmonitor_run
  dmonitor_from none d = exits
  dmonitor_from (some b) d =
      let (ok, b') = init_base b in
      if ok then runs (b', dmonitor_init H split d) (dmonitor_run b.loading.config) else exits

  -- `main` of the analyzer.
  unfoldable pub analyzer_main :
      Base Table
      → Analyzer Table
      → Action Table
      → Option (Main (Base Table × Analyzer Table × Action Table))
  unfolding configured analyzer_from
  analyzer_main b a act = do b ← configured b; some (analyzer_from b a act)

  -- `main` of the dmonitor.
  unfoldable pub dmonitor_main :
      Base Table → Dmonitor Table → Option (Main (Base Table × Dmonitor Table))
  unfolding configured dmonitor_from
  dmonitor_main b d = do b ← configured b; some (dmonitor_from b d)
