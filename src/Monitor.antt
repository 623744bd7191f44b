-- ===== src/Monitor.antt =====
-- monitor.h, monitor.c, dmonitor.h: the monitored servers of the dmonitor process.
pub mod Clear
pub mod Named
pub mod Alike
pub mod Report
use store_monitor.Common.{
  ℕ, zero, suc, ◌==◌, if◌then◌else◌, ◌>>=◌, Bool, true, false, Option, none, some, List, [], ◌∷◌,
  Str, atoi, to_u16, for_each,
}
use store_monitor.Common.Hash.{UtHash, Entry}
use store_monitor.Config.{Config}
use store_monitor.Connection.Data.{
  Ptr, null, Server, ServerRole, ConnectionState, connect, destroyed, Pool, down, process_none,
  in_process, monitor_timeout, unconnected_servers, monitor_servers, store_servers,
}
use store_monitor.Connection.Pool.{
  update, add_to, get_from, return_from, create_server_info, destroy_server_info,
}
use store_monitor.Hiredis.{Client, Accepts}
use store_monitor.Meta.{fetch_connected}
use store_monitor.Store.{
  start_timer, stop_timer, update_server_state_in_store, update_monitor_state_in_store,
}

-- `stMonitorMap`.
pub record MonitorMap : Type 0 where
  pub ip_port_type : Str
  pub ip : Str
  pub port : ℕ
  pub type : Str
  pub server_info : Ptr

-- `stDMonitor` with the heap of its items; `fresh` and `fresh_server` are the addresses that
-- `calloc` returns next.
pub record Dmonitor (T : Type 0) : Type 0 where
  pub items : Ptr → Option MonitorMap
  pub fresh : Ptr
  pub fresh_server : Ptr
  pub monitor_map_cur : T
  pub monitor_map_tmp : T

-- All that the dmonitor process keeps.
pub record Monitoring (T : Type 0) : Type 0 where
  pub client : Client
  pub dmonitor : Dmonitor T

unfoldable pub put : (Ptr → Option MonitorMap) → Ptr → Option MonitorMap → Ptr → Option MonitorMap
put h p c q = if p == q then c else h q

abbrev pub on_pool : {T : Type 0} → (Pool → Option Pool) → Monitoring T → Option (Monitoring T)
on_pool f w = do c ← f w.client.pool; some (record w { client = record (w.client) { pool = c } })

module _ (H : UtHash) (split_raw : Str → List Str) where
  open H use {Table, empty, find_str, add_keyptr, del, iter}

  -- `dmonitorInit`, the part over its own state.
  unfoldable pub dmonitor_init : Dmonitor Table → Dmonitor Table
  dmonitor_init d = record d { monitor_map_cur = empty; monitor_map_tmp = empty }

  -- A server that was not monitored before.
  unfoldable pub add_monitored :
      Str → List Str → Monitoring Table → Option (Bool × Monitoring Table)
  unfolding put create_server_info update add_to
  add_monitored key (ip ∷ port ∷ type ∷ []) w = do
    let d = w.dmonitor
    let p = d.fresh_server
    let c = create_server_info p ip (to_u16 (atoi port)) type w.client.pool
    c ← update p (λ s. record s { server_role = ServerRole.monitor; connection_state = connect }) c
    c ← add_to unconnected_servers p c
    some (
      true,
      record {
        client = record (w.client) { pool = c };
        dmonitor = record d {
          items = put d.items d.fresh (
              some (record {
                ip_port_type = key;
                ip = ip;
                port = to_u16 (atoi port);
                type = type;
                server_info = p;
              }));
          fresh = suc d.fresh;
          fresh_server = suc p;
          monitor_map_tmp = add_keyptr key d.fresh d.monitor_map_tmp;
        };
      },
    )
  add_monitored key _ w =
      some (false, record w { dmonitor = record (w.dmonitor) { fresh = suc w.dmonitor.fresh } })

  -- `monitorUpdateLocalMetaForServer`; false is the return value -1. The key is a text that hiredis
  -- allocated, and `split_raw` the call of `sdssplitlen` with `sdslen` of it.
  unfoldable pub monitor_update_local_meta_for_server :
      Str → Monitoring Table → Option (Bool × Monitoring Table)
  unfolding add_monitored
  monitor_update_local_meta_for_server key w = elim (find_str key w.dmonitor.monitor_map_cur) [
    | some p ↦ do
      s ← w.dmonitor.items p
      some (
        true,
        record w {
          dmonitor = record (w.dmonitor) {
            monitor_map_cur = del p w.dmonitor.monitor_map_cur;
            monitor_map_tmp = add_keyptr s.ip_port_type p w.dmonitor.monitor_map_tmp;
          };
        },
      )
    | none ↦ add_monitored key (split_raw key) w
  ]

  unfoldable pub drop_monitored : Entry → Monitoring Table → Option (Monitoring Table)
  unfolding put update
  drop_monitored (_, p) w = do
    s ← w.dmonitor.items p
    w ← on_pool (update s.server_info (λ s. record s { connection_state = destroyed })) w
    some (record w {
      dmonitor = record (w.dmonitor) {
        monitor_map_cur = del p w.dmonitor.monitor_map_cur;
        items = put w.dmonitor.items p none;
      };
    })

  -- `monitorClearOldLocalMeta`.
  unfoldable pub monitor_clear_old_local_meta : Monitoring Table → Option (Monitoring Table)
  unfolding for_each drop_monitored
  monitor_clear_old_local_meta w = do
    w ← for_each drop_monitored (iter w.dmonitor.monitor_map_cur) w
    some (record w {
      dmonitor = record (w.dmonitor) {
        monitor_map_cur = w.dmonitor.monitor_map_tmp;
        monitor_map_tmp = empty;
      };
    })

module _ (accepts : Accepts) (fuel : ℕ) (config : Config) where
  unfoldable pub requeue_monitored : ConnectionState → Ptr → Pool → Option Pool
  requeue_monitored connect p c = some c
  requeue_monitored _ p c = add_to monitor_servers p c

  -- `monitorProcessState`.
  unfoldable pub monitor_process_state : Ptr → Client → Option Client
  unfolding fetch_connected update_server_state_in_store update requeue_monitored add_to
  monitor_process_state p c = do
    s ← c.pool.heap p
    (store, pool) ← fetch_connected fuel (store_servers s.queue_id) c.pool
    let c = record c { pool = pool }
    c ←
        (if store == null
          then some c
          else update_server_state_in_store accepts config.server_state_expire_time p store c)
    pool ← update p (λ s. record s { process_state = process_none }) c.pool
    s ← pool.heap p
    pool ← requeue_monitored s.connection_state p pool
    some (record c { pool = pool })

  -- `monitorProcessTimeout`; `processStateFn` is `monitorProcessState`.
  unfoldable pub monitor_process_timeout : Ptr → Client → Option Client
  unfolding monitor_process_state update
  monitor_process_timeout p c = do
    pool ← update p (λ s. record s { server_alive_state = down }) c.pool
    c ← monitor_process_state p (record c { pool = pool })
    pool ← update p stop_timer c.pool
    some (record c { pool = pool })

  -- `startUpdateMonitorStateInStore`. A store server without a connection is removed by a call with
  -- the queue in place of the server and no second argument: a fault.
  start_update_monitor_state : Client → Option Client
  unfolding return_from update_monitor_state_in_store
  start_update_monitor_state c = if return_from (store_servers 0) c.pool == null then some c else do
    s ← c.pool.heap (return_from (store_servers 0) c.pool)
    if s.connection_context == null
        then none
        else update_monitor_state_in_store accepts config.server_state_expire_time
            (return_from (store_servers 0) c.pool) c

  -- `query` is the engine's `queryStateFn`, `destroy` its `destroyConnectionFn`.
  module _ (query : Ptr → Client → Option Client) (destroy : Ptr → Pool → Option Pool) where
    -- `startMonitorForServer`.
    start_monitor : Ptr → Client → Option Client
    unfolding update
    start_monitor p c = do
      c ← query p c
      pool ←
          update p
            (λ s.
              start_timer (record s {
                process_timeout_fn = some monitor_timeout;
                process_state = in_process;
              }))
            c.pool
      some (record c { pool = pool })

    monitor_server : Ptr → Server → ConnectionState → Client → Option Client
    unfolding update destroy_server_info start_monitor add_to
    monitor_server p s destroyed c = do
      pool ←
          (if s.connection_context == null then some c.pool else do
            pool ← destroy p c.pool
            update p (λ s. record s { connection_context = null }) pool)
      pool ← destroy_server_info p pool
      some (record c { pool = pool })
    monitor_server p s _ c =
        if s.connection_context == null
        then (do pool ← add_to unconnected_servers p c.pool; some (record c { pool = pool }))
        else start_monitor p c

    monitor_loop : ℕ → Client → Option Client
    unfolding get_from monitor_server
    monitor_loop zero c = none
    monitor_loop (suc rounds) c = do
      (p, pool) ← get_from monitor_servers c.pool
      let c = record c { pool = pool }
      if p == null then some c else do
        s ← c.pool.heap p
        c ← monitor_server p s s.connection_state c
        monitor_loop rounds c

    -- `monitorTimerCb`.
    unfoldable pub monitor_timer_cb : Client → Option Client
    unfolding monitor_loop start_update_monitor_state
    monitor_timer_cb c = do c ← monitor_loop fuel c; start_update_monitor_state c
