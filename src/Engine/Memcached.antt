-- ===== src/Engine/Memcached.antt =====
-- engine/memcached.c: the connection to a memcached server and the query of its state.
pub mod Query
pub mod Lost
pub mod Information
pub mod Stale
use store_monitor.Common.{
  ℕ, suc, ◌==◌, if◌then◌else◌, ◌>>=◌, Bool, true, false, Option, none, some, List, [], Str, ℤ, pos,
}
use store_monitor.Connection.Data.{Ptr, null, AliveState, up, down, Pool}
use store_monitor.Connection.Pool.{update, on_connect_cb, on_dis_connect_cb}
use store_monitor.Hiredis.{Client, Accepts}
use store_monitor.Store.{stop_timer}
use store_monitor.Action.Data.{
  Action, DownServer, exchange, no_property, World, put, modify, set_to_be_updated,
}
use store_monitor.Action.DownList.{free_down_server}
use store_monitor.Action.Exchange.{update_exchange_state}
use store_monitor.Engine.Packet.{Packet, fresh_packet, Arrival, goes_on, done, read_stats_response}
use store_monitor.Engine.Stats.{MonitorInfo, log_monitor_info}
use store_monitor.Engine.Raw.{
  RawContext, RawCallback, send_stats, read_response, ev_read, ev_write, no_error, Attempt,
  raw_async_connect, raw_async_libev_attach, raw_async_event_add, raw_async_event_delete,
}

-- `stRACData`, without `compute`. `infos` are the records behind `now` and `last`.
pub record RacData : Type 0 where
  pub pkt : Option Packet
  pub server : Ptr
  pub infos : Option (MonitorInfo × MonitorInfo)
  pub server_info : Ptr

-- The program's state with the contexts of the raw connections; `fresh_context` is the address that
-- `calloc` returns next, and a freed one is not used again.
pub record Engine (T : Type 0) : Type 0 where
  pub world : World T
  pub contexts : Ptr → Option (RawContext RacData)
  pub fresh_context : Ptr

abbrev pub no_info : MonitorInfo
no_info = record { time = pos 0; counters = λ _. pos 0; rusage = λ _. [] }

-- The record that `calloc` leaves, with the key.
abbrev pub new_server_info : Str → DownServer
new_server_info key = record {
  ip_port_type = key;
  ip = none;
  port = 0;
  type = none;
  exchange_state = record { phase = exchange; to_be_updated = false };
  is_no_use = false;
  server_property = no_property;
}

-- What `memcachedDisConnectCb` leaves.
abbrev pub no_data : RacData
no_data = record { pkt = none; server = null; infos = none; server_info = null }

module _ {T : Type 0} where
  unfoldable pub set_context : Ptr → Option (RawContext RacData) → Engine T → Engine T
  set_context p c w = record w { contexts = λ q. if p == q then c else w.contexts q }

  unfoldable pub on_pool : (Pool → Option Pool) → Engine T → Option (Engine T)
  on_pool f w = do
    c ← f w.world.client.pool
    some (record w { world = record (w.world) { client = record (w.world.client) { pool = c } } })

  unfoldable pub on_action : (Action T → Option (Action T)) → Engine T → Option (Engine T)
  on_action f w = do
    a ← f w.world.action
    some (record w { world = record (w.world) { action = a } })

  -- The properties go with the connection: a record whose `pid` is not known yet stays for the reply
  -- to `HGETALL`.
  release : Option Str → Ptr → Engine T → Option (Engine T)
  unfolding on_action modify free_down_server
  release none p w = on_action (modify p (λ s. record s { is_no_use = true })) w
  release (some _) p w = on_action (free_down_server p) w

  drop_server_info : Ptr → Engine T → Option (Engine T)
  unfolding release
  drop_server_info p w =
      if p == null
      then some w
      else do d ← w.world.action.servers p; release d.server_property.pid p w

  -- `memcachedDisConnectCb`. The engine is set together with the callbacks.
  unfoldable pub memcached_dis_connect_cb : Ptr → Engine T → Option (Engine T)
  unfolding set_context on_pool drop_server_info on_dis_connect_cb
  memcached_dis_connect_cb p w = do
    c ← w.contexts p
    s ← w.world.client.pool.heap c.rac_data.server
    w ← elim s.engine [ none ↦ some w | some _ ↦ on_pool (on_dis_connect_cb c.rac_data.server) w ]
    w ← drop_server_info c.rac_data.server_info w
    some (set_context p (some (record c { rac_data = no_data })) w)

  -- `rawAsyncDisConnect`: the context is freed behind the callback.
  unfoldable pub raw_async_dis_connect : Ptr → Engine T → Option (Engine T)
  unfolding memcached_dis_connect_cb set_context
  raw_async_dis_connect p w = do w ← memcached_dis_connect_cb p w; some (set_context p none w)

  -- `memcachedConnectCb`; the flag is `status == RAC_OK`.
  unfoldable pub memcached_connect_cb : Ptr → Bool → Engine T → Option (Engine T)
  unfolding raw_async_dis_connect set_context on_pool raw_async_event_delete on_connect_cb
  memcached_connect_cb p false w = raw_async_dis_connect p w
  memcached_connect_cb p true w = do
    c ← w.contexts p
    s ← w.world.client.pool.heap c.rac_data.server
    w ← elim s.engine [ none ↦ some w | some _ ↦ on_pool (on_connect_cb c.rac_data.server) w ]
    some (
        set_context p (some (raw_async_event_delete ev_write (raw_async_event_delete ev_read c))) w)

  -- `rawAsyncConnectDone`, with what `getsockopt` says: 0, or the error of the connect.
  unfoldable pub raw_async_connect_done : Ptr → ℤ → Engine T → Option (Engine T)
  unfolding memcached_connect_cb set_context
  raw_async_connect_done p e w = do
    c ← w.contexts p
    let ok = no_error e
    memcached_connect_cb p ok (set_context p (some (record c { err = e; connected = ok })) w)

  -- `memcachedCreateConnectionFn` for the server at `p`; false is the return value -1. A context
  -- that could not connect is not freed. The packet is written before it is read.
  unfoldable pub memcached_create_connection_fn :
      (Str → Option (List Attempt)) → Ptr → Engine T → Option (Bool × Engine T)
  unfolding raw_async_connect raw_async_libev_attach set_context on_pool update put
  memcached_create_connection_fn resolve p w = do
    s ← w.world.client.pool.heap p
    let (err, is_open) = raw_async_connect resolve s.port
    let a = w.world.action
    let q = w.fresh_context
    if no_error err
        then (do
          w ← on_pool (update p (λ s. record s { connection_context = q })) (record w {
            fresh_context = suc q;
            world = record (w.world) {
              action = record a {
                servers = put a.servers a.fresh (some (new_server_info s.server_id_key));
                fresh = suc a.fresh;
              };
            };
          })
          some (
            true,
            set_context q
                (some (
                  raw_async_libev_attach is_open err (record {
                    pkt = some fresh_packet;
                    server = p;
                    infos = some (no_info, no_info);
                    server_info = a.fresh;
                  })))
                w,
          ))
        else some (false, record w { fresh_context = suc q })

  -- `memcachedDestroyConnectionFn`.
  unfoldable pub memcached_destroy_connection_fn : Ptr → Engine T → Option (Engine T)
  unfolding raw_async_dis_connect on_pool update
  memcached_destroy_connection_fn p w = do
    s ← w.world.client.pool.heap p
    w ←
        (if s.connection_context == null
          then some w
          else raw_async_dis_connect s.connection_context w)
    on_pool (update p (λ s. record s { connection_context = null })) w
