-- ===== src/Engine/Memcached/Query.antt =====
-- engine/memcached.c: the query of a server over its raw connection, and the callbacks of the events.
use store_monitor.Common.{ℕ, if◌then◌else◌, ◌>>=◌, true, false, Option, none, some, List, ℤ, pos}
use store_monitor.Connection.Data.{Ptr, AliveState, up, down}
use store_monitor.Connection.Pool.{update}
use store_monitor.Hiredis.{Client, Accepts}
use store_monitor.Store.{stop_timer}
use store_monitor.Action.Data.{modify, set_to_be_updated}
use store_monitor.Action.Exchange.{update_exchange_state}
use store_monitor.Engine.Packet.{Packet, fresh_packet, Arrival, goes_on, done, read_stats_response}
use store_monitor.Engine.Stats.{log_monitor_info}
use store_monitor.Engine.Raw.{
  RawContext, RawCallback, send_stats, read_response, ev_read, ev_write, no_error,
  raw_async_event_add, raw_async_event_delete,
}
use store_monitor.Engine.Memcached.{
  set_context, on_pool, on_action, raw_async_dis_connect, raw_async_connect_done, RacData, Engine,
}

module _ {T : Type 0} where
  -- `memcachedQueryStateFn`.
  unfoldable pub memcached_query_state_fn : Accepts → ℕ → Ptr → Engine T → Option (Engine T)
  unfolding set_context raw_async_event_add on_action modify update_exchange_state
  memcached_query_state_fn accepts fuel p w = do
    s ← w.world.client.pool.heap p
    c ← w.contexts s.connection_context
    let w = set_context s.connection_context (some (raw_async_event_add ev_write send_stats c)) w
    d ← w.world.action.servers c.rac_data.server_info
    elim d.server_property.pid [
      | some _ ↦ some w
      | none ↦ do
        w ← on_action (modify c.rac_data.server_info (set_to_be_updated true)) w
        world ← update_exchange_state accepts fuel c.rac_data.server_info w.world
        some (record w { world = world })
    ]

  -- `process` is the server's `processStateFn`.
  module _ (process : Ptr → Client → Option Client) where
    -- `memcachedQueryStateDoneCb`.
    unfoldable pub memcached_query_state_done_cb : Ptr → Engine T → Option (Engine T)
    unfolding on_pool update
    memcached_query_state_done_cb p w = do
      c ← w.contexts p
      let alive : AliveState = if no_error c.err then up else down
      w ← on_pool (update c.rac_data.server (λ s. record s { server_alive_state = alive })) w
      client ← process c.rac_data.server w.world.client
      on_pool (update c.rac_data.server stop_timer)
          (record w { world = record (w.world) { client = client } })

    -- The label `done` of `memcachedReadStatsResponse`.
    query_over : Ptr → ℤ → Engine T → Option (Engine T)
    unfolding memcached_query_state_done_cb raw_async_dis_connect
    query_over p e w = do
      w ← memcached_query_state_done_cb p w
      if no_error e then some w else raw_async_dis_connect p w

    -- `memcachedSendStatsToServer`, with the result of `write`: none if it took the whole command,
    -- or `errno`, which may be 0 where it took a part.
    unfoldable pub memcached_send_stats_to_server : Ptr → Option ℤ → Engine T → Option (Engine T)
    unfolding memcached_query_state_done_cb raw_async_dis_connect set_context raw_async_event_add
        raw_async_event_delete
    memcached_send_stats_to_server p failure w = do
      c ← w.contexts p
      _ ← c.rac_data.pkt
      let c = record c { err = pos 0; rac_data = record (c.rac_data) { pkt = some fresh_packet } }
      elim failure [
        | none ↦ some (
            set_context p
              (some (raw_async_event_add ev_read read_response (raw_async_event_delete ev_write c)))
              w)
        | some e ↦ do
          w ← memcached_query_state_done_cb p (set_context p (some (record c { err = e })) w)
          raw_async_dis_connect p w
      ]

    response_done : Ptr → RawContext RacData → ℤ → Packet → Engine T → Option (Engine T)
    unfolding query_over set_context raw_async_event_delete log_monitor_info
    response_done p c e q w =
        if no_error e
        then (do
          (now, last) ← c.rac_data.infos
          let infos = log_monitor_info q.buffer now last
          query_over p e (
              set_context p
                (some (
                  raw_async_event_delete ev_read (record c {
                    rac_data = record (c.rac_data) { pkt = some q; infos = some infos };
                  })))
                w))
        else query_over p e (
            set_context p
              (some (record c { err = e; rac_data = record (c.rac_data) { pkt = some q } })) w)

    -- `memcachedReadStatsResponse`: what is left on the socket if the answer goes on, and the state.
    unfoldable pub memcached_read_stats_response :
        Ptr → List Arrival → Engine T → Option (Option (List Arrival) × Engine T)
    unfolding read_stats_response response_done set_context
    memcached_read_stats_response p s w = do
      c ← w.contexts p
      k ← c.rac_data.pkt
      t ← read_stats_response s k
      elim t [
        | goes_on s' q ↦ some (
          some s',
          set_context p
              (some (record c { err = pos 0; rac_data = record (c.rac_data) { pkt = some q } })) w,
        )
        | done e q ↦ do w ← response_done p c e q w; some (none, w)
      ]

    -- A callback that was handed to `rawAsyncEventAdd`, with what is on the socket and the result of
    -- `write`.
    run_callback :
        RawCallback
        → Ptr
        → List Arrival
        → Option ℤ
        → Engine T
        → Option (Option (List Arrival) × Engine T)
    unfolding memcached_send_stats_to_server memcached_read_stats_response
    run_callback send_stats p s failure w = do
      w ← memcached_send_stats_to_server p failure w
      some (some s, w)
    run_callback read_response p s failure w = memcached_read_stats_response p s w

    -- `rawAsyncReadCallback`.
    unfoldable pub raw_async_read_callback :
        Ptr → List Arrival → Option ℤ → Engine T → Option (Option (List Arrival) × Engine T)
    unfolding run_callback set_context
    raw_async_read_callback p s failure w = do
      c ← w.contexts p
      elim c.read_callback [
        | none ↦ some (some s, set_context p (some (record c { rev_active = false })) w)
        | some cb ↦ run_callback cb p s failure w
      ]

    -- `rawAsyncWriteCallback`; `e` is the error of the connect.
    unfoldable pub raw_async_write_callback :
        Ptr → List Arrival → ℤ → Option ℤ → Engine T → Option (Option (List Arrival) × Engine T)
    unfolding run_callback raw_async_connect_done set_context
    raw_async_write_callback p s e failure w = do
      c ← w.contexts p
      if c.connected
          then elim c.write_callback [
            | none ↦ some (some s, set_context p (some (record c { wev_active = false })) w)
            | some cb ↦ run_callback cb p s failure w
          ]
          else (do w ← raw_async_connect_done p e w; some (some s, w))
