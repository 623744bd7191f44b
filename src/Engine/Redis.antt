-- ===== src/Engine/Redis.antt =====
-- engine/redis.c: the connection to a redis server and the query of its state. What hiredis does with
-- a context, and when it runs a callback, is up to the environment.
pub mod Late
use store_monitor.Common.{
  ℕ, suc, ◌==◌, if◌then◌else◌, ◌>>=◌, Bool, true, false, Option, none, some, List, [], ◌∷◌, Str,
  codes, pos,
}
use store_monitor.Connection.Data.{Ptr, null, Server, AliveState, up, down, Pool}
use store_monitor.Connection.Pool.{update, on_connect_cb, on_dis_connect_cb}
use store_monitor.Hiredis.{Client, Accepts, Reply, redis_async_command, redis_query_state_done}
use store_monitor.Store.{stop_timer}
use store_monitor.Action.Data.{Action, DownServer, exchange, no_property, World, put}
use store_monitor.Action.DownList.{free_down_server}
use store_monitor.Action.Info.{is_string}
use store_monitor.Action.Exchange.{update_exchange_state}
use store_monitor.Engine.Info.{RedisData, RedisInfo, log_monitor_info}

-- The program's state with `privData` of the servers that this engine queries, apart from the data
-- that gather.c keeps in the same field of a store server.
pub record Redis (T : Type 0) : Type 0 where
  pub world : World T
  pub priv_data : Ptr → Option RedisData

-- The record that `calloc` leaves, with the key and `toBeUpdated`.
abbrev pub new_server_detail : Str → DownServer
new_server_detail key = record {
  ip_port_type = key;
  ip = none;
  port = 0;
  type = none;
  exchange_state = record { phase = exchange; to_be_updated = true };
  is_no_use = false;
  server_property = no_property;
}

module _ {T : Type 0} where
  unfoldable pub set_data : Ptr → Option RedisData → Redis T → Redis T
  set_data p d w = record w { priv_data = λ q. if p == q then d else w.priv_data q }

  unfoldable pub on_pool : (Pool → Option Pool) → Redis T → Option (Redis T)
  on_pool f w = do
    c ← f w.world.client.pool
    some (record w { world = record (w.world) { client = record (w.world.client) { pool = c } } })

  -- A callback of the server, which is set together with the engine.
  by_engine : (Ptr → Pool → Option Pool) → Ptr → Redis T → Option (Redis T)
  unfolding on_pool
  by_engine f p w = do
    s ← w.world.client.pool.heap p
    elim s.engine [ none ↦ some w | some _ ↦ on_pool (f p) w ]

  -- `redisConnectCb`; the flag is `status == REDIS_OK`.
  unfoldable pub redis_connect_cb : Ptr → Bool → Redis T → Option (Redis T)
  unfolding by_engine on_connect_cb on_dis_connect_cb
  redis_connect_cb p true w = by_engine on_connect_cb p w
  redis_connect_cb p false w = by_engine on_dis_connect_cb p w

  -- `redisCreateConnectionFn`: what `redisAsyncConnect` makes, none where it has an error, which is
  -- freed at once, before a callback is set; false is the return value -1.
  unfoldable pub redis_create_connection_fn : Option Ptr → Ptr → Redis T → Option (Bool × Redis T)
  unfolding on_pool update
  redis_create_connection_fn none p w = do
    w ← on_pool (update p (λ s. record s { connection_context = null })) w
    some (false, w)
  redis_create_connection_fn (some context) p w = do
    w ← on_pool (update p (λ s. record s { connection_context = context })) w
    some (true, w)

  -- The data of a connection is freed. `freeDownServer` is not called with NULL.
  unfoldable pub drop_data : Ptr → Option RedisData → Redis T → Option (Redis T)
  unfolding set_data free_down_server
  drop_data p none w = some w
  drop_data p (some d) w = do
    a ←
        (if d.server_detail == null
          then some w.world.action
          else free_down_server d.server_detail w.world.action)
    some (set_data p none (record w { world = record (w.world) { action = a } }))

  -- `redisDisConnectCb`. On the data of a query to a store server, which stands in the same field,
  -- it frees numbers that it takes for addresses: a fault.
  unfoldable pub redis_dis_connect_cb : Ptr → Redis T → Option (Redis T)
  unfolding drop_data by_engine on_dis_connect_cb
  redis_dis_connect_cb p w = do
    s ← w.world.client.pool.heap p
    w ← elim s.priv_data [ some _ ↦ none | none ↦ drop_data p (w.priv_data p) w ]
    by_engine on_dis_connect_cb p w

  -- `redisDestroyConnectionFn`; `free` is `redisAsyncFree`.
  unfoldable pub redis_destroy_connection_fn :
      (Ptr → Redis T → Option (Redis T)) → Ptr → Redis T → Option (Redis T)
  unfolding on_pool update
  redis_destroy_connection_fn free p w = do
    s ← w.world.client.pool.heap p
    w ← (if s.connection_context == null then some w else free s.connection_context w)
    on_pool (update p (λ s. record s { connection_context = null })) w

  -- A string as the reply to `INFO`; hiredis gives every string reply a text.
  take_info_reply : ℕ → Ptr → Option Str → Redis T → Option (Redis T)
  unfolding set_data log_monitor_info
  take_info_reply now p none w = none
  take_info_reply now p (some info) w = do
    d ← w.priv_data p
    s ← w.world.action.servers d.server_detail
    some (set_data p (some (log_monitor_info now info s.server_property d)) w)

  -- What `redisQueryStateDoneCb` makes of the reply, at the time `now`: without an error and without
  -- a reply the state stays as it was.
  unfoldable pub take_state : ℕ → Ptr → Bool → Option Reply → Redis T → Option (Redis T)
  unfolding on_pool update take_info_reply
  take_state now p true reply w = on_pool (update p (λ s. record s { server_alive_state = down })) w
  take_state now p false none w = some w
  take_state now p false (some r) w =
      if is_string r.type
      then (do
        w ← on_pool (update p (λ s. record s { server_alive_state = up })) w
        take_info_reply now p r.str w)
      else on_pool (update p (λ s. record s { server_alive_state = down })) w

  -- `redisQueryStateDoneCb`; `err` is `ac->err != 0`, and `process` the server's `processStateFn`.
  unfoldable pub redis_query_state_done_cb :
      (Ptr → Client → Option Client) → ℕ → Ptr → Bool → Option Reply → Redis T → Option (Redis T)
  unfolding take_state on_pool update
  redis_query_state_done_cb process now p err reply w = do
    w ← take_state now p err reply w
    client ← process p w.world.client
    on_pool (update p stop_timer) (record w { world = record (w.world) { client = client } })

  -- The data of the first query, at the address that `calloc` returns for the server's properties.
  first_query : Accepts → ℕ → Ptr → Server → Option RedisData → Redis T → Option (Redis T)
  unfolding put set_data update_exchange_state
  first_query accepts fuel p s (some d) w = some w
  first_query accepts fuel p s none w = do
    let a = w.world.action
    world ← update_exchange_state accepts fuel a.fresh (record (w.world) {
      action = record a {
        servers = put a.servers a.fresh (some (new_server_detail s.server_id_key));
        fresh = suc a.fresh;
      };
    })
    some (
        set_data p
          (some (record {
            last = record { time = 0; cmd_proc = pos 0 };
            compute = pos 0;
            server_detail = a.fresh;
          }))
          (record w { world = world }))

  -- `redisQueryStateFn`; what `redisAsyncCommand` returns is ignored.
  unfoldable pub redis_query_state_fn : Accepts → ℕ → Ptr → Redis T → Option (Redis T)
  unfolding first_query redis_async_command
  redis_query_state_fn accepts fuel p w = do
    s ← w.world.client.pool.heap p
    w ← first_query accepts fuel p s (w.priv_data p) w
    some (record w {
      world = record (w.world) {
        client =
            (redis_async_command accepts
              (record {
                to = p;
                callback = redis_query_state_done;
                priv_data = null;
                argv = codes "INFO" ∷ [];
              })
              w.world.client).1;
      };
    })
