-- ===== src/Store.antt =====
-- store.c: what is written to a store server.
use store_monitor.Common.{◌>>=◌, true, false, Option, some, [], ◌∷◌, Str, codes, signed_decimal, ℤ}
use store_monitor.Connection.Data.{Server, Ptr, null, Pool, up, store_timeout, connect}
use store_monitor.Connection.Pool.{update}
use store_monitor.Hiredis.{Client, Accepts, update_server_state_in_store_done, redis_async_command}

-- `ev_timer_again` and `ev_timer_stop` on `rwTimeoutTimer`.
abbrev pub start_timer : Server → Server
start_timer s = record s { rw_timer_active = true }

abbrev pub stop_timer : Server → Server
stop_timer s = record s { rw_timer_active = false }

-- `storeServerTimeout`.
unfoldable pub store_server_timeout : Ptr → Pool → Option Pool
unfolding update
store_server_timeout p c = update p stop_timer c

-- `updateServerStateInStoreDone`: the timer stops unless the server was reset.
unfoldable pub update_server_state_in_store_done_cb : Ptr → Pool → Option Pool
unfolding update
update_server_state_in_store_done_cb p c = do
  s ← c.heap p
  elim s.connection_state [ connect ↦ some c | _ ↦ update p stop_timer c ]

-- `SETEX key expire 1`, and the timer that waits for the reply.
unfoldable pub set_up : Accepts → Ptr → Str → ℤ → Client → Option Client
unfolding update redis_async_command
set_up accepts store key expire c = do
  let c =
      (redis_async_command accepts
        (record {
          to = store;
          callback = update_server_state_in_store_done;
          priv_data = null;
          argv = codes "SETEX" ∷ key ∷ signed_decimal expire ∷ codes "1" ∷ [];
        })
        c).1
  pool ←
      update store (λ s. start_timer (record s { process_timeout_fn = some store_timeout })) c.pool
  some (record c { pool = pool })

-- `updateServerStateInStore`.
unfoldable pub update_server_state_in_store : Accepts → ℤ → Ptr → Ptr → Client → Option Client
unfolding set_up
update_server_state_in_store accepts expire server store c = do
  s ← c.pool.heap server
  elim s.server_alive_state [ up ↦ set_up accepts store s.server_id_key expire c | _ ↦ some c ]

-- `updateMonitorStateInStore`.
unfoldable pub update_monitor_state_in_store : Accepts → ℤ → Ptr → Client → Option Client
unfolding set_up
update_monitor_state_in_store accepts expire store c =
    set_up accepts store (codes "monitor_state") expire c
