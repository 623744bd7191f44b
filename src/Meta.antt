-- ===== src/Meta.antt =====
-- meta.c: which meta server is asked, and what is done with the list of servers that it returns.
pub mod Fetch
use store_monitor.Common.{
  ℕ, zero, suc, ◌==◌, if◌then◌else◌, ◌>>=◌, Bool, true, false, Option, none, some, List, [], ◌∷◌,
  ◌++◌, Str, codes,
}
use store_monitor.Connection.Data.{
  Ptr, null, Pool, QueueName, unconnected_servers, meta_servers, store_servers,
}
use store_monitor.Connection.Pool.{return_from, rm_from, add_to}
use store_monitor.Hiredis.{
  Reply, ReplyType, Element, array, Sent, Client, Accepts, update_local_meta, redis_async_command,
}

abbrev pub readonly : ℕ
readonly = 0

abbrev pub readwrite : ℕ
readwrite = 1

-- The loop of `fetchMetaServerForRead`, `fetchMetaServerForWrite` and of the code that looks for a
-- store server: the first server of the queue that has a connection, while those without one move
-- to the unconnected queue. `none` also means that the fuel ran out.
unfoldable pub fetch_connected : ℕ → QueueName → Pool → Option (Ptr × Pool)
unfolding return_from rm_from add_to
fetch_connected zero name c = none
fetch_connected (suc fuel) name c = if return_from name c == null then some (null, c) else do
  s ← c.heap (return_from name c)
  if s.connection_context == null
      then (do
        c' ← rm_from name (return_from name c) c
        c' ← add_to unconnected_servers (return_from name c) c'
        fetch_connected fuel name c')
      else some (return_from name c, c)

unfoldable pub fetch_meta_server_for_read : ℕ → Pool → Option (Ptr × Pool)
unfolding fetch_connected
fetch_meta_server_for_read fuel c = do
  (p, c) ← fetch_connected fuel (meta_servers readonly) c
  if p == null then fetch_connected fuel (meta_servers readwrite) c else some (p, c)

unfoldable pub fetch_meta_server_for_write : ℕ → Pool → Option (Ptr × Pool)
unfolding fetch_connected
fetch_meta_server_for_write fuel c = fetch_connected fuel (meta_servers readwrite) c

-- `metaUpdateTimerCb`: the result of `redisAsyncCommand` changes nothing but the log.
unfoldable pub meta_update_timer_cb : Accepts → ℕ → Str → Client → Option Client
unfolding fetch_meta_server_for_read redis_async_command
meta_update_timer_cb accepts fuel monitor_group c = do
  (p, pool) ← fetch_meta_server_for_read fuel c.pool
  some (
      if p == null
      then record c { pool = pool }
      else (redis_async_command accepts
          (record {
            to = p;
            callback = update_local_meta;
            priv_data = null;
            argv = codes "SMEMBERS" ∷ (monitor_group ++ codes "_monitor_server_list") ∷ [];
          })
          (record c { pool = pool })).1)

module _ {S : Type 0} (update_fn : Str → S → Option S) (clear_fn : S → Option S) where
  -- The members of the list in turn; the failure of one is ignored.
  unfoldable pub update_members : List Element → S → Option S
  update_members [] w = some w
  update_members (e ∷ es) w = do key ← e.str; w ← update_fn key w; update_members es w

  -- `updateLocalMeta`, the callback of `SMEMBERS`, with the functions set by `initMeta`.
  unfoldable pub update_local_meta_cb : Bool → Option Reply → S → Option S
  unfolding update_members
  update_local_meta_cb true reply w = some w
  update_local_meta_cb false none w = some w
  update_local_meta_cb false (some r) w = elim r.type [
    | array ↦ do w ← update_members r.elements w; clear_fn w
    | _ ↦ some w
  ]
