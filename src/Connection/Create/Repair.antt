-- ===== src/Connection/Create/Repair.antt =====
-- `connectionRepairTimerCb` of connection.c.
use store_monitor.Common.{ℕ, zero, suc, ◌==◌, if◌then◌else◌, ◌>>=◌, Option, none, some}
use store_monitor.Common.Hash.{UtHash}
use store_monitor.Connection.Data.{ConnectionState, connect, Ptr, null, Pool, unconnected_servers}
use store_monitor.Connection.Queue.{set_next}
use store_monitor.Connection.Pool.{update, add_to, get_from, destroy_server_info}
use store_monitor.Connection.Create.{CreateFn, TypeTable, create_connection_for_server}

-- The local list `failedServerHead`, `failedServerTail`.
pub record Failed : Type 0 where
  pub first : Ptr
  pub last : Ptr

-- A server whose connection could not be created goes behind the local list.
unfoldable pub chain_failed : Ptr → Pool × Failed → Option (Pool × Failed)
unfolding update
chain_failed p (c, f) = do
  c ← update p (set_next null) c
  if f.first == null
      then some (c, record { first = p; last = p })
      else do c ← update f.last (set_next p) c; some (c, record f { last = p })

-- The second loop. `addServerToServerQueue` comes before `next` is read. The fuel bounds the rounds;
-- `none` also means that it ran out.
unfoldable pub requeue : ℕ → Ptr → Pool → Option Pool
unfolding add_to
requeue zero p c = none
requeue (suc fuel) p c =
    if p == null
    then some c
    else do c ← add_to unconnected_servers p c; s ← c.heap p; requeue fuel s.next c

module _ (H : UtHash) (create : CreateFn) (t : TypeTable H.Table) where
  -- One server of the unconnected queue, by its state.
  unfoldable pub repair_server : Ptr → ConnectionState → Pool × Failed → Option (Pool × Failed)
  unfolding create_connection_for_server chain_failed destroy_server_info
  repair_server p connect (c, f) = do
    (done, c) ← create_connection_for_server H create t p c
    if done then some (c, f) else chain_failed p (c, f)
  repair_server p _ (c, f) = do c ← destroy_server_info p c; some (c, f)

  -- The first loop, with fuel.
  unfoldable pub repair_loop : ℕ → Pool × Failed → Option (Pool × Failed)
  unfolding repair_server get_from
  repair_loop zero cf = none
  repair_loop (suc fuel) (c, f) = do
    (p, c) ← get_from unconnected_servers c
    if p == null
        then some (c, f)
        else do s ← c.heap p; cf ← repair_server p s.connection_state (c, f); repair_loop fuel cf

  -- `connectionRepairTimerCb`.
  unfoldable pub connection_repair_timer_cb : ℕ → Pool → Option Pool
  unfolding repair_loop requeue
  connection_repair_timer_cb fuel c = do
    (c, f) ← repair_loop fuel (c, record { first = null; last = null })
    requeue fuel f.first c
