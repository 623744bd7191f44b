-- ===== src/Examples/Repairs.antt =====
-- The repair of two servers, and the callbacks of a connection.
use store_monitor.Common.{◌<◌, ◌≡◌, refl, arith, true, false, none, some, List, [], ◌∷◌, length}
use store_monitor.Common.Hash.{lookup}
use store_monitor.Connection.Data.{Server, connected, QueueName, meta_servers, Ptr, null, Pool}
use store_monitor.Connection.Queue.Links.{has, IsQueue}
use store_monitor.Connection.Pool.{queue_of, on_connect_cb, on_dis_connect_cb}
use store_monitor.Connection.Callbacks.{connect_failure-lost, to_meta, connect-queued}
use store_monitor.Connection.Create.{CreateFn, TypeTable, find_engine}
use store_monitor.Connection.Create.Repair.{connection_repair_timer_cb}
use store_monitor.Connection.Create.Ends.{Loaded}
use store_monitor.Connection.Create.Ends.Loop.{repair-ends}
use store_monitor.Examples.Data.{assoc, server, queue, pool}
use store_monitor.Examples.Queues.{queue-IsQueue}

abbrev apart : Pool
apart = record pool { unconnected_server_queue = queue }

abbrev creates : CreateFn
creates e s = (true, 5)

abbrev no_types : TypeTable assoc.Table
no_types = record { table = []; types = λ p. none; fresh = 1 }

no_types-Loaded : Loaded creates assoc no_types
unfolding find_engine lookup
no_types-Loaded type = (none, refl)

repair-ends_example :
    (d : Pool) × (ps : List Ptr) × (connection_repair_timer_cb assoc creates no_types 3 apart
      ≡ some d)
    × IsQueue d.heap d.unconnected_server_queue ps
    × (length ps < 2)
repair-ends_example =
    repair-ends assoc creates no_types no_types-Loaded 3 apart (1 ∷ 2 ∷ []) queue-IsQueue
      (omega arith) (omega arith)

abbrev alone : Server
alone = server null null null

meta-IsQueue : IsQueue pool.heap (queue_of (meta_servers 0) pool) (1 ∷ 2 ∷ [])
unfolding queue_of
meta-IsQueue = queue-IsQueue

connect-queued_example :
    (d : Pool) × (t : Server) × (on_connect_cb 3 pool ≡ some d)
    × IsQueue d.heap (queue_of (meta_servers 0) d) (1 ∷ 2 ∷ 3 ∷ [])
    × (d.heap 3 ≡ some t)
    × (t.connection_state ≡ connected)
connect-queued_example =
    connect-queued 3 pool alone (meta_servers 0) (1 ∷ 2 ∷ []) refl (omega arith)
      (to_meta refl (omega arith)) meta-IsQueue refl

connect_failure-lost_example :
    (d : Pool) × (on_dis_connect_cb 3 pool ≡ some d)
    × (d.heap 3 ≡ some (record alone { connection_context = null }))
    × ((name : QueueName) (ps : List Ptr)
        → has 3 ps ≡ false
        → IsQueue pool.heap (queue_of name pool) ps
        → IsQueue d.heap (queue_of name d) ps)
connect_failure-lost_example = connect_failure-lost 3 pool alone refl refl (λ e. cc)
