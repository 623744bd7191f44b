-- ===== src/Connection/Pool.antt =====
-- connection.c, the functions over `connectionPool`: its creation, a queue's operations on the heap
-- that all queues share, the server records and the callbacks of a connection.
use store_monitor.Common.{
  ℕ, ◌==◌, if◌then◌else◌, ◌>>=◌, Bool, leb, false, Option, none, some, [], ◌∷◌, Str, take, decimal,
  join,
}
use store_monitor.Connection.Data.{
  Server, ServerRole, ConnectionState, connect, connected, destroyed, process_none, down, Ptr, null,
  Heap, Queue, QueueType, meta_queue, store_queue, monitor_queue, unconnected_queue, QueueName,
  monitor_servers, unconnected_servers, store_servers, meta_servers, Pool, write,
}
use store_monitor.Connection.Queue.{
  modify, add_server_to_server_queue, get_server_from_server_queue, return_server_from_server_queue,
  rm_server_from_server_queue,
}

unfoldable pub queue_of : QueueName → Pool → Queue
queue_of monitor_servers c = c.monitor_server_queue
queue_of unconnected_servers c = c.unconnected_server_queue
queue_of (store_servers i) c = c.store_server_queue i
queue_of (meta_servers i) c = c.meta_server_queue i

unfoldable pub with_queue : QueueName → Heap × Queue → Pool → Pool
with_queue monitor_servers (h, q) c = record c { heap = h; monitor_server_queue = q }
with_queue unconnected_servers (h, q) c = record c { heap = h; unconnected_server_queue = q }
with_queue (store_servers i) (h, q) c = record c {
  heap = h;
  store_server_queue = λ j. if i == j then q else c.store_server_queue j;
}
with_queue (meta_servers i) (h, q) c = record c {
  heap = h;
  meta_server_queue = λ j. if i == j then q else c.meta_server_queue j;
}

-- `addServerToServerQueue(p, &connectionPool.name)`.
unfoldable pub add_to : QueueName → Ptr → Pool → Option Pool
unfolding queue_of with_queue
add_to name p c = do
  hq ← add_server_to_server_queue p (c.heap, queue_of name c)
  some (with_queue name hq c)

unfoldable pub get_from : QueueName → Pool → Option (Ptr × Pool)
unfolding queue_of with_queue
get_from name c = do
  (p, h, q) ← get_server_from_server_queue (c.heap, queue_of name c)
  some (p, with_queue name (h, q) c)

unfoldable pub return_from : QueueName → Pool → Ptr
unfolding queue_of
return_from name c = return_server_from_server_queue (queue_of name c)

unfoldable pub rm_from : QueueName → Ptr → Pool → Option Pool
unfolding queue_of with_queue
rm_from name p c = do
  hq ← rm_server_from_server_queue p (c.heap, queue_of name c)
  some (with_queue name hq c)

-- `server->field = …`.
unfoldable pub update : Ptr → (Server → Server) → Pool → Option Pool
update p f c = do h ← modify p f c.heap; some (record c { heap = h })

empty_queue : QueueType → Queue → Queue
empty_queue t q = record q { queue_type = t }

-- The heads and tails are left as they are: `loadConfig` has filled the unconnected queue before.
-- The arrays of store and meta queues are allocated empty.
unfoldable pub init_connection_pool : Pool → Pool
unfolding empty_queue
init_connection_pool c = record c {
  monitor_server_queue = empty_queue monitor_queue c.monitor_server_queue;
  unconnected_server_queue = empty_queue unconnected_queue c.unconnected_server_queue;
  store_server_queue = λ i. record { head = null; tail = null; queue_type = store_queue };
  meta_server_queue = λ i. record { head = null; tail = null; queue_type = meta_queue };
}

-- `snprintf(tmp, 256, "%s_%u_%s", …)`.
unfoldable pub id_key : Str → ℕ → Str → Str
id_key ip port type = take 255 (join b'_' (ip ∷ decimal port ∷ type ∷ []))

-- `createServerInfo` at the address `p` that `calloc` returned, not NULL.
unfoldable pub create_server_info : Ptr → Str → ℕ → Str → Pool → Pool
unfolding id_key
create_server_info p ip port type c = record c {
  heap = write c.heap p (
      some (record {
        server_id_key = id_key ip port type;
        ip = ip;
        port = port;
        type = type;
        connection_state = connect;
        engine = none;
        process_timeout_fn = none;
        server_role = ServerRole.meta;
        queue_id = 0;
        can_write = false;
        next = null;
        prev = null;
        connection_context = null;
        rw_timer_active = false;
        server_alive_state = down;
        process_state = process_none;
        priv_data = none;
      }));
}

-- `destroyServerInfo`: the record is freed.
unfoldable pub destroy_server_info : Ptr → Pool → Option Pool
destroy_server_info p c = do s ← c.heap p; some (record c { heap = write c.heap p none })

-- The queue that a connected server goes to.
unfoldable pub role_queue : ServerRole → ℕ → QueueName
role_queue ServerRole.meta i = meta_servers i
role_queue ServerRole.monitor i = monitor_servers
role_queue ServerRole.store i = store_servers i

-- Whether the index is behind the end of the array: there are two meta queues, and
-- `storeServerNum` store queues.
unfoldable pub outside : ServerRole → ℕ → Pool → Bool
outside ServerRole.meta i c = leb 2 i
outside ServerRole.monitor i c = false
outside ServerRole.store i c = leb c.store_server_num i

unfoldable pub on_connect_cb : Ptr → Pool → Option Pool
unfolding role_queue outside add_to update
on_connect_cb p c = do
  s ← c.heap p
  if outside s.server_role s.queue_id c then none else do
    c ← add_to (role_queue s.server_role s.queue_id) p c
    update p (λ s. record s { connection_state = connected }) c

-- The branch on the state that the connection was in.
unfoldable pub disconnected : Ptr → Server → ConnectionState → Pool → Option Pool
disconnected p s destroyed c = some c
disconnected p s connect c = elim s.server_role [
  | ServerRole.monitor ↦ add_to unconnected_servers p c
  | _ ↦ some c
]
disconnected p s _ c = update p (λ s. record s { connection_state = connect }) c

unfoldable pub on_dis_connect_cb : Ptr → Pool → Option Pool
unfolding disconnected update add_to
on_dis_connect_cb p c = do
  c ← update p (λ s. record s { connection_context = null }) c
  s ← c.heap p
  disconnected p s s.connection_state c
