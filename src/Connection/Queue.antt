-- ===== src/Connection/Queue.antt =====
-- connection.c, the server queues: doubly linked lists through the `next` and `prev` fields. A
-- result of `none` is a write through a NULL or dangling pointer.
pub mod Links
pub mod Append
pub mod Remove
pub mod Move
use store_monitor.Common.{ℕ, ◌==◌, if◌then◌else◌, ◌>>=◌, Option, none, some}
use store_monitor.Connection.Data.{Server, Ptr, null, Heap, Queue, monitor_queue, write}

-- `p->field = …`, with the new record computed from the old.
unfoldable pub modify : Ptr → (Server → Server) → Heap → Option Heap
modify p f h = elim (h p) [ none ↦ none | some s ↦ some (write h p (some (f s))) ]

abbrev pub set_next : Ptr → Server → Server
set_next q s = record s { next = q }

abbrev pub set_prev : Ptr → Server → Server
set_prev q s = record s { prev = q }

abbrev pub set_links : Ptr → Ptr → Server → Server
set_links b n s = record s { prev = b; next = n }

unfoldable pub add_server_to_server_queue : Ptr → Heap × Queue → Option (Heap × Queue)
unfolding modify write
add_server_to_server_queue p (h, q) = do
  h ← modify p (set_links null null) h
  h ←
      (if q.tail == null
        then some h
        else (do h ← modify q.tail (set_next p) h; modify p (set_prev q.tail) h))
  some (h, record q { tail = p; head = if q.head == null then p else q.head })

-- The server that is taken out, NULL where the queue is empty.
unfoldable pub get_server_from_server_queue : Heap × Queue → Option (Ptr × Heap × Queue)
unfolding modify write
get_server_from_server_queue (h, q) = if q.head == null then some (null, h, q) else do
  s ← h q.head
  h ← modify q.head (set_links null null) h
  some (q.head, h, record q { head = s.next; tail = if s.next == null then null else q.tail })

unfoldable pub return_server_from_server_queue : Queue → Ptr
return_server_from_server_queue q = elim q.queue_type [ monitor_queue ↦ null | _ ↦ q.head ]

unfoldable pub rm_server_from_server_queue : Ptr → Heap × Queue → Option (Heap × Queue)
unfolding modify write
rm_server_from_server_queue p (h, q) = if p == null then some (h, q) else do
  s ← h p
  h ← (if s.prev == null then some h else modify s.prev (set_next s.next) h)
  s' ← h p
  h ← (if s'.next == null then some h else modify s'.next (set_prev s'.prev) h)
  h ← modify p (set_links null null) h
  some (
    h,
    record q {
      head = if s.prev == null then s.next else q.head;
      tail = if s'.next == null then s'.prev else q.tail;
    },
  )
