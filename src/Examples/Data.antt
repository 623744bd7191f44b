-- ===== src/Examples/Data.antt =====
-- An association list in the place of uthash, and a heap with three servers.
use store_monitor.Common.{◌==◌, if◌then◌else◌, refl, false, none, some, List, [], ◌∷◌, ◌++◌, codes}
use store_monitor.Common.Hash.{UtHash, Entry, lookup, drop_item}
use store_monitor.Connection.Data.{
  Server, Ptr, null, Heap, Queue, QueueType, meta, connect, unknow, process_none, Pool, meta_queue,
  store_queue, monitor_queue, unconnected_queue,
}

abbrev pub assoc : UtHash
assoc = record {
  Table = List Entry;
  empty = [];
  find_str = lookup;
  add_keyptr = λ k p t. t ++ (k, p) ∷ [];
  del = drop_item;
  iter = λ t. t;
  iter-empty = refl;
  iter-add = λ k p t. refl;
  iter-del = λ p t. refl;
  find-iter = λ k t d. refl;
}

-- A server with its links and its connection.
abbrev pub server : Ptr → Ptr → Ptr → Server
server next prev context = record {
  server_id_key = codes "meta_10.0.0.1_6379";
  ip = codes "10.0.0.1";
  port = 6379;
  type = codes "redis";
  connection_state = connect;
  engine = none;
  process_timeout_fn = none;
  server_role = meta;
  queue_id = 0;
  can_write = false;
  next = next;
  prev = prev;
  connection_context = context;
  rw_timer_active = false;
  server_alive_state = unknow;
  process_state = process_none;
  priv_data = none;
}

-- 1 and 2 are linked, 1 without a connection; 3 stands alone.
abbrev pub heap : Heap
heap p =
    if p == 1
    then some (server 2 null null)
    else (if p == 2
        then some (server null 1 77)
        else (if p == 3 then some (server null null null) else none))

abbrev pub queue : Queue
queue = record { head = 1; tail = 2; queue_type = meta_queue }

abbrev pub empty_queue : QueueType → Queue
empty_queue t = record { head = null; tail = null; queue_type = t }

abbrev pub pool : Pool
pool = record {
  heap = heap;
  monitor_server_queue = empty_queue monitor_queue;
  unconnected_server_queue = empty_queue unconnected_queue;
  store_server_num = 0;
  store_server_queue = λ i. empty_queue store_queue;
  meta_server_queue = λ i. queue;
}
