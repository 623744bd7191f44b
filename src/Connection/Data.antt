-- ===== src/Connection/Data.antt =====
-- engine.h, connection.h: the server record, the queues and the pool that connection.c works on.
-- A server is named by its address, and the records stand on a heap.
use store_monitor.Common.{ℕ, ◌≡◌, ◌≢◌, arith, Bool, Option, Str, ◌==◌, if◌then◌else◌}

pub data ServerRole : Type 0 where
  meta store monitor : ServerRole

pub data ConnectionState : Type 0 where
  connect connecting connected destroyed reset : ConnectionState

pub data ProcessState : Type 0 where
  process_none in_process : ProcessState

pub data AliveState : Type 0 where
  down up unknow : AliveState

-- The functions that the program stores in `processTimeoutFn`.
pub data TimeoutFn : Type 0 where
  gather_timeout store_timeout monitor_timeout : TimeoutFn

-- `stGatherData`, which `privData` points to.
pub record GatherData : Type 0 where
  pub gather_seq_id : ℕ
  pub gather_server_list_id : ℕ

abbrev pub Ptr : Type 0
Ptr = ℕ

abbrev pub null : Ptr
null = 0

-- `stServerInfo`. `engine` is set with the four callbacks and `queryStateFn`, all at once;
-- `connection_context` is the address of the client library's context.
pub record Server : Type 0 where
  pub server_id_key : Str
  pub ip : Str
  pub port : ℕ
  pub type : Str
  pub connection_state : ConnectionState
  pub engine : Option Ptr
  pub process_timeout_fn : Option TimeoutFn
  pub server_role : ServerRole
  pub queue_id : ℕ
  pub can_write : Bool
  pub next : Ptr
  pub prev : Ptr
  pub connection_context : Ptr
  pub rw_timer_active : Bool
  pub server_alive_state : AliveState
  pub process_state : ProcessState
  pub priv_data : Option GatherData

abbrev pub Heap : Type 0
Heap = Ptr → Option Server

unfoldable pub write : Heap → Ptr → Option Server → Heap
write h p c q = if p == q then c else h q

pub data QueueType : Type 0 where
  meta_queue store_queue monitor_queue unconnected_queue : QueueType

-- `stServerInfoQueue`.
pub record Queue : Type 0 where
  pub head : Ptr
  pub tail : Ptr
  pub queue_type : QueueType

-- Which queue of the pool.
pub data QueueName : Type 0 where
  monitor_servers unconnected_servers : QueueName
  store_servers meta_servers : ℕ → QueueName

-- `connectionPool` with the heap of its servers. The arrays of queues are functions of the index;
-- `on_connect_cb` tests that the index is in the array, and behind it the queues are empty.
pub record Pool : Type 0 where
  pub heap : Heap
  pub monitor_server_queue : Queue
  pub unconnected_server_queue : Queue
  pub store_server_num : ℕ
  pub store_server_queue : ℕ → Queue
  pub meta_server_queue : ℕ → Queue

pub write_eq : (h : Heap) (p : Ptr) (c : Option Server) → write h p c p ≡ c
unfolding write
write_eq h p c = ground arith

pub write_ne : (h : Heap) (p a : Ptr) (c : Option Server) → p ≢ a → write h p c a ≡ h a
unfolding write
write_ne h p a c n = ground arith
