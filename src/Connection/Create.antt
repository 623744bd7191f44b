-- ===== src/Connection/Create.antt =====
-- connection.c: the table of engine types, the creation and reset of a connection, the read/write
-- timeout, and the timer that repairs connections.
pub mod Repair
pub mod Requeue
pub mod Ends
use store_monitor.Common.{
  ℕ, suc, ◌+◌, ◌==◌, if◌then◌else◌, ◌>>=◌, Bool, true, false, not, Option, none, some, List, [],
  ◌∷◌, Str,
}
use store_monitor.Common.Hash.{UtHash}
use store_monitor.Connection.Data.{
  Server, ConnectionState, connect, destroyed, Ptr, null, TimeoutFn, Pool, Heap,
  unconnected_servers,
}
use store_monitor.Connection.Queue.{set_next}
use store_monitor.Connection.Pool.{update, add_to, get_from, destroy_server_info}

-- `stTypeProperty`: which functions the engine's shared object has.
pub record TypeProperty : Type 0 where
  pub type : Str
  pub create_connection_fn : Bool
  pub destroy_connection_fn : Bool
  pub query_state_fn : Bool

-- `typeTable` with the heap of its items; `fresh` is the address that `calloc` returns next.
pub record TypeTable (T : Type 0) : Type 0 where
  pub table : T
  pub types : Ptr → Option TypeProperty
  pub fresh : Ptr

-- What `createConnectionFn` of the engine at an address does: whether it returns 0, and the value
-- that it leaves in `connectionContext`.
abbrev pub CreateFn : Type 0
CreateFn = Ptr → Server → Bool × Ptr

module _ (H : UtHash) where
  open H use {Table, find_str, add_keyptr}

  -- `dlopen` and `dlsym`: the functions found in the shared object, if it can be loaded.
  load_type : (Str → Option TypeProperty) → Str → TypeTable Table → Bool × TypeTable Table
  load_type dl type t = elim (find_str type t.table) [
    | some _ ↦ (true, t)
    | none ↦ elim (dl type) [
      | none ↦ (false, t)
      | some found ↦
          if found.create_connection_fn
          then (if found.destroy_connection_fn
              then (if found.query_state_fn
                  then (
                    true,
                    record {
                      table = add_keyptr type t.fresh t.table;
                      types = λ p.
                          if t.fresh == p then some (record found { type = type }) else t.types p;
                      fresh = suc t.fresh;
                    },
                  )
                  else (false, t))
              else (false, t))
          else (false, t)
    ]
  ]

  -- `initTypeTable`; false is the return value -1.
  unfoldable pub init_type_table :
      (Str → Option TypeProperty) → List Str → TypeTable Table → Bool × TypeTable Table
  unfolding load_type
  init_type_table dl [] t = (true, t)
  init_type_table dl (type ∷ rest) t =
      let (ok, t') = load_type dl type t in
      let others = init_type_table dl rest t' in if ok then others else (false, t')

  -- The engine of a server's type, if it is in the table with all three functions.
  unfoldable pub find_engine : TypeTable Table → Str → Option (Option Ptr)
  find_engine t type = elim (find_str type t.table) [
    | none ↦ some none
    | some q ↦ do
      e ← t.types q
      some (
          if e.create_connection_fn
          then (if e.destroy_connection_fn
              then (if e.query_state_fn then some q else none)
              else none)
          else none)
  ]

  connect_with : CreateFn → Ptr → Ptr → Pool → Option (Bool × Pool)
  unfolding update
  connect_with create e p c = do
    s ← c.heap p
    let (done, context) = create e s
    c ← update p (λ s. record s { connection_context = context }) c
    some (done, c)

  -- `createConnectionForServer`; false is the return value -1.
  unfoldable pub create_connection_for_server :
      CreateFn → TypeTable Table → Ptr → Pool → Option (Bool × Pool)
  unfolding find_engine connect_with update
  create_connection_for_server create t p c = do
    s ← c.heap p
    elim s.engine [
      | some e ↦ connect_with create e p c
      | none ↦ do
        found ← find_engine t s.type
        elim found [
          | none ↦ some (false, c)
          | some e ↦ do
            c ← update p (λ s. record s { engine = some e }) c
            connect_with create e p c
        ]
    ]

-- `resetConnectionForServer`, with the engine's `destroyConnectionFn`.
unfoldable pub reset_connection_for_server : (Ptr → Pool → Option Pool) → Ptr → Pool → Option Pool
reset_connection_for_server destroy p c = destroy p c

-- `rwTimeoutTimerCb`, with the function behind `processTimeoutFn`.
unfoldable pub rw_timeout_timer_cb :
    (TimeoutFn → Ptr → Pool → Option Pool) → (Ptr → Pool → Option Pool) → Ptr → Pool → Option Pool
unfolding reset_connection_for_server update
rw_timeout_timer_cb timeout destroy p c = do
  c ← update p (λ s. record s { connection_state = connect }) c
  s ← c.heap p
  c ← elim s.process_timeout_fn [ none ↦ some c | some f ↦ timeout f p c ]
  reset_connection_for_server destroy p c
