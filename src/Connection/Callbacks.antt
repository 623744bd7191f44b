-- ===== src/Connection/Callbacks.antt =====
-- `onConnectCb` and `onDisConnectCb`: which queue a server is in afterwards.
use store_monitor.Common.{
  ◌==◌, ◌≡◌, ◌≢◌, inl, inr, refl, ap, ◌∙◌, ◌<◌, arith, false, Bool-cases, some, List, [], ◌∷◌, ◌++◌,
  head_or,
}
use store_monitor.Connection.Data.{
  Server, ServerRole, ConnectionState, connect, connected, Ptr, null, Heap, Queue, QueueName,
  meta_servers, store_servers, monitor_servers, unconnected_servers, Pool, write, write_eq,
  write_ne,
}
use store_monitor.Connection.Queue.{modify}
use store_monitor.Connection.Queue.Links.{has, Forward, IsQueue}
use store_monitor.Connection.Queue.Append.{payload, add-append}
use store_monitor.Connection.Queue.Remove.{has-ne}
use store_monitor.Connection.Queue.Move.{IsQueue-same, payload-some}
use store_monitor.Connection.Pool.{
  update, add_to, queue_of, with_queue, role_queue, outside, on_connect_cb, on_dis_connect_cb,
  disconnected,
}

-- A field that is no link is written.
update-IsQueue :
    (h : Heap) (p : Ptr) (s t : Server) (q : Queue) (ps : List Ptr)
    → has p ps ≡ false
    → IsQueue h q ps
    → IsQueue (write h p (some t)) q ps
update-IsQueue h p s t q ps out v =
    IsQueue-same ps (λ a i. write_ne h p a (some t) (has-ne a p ps i out)) v

stays :
    (p : Ptr) (t : Server) (x : ConnectionState) (c : Pool)
    → x ≡ connect
    → t.server_role ≢ ServerRole.monitor
    → disconnected p t x c ≡ some c
unfolding disconnected
stays p t x c e n = rw e (by_role t.server_role n)
  where
    by_role :
        (r : ServerRole)
        → r ≢ ServerRole.monitor
        → elim r [ ServerRole.monitor ↦ add_to unconnected_servers p c | _ ↦ some c ] ≡ some c
    by_role ServerRole.meta n = refl
    by_role ServerRole.store n = refl
    by_role ServerRole.monitor n = absurd (n refl)

module _ (p : Ptr) (c : Pool) (s : Server) (held : c.heap p ≡ some s) where
  -- The pool after the context has been cleared.
  abbrev pub cleared : Pool
  cleared = record c { heap = write c.heap p (some (record s { connection_context = null })) }

  pub clears :
      (on_dis_connect_cb p c)
      ≡ disconnected p (record s { connection_context = null }) s.connection_state cleared
  unfolding on_dis_connect_cb update modify
  clears =
      rw (held, update, modify, write_eq c.heap p (some (record s { connection_context = null })))
        refl

  pub cleared-queues :
      (name : QueueName) (ps : List Ptr)
      → has p ps ≡ false
      → IsQueue c.heap (queue_of name c) ps
      → IsQueue cleared.heap (queue_of name cleared) ps
  unfolding queue_of
  cleared-queues monitor_servers ps out v = update-IsQueue c.heap p s _ _ ps out v
  cleared-queues unconnected_servers ps out v = update-IsQueue c.heap p s _ _ ps out v
  cleared-queues (store_servers i) ps out v = update-IsQueue c.heap p s _ _ ps out v
  cleared-queues (meta_servers i) ps out v = update-IsQueue c.heap p s _ _ ps out v

-- A connect that fails later: the callback for a meta or store server whose connection was still to
-- be made does not fault, only clears its context, and leaves it outside every queue that it was
-- outside of.
pub connect_failure-lost :
    (p : Ptr) (c : Pool) (s : Server)
    → c.heap p ≡ some s
    → s.connection_state ≡ connect
    → s.server_role ≢ ServerRole.monitor
    → (d : Pool) × (on_dis_connect_cb p c ≡ some d)
      × (d.heap p ≡ some (record s { connection_context = null }))
      × ((name : QueueName) (ps : List Ptr)
          → has p ps ≡ false
          → IsQueue c.heap (queue_of name c) ps
          → IsQueue d.heap (queue_of name d) ps)
connect_failure-lost p c s held state role = (
  cleared p c s held,
  clears p c s held
      ∙ stays p (record s { connection_context = null }) s.connection_state (cleared p c s held)
          state role,
  write_eq c.heap p _,
  cleared-queues p c s held,
)

-- A server's record changes, but not its `next`.
Forward-field :
    (h : Heap) (p : Ptr) (s t : Server) (ps : List Ptr)
    → h p ≡ some s
    → t.next ≡ s.next
    → Forward h ps
    → Forward (write h p (some t)) ps
unfolding write
Forward-field h p s t [] held e f = tt
Forward-field h p s t (q ∷ qs) held e f = (
  elim (Bool-cases (p == q)) [
    | inl same ↦ record { cell = t; holds = rw same refl; link = e ∙ next_of (ground arith) }
    | inr other ↦ record { cell = f.0.cell; holds = rw other f.0.holds; link = f.0.link }
  ],
  f.1,
  f.2,
  Forward-field h p s t qs held e f.3,
)
  where
    next_of : p ≡ q → s.next ≡ head_or null qs
    next_of g = let k : s ≡ f.0.cell = (let w = f.0.holds in cc) in ap (λ x. x.next) k ∙ f.0.link

queue_of-with_queue :
    (name : QueueName) (h : Heap) (q : Queue) (c : Pool)
    → queue_of name (with_queue name (h, q) c) ≡ q
unfolding queue_of with_queue
queue_of-with_queue monitor_servers h q c = refl
queue_of-with_queue unconnected_servers h q c = refl
queue_of-with_queue (store_servers i) h q c = ground arith
queue_of-with_queue (meta_servers i) h q c = ground arith

heap-with_queue :
    (name : QueueName) (h : Heap) (q : Queue) (c : Pool) → (with_queue name (h, q) c).heap ≡ h
unfolding with_queue
heap-with_queue monitor_servers h q c = refl
heap-with_queue unconnected_servers h q c = refl
heap-with_queue (store_servers i) h q c = refl
heap-with_queue (meta_servers i) h q c = refl

queue_of-heap :
    (name : QueueName) (h : Heap) (c : Pool)
    → queue_of name (record c { heap = h }) ≡ queue_of name c
unfolding queue_of
queue_of-heap monitor_servers h c = refl
queue_of-heap unconnected_servers h c = refl
queue_of-heap (store_servers i) h c = refl
queue_of-heap (meta_servers i) h c = refl

mark_connected :
    (p : Ptr) (c : Pool) (t : Server)
    → c.heap p ≡ some t
    → update p (λ s. record s { connection_state = connected }) c
      ≡ some (record c { heap = write c.heap p (some (record t { connection_state = connected })) })
unfolding update modify
mark_connected p c t held = rw (held, update, modify) refl

-- The queue of a server's role, with its number in the array.
pub data Destination (s : Server) (c : Pool) : QueueName → Type 0 where
  to_meta :
      s.server_role ≡ ServerRole.meta → s.queue_id < 2 → Destination s c (meta_servers s.queue_id)
  to_monitor : s.server_role ≡ ServerRole.monitor → Destination s c monitor_servers
  to_store :
      s.server_role ≡ ServerRole.store
      → s.queue_id < c.store_server_num
      → Destination s c (store_servers s.queue_id)

destined :
    (s : Server) (c : Pool) (name : QueueName)
    → Destination s c name
    → (role_queue s.server_role s.queue_id ≡ name) × (outside s.server_role s.queue_id c ≡ false)
unfolding role_queue outside
destined s c _ (to_meta r h) = rw r (refl, ground arith)
destined s c _ (to_monitor r) = rw r (refl, refl)
destined s c _ (to_store r h) = rw r (refl, ground arith)

-- `onConnectCb` for a server that is in no queue of its role does not fault, if the server's number
-- is that of a queue in the array: it puts the server last into the meta queue or the store queue
-- of that number, or into the queue of monitored servers, by its role, and marks it as connected.
pub connect-queued :
    (p : Ptr) (c : Pool) (s : Server) (name : QueueName) (ps : List Ptr)
    → c.heap p ≡ some s
    → p ≢ null
    → Destination s c name
    → IsQueue c.heap (queue_of name c) ps
    → has p ps ≡ false
    → (d : Pool) × (t : Server) × (on_connect_cb p c ≡ some d)
      × IsQueue d.heap (queue_of name d) (ps ++ p ∷ [])
      × (d.heap p ≡ some t)
      × (t.connection_state ≡ connected)
unfolding on_connect_cb add_to
connect-queued p c s name ps held ne to v out =
    let (same, inside) = destined s c name to in
    let (g, r, a) = add-append (queue_of name c) ps held ne v out in
    let (t, there) = payload-some (g p) s (a.kept p ∙ ap payload held) in
    let m = with_queue name (g, r) c in
    let at_m : m.heap p ≡ some t = ap (λ h. h p) (heap-with_queue name g r c) ∙ there in
    let u : Server = record t { connection_state = connected } in
    (
      record m { heap = write m.heap p (some u) },
      u,
      rw (held, inside, same, a.runs) (mark_connected p m t at_m),
      rw
          (
            queue_of-heap name (write m.heap p (some u)) m,
            queue_of-with_queue name g r c,
            heap-with_queue name g r c,
          )
          (record {
            first = a.queue.first;
            last = a.queue.last;
            chain = Forward-field g p t u (ps ++ p ∷ []) there refl a.queue.chain;
          }),
      write_eq m.heap p (some u),
      refl,
    )
