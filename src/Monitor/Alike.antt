-- ===== src/Monitor/Alike.antt =====
-- Changes of servers that leave their connection states.
use store_monitor.Common.{
  ◌==◌, if◌then◌else◌, ◌≡◌, ◌⊎◌, inl, inr, refl, sym, ap, ◌∙◌, arith, Bool, true, Bool-cases,
  Option, none, some,
}
use store_monitor.Connection.Data.{Server, ConnectionState, Ptr, null, Heap, Pool, Queue, write}
use store_monitor.Connection.Queue.{
  modify, set_links, set_next, set_prev, add_server_to_server_queue,
}
use store_monitor.Connection.Queue.Append.{payload}
use store_monitor.Connection.Pool.{update}

-- The connection state of the server at an address, if there is one.
abbrev pub state_at : Option Server → Option ConnectionState
state_at none = none
state_at (some s) = some s.connection_state

pub state-payload : (a b : Option Server) → payload a ≡ payload b → state_at a ≡ state_at b
state-payload none none e = refl
state-payload none (some t) e = cc
state-payload (some s) none e = cc
state-payload (some s) (some t) e = ground arith

-- The heaps have the same servers, in the same connection states.
abbrev pub Alike : Heap → Heap → Type 0
Alike h g = (q : Ptr) → state_at (g q) ≡ state_at (h q)

pub there :
    (a : Option Server) (x : ConnectionState)
    → state_at a ≡ some x
    → (s : Server) × (a ≡ some s) × (s.connection_state ≡ x)
there none x e = cc
there (some s) x e = (s, refl, ground arith)

-- A change of a server that leaves its connection state.
modified :
    (p : Ptr) (f : Server → Server) (h : Heap) (x : ConnectionState)
    → state_at (h p) ≡ some x
    → ((s : Server) → (f s).connection_state ≡ s.connection_state)
    → (g : Heap) × (modify p f h ≡ some g) × Alike h g
unfolding modify write
modified p f h x e keeps =
    let (s, v, k) = there (h p) x e in
    (
      write h p (some (f s)),
      rw (modify, v) refl,
      λ q. elim (Bool-cases (p == q)) [
        | inl same ↦
            let at : h q ≡ some s = ap h (sym (let g : p ≡ q = ground arith in g)) ∙ v in
            ap state_at (if_true (p == q) _ _ same) ∙ ap some (keeps s) ∙ sym (ap state_at at)
        | inr other ↦ rw other refl
      ],
    )
  where
    if_true : (b : Bool) (x y : Option Server) → b ≡ true → (if b then x else y) ≡ x
    if_true b x y e = rw e refl

pub updated :
    (p : Ptr) (f : Server → Server) (c : Pool) (x : ConnectionState)
    → state_at (c.heap p) ≡ some x
    → ((s : Server) → (f s).connection_state ≡ s.connection_state)
    → (h : Heap) × (update p f c ≡ some (record c { heap = h })) × Alike c.heap h
unfolding update
updated p f c x e keeps =
    let (h, runs, same) = modified p f c.heap x e keeps in (h, rw runs refl, same)

-- A queue to which a server can be added: its tail is NULL or on the heap.
abbrev pub Open : Heap → Queue → Type 0
Open h q = (q.tail ≡ null) ⊎ ((y : ConnectionState) × (state_at (h q.tail) ≡ some y))

pub appended :
    (p : Ptr) (h : Heap) (q : Queue) (x : ConnectionState)
    → state_at (h p) ≡ some x
    → Open h q
    → (g : Heap) × (r : Queue) × (add_server_to_server_queue p (h, q) ≡ some (g, r))
      × (r.tail ≡ p)
      × Alike h g
unfolding add_server_to_server_queue
appended p h q x e (inl t) =
    let (h1, runs, same) = modified p (set_links null null) h x e (λ s. refl) in
    (
      h1,
      record q { tail = p; head = if q.head == null then p else q.head },
      rw (add_server_to_server_queue, runs, t) refl,
      refl,
      same,
    )
appended p h q x e (inr (y, t)) =
    let (h1, runs1, same1) = modified p (set_links null null) h x e (λ s. refl) in
    let (h2, runs2, same2) = modified q.tail (set_next p) h1 y (same1 q.tail ∙ t) (λ s. refl) in
    let (h3, runs3, same3) =
      modified p (set_prev q.tail) h2 x (same2 p ∙ same1 p ∙ e) (λ s. refl) in
    elim (Bool-cases (q.tail == null)) [
      | inl n ↦ (
        h1,
        record q { tail = p; head = if q.head == null then p else q.head },
        rw (add_server_to_server_queue, runs1, n) refl,
        refl,
        same1,
      )
      | inr n ↦ (
        h3,
        record q { tail = p; head = if q.head == null then p else q.head },
        rw (add_server_to_server_queue, runs1, n, runs2, runs3) refl,
        refl,
        λ a. same3 a ∙ same2 a ∙ same1 a,
      )
    ]

pub Open-same : (h g : Heap) (q : Queue) → Alike h g → Open h q → Open g q
Open-same h g q same (inl t) = inl t
Open-same h g q same (inr (y, t)) = inr (y, same q.tail ∙ t)
