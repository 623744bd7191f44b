-- ===== src/Meta/Fetch.antt =====
-- The search for a connected server ends, and moves exactly the servers without a connection that
-- stand before it.
use store_monitor.Common.{
  ℕ, zero, suc, ◌<◌, ◌≡◌, ◌≢◌, inl, inr, refl, sym, ap, subst, ◌∙◌, true, false, ◌==◌,
  if◌then◌else◌, Bool-cases, Option, none, some, List, [], ◌∷◌, ◌++◌, arith, length, head_or,
  append_assoc, append-nil,
}
use store_monitor.Connection.Data.{
  Server, Ptr, null, Heap, monitor_queue, Pool, QueueName, unconnected_servers, store_servers,
  meta_servers,
}
use store_monitor.Connection.Queue.{return_server_from_server_queue}
use store_monitor.Connection.Queue.Append.{payload}
use store_monitor.Connection.Queue.Move.{Pair, move_first}
use store_monitor.Connection.Pool.{queue_of, with_queue, return_from, rm_from, add_to}
use store_monitor.Meta.{fetch_connected}

-- The queues that are searched.
pub data Searched : QueueName → Type 0 where
  stores : (i : ℕ) → Searched (store_servers i)
  metas : (i : ℕ) → Searched (meta_servers i)

-- `connectionContext` of the server at an address.
abbrev context : Option Server → Ptr
context none = null
context (some s) = s.connection_context

context-payload : (a b : Option Server) → payload a ≡ payload b → context a ≡ context b
context-payload none none e = refl
context-payload none (some t) e = cc
context-payload (some s) none e = cc
context-payload (some s) (some t) e = ground arith

-- The servers before the first that has a connection.
unfoldable pub lost : Heap → List Ptr → List Ptr
lost h [] = []
lost h (p ∷ ps) = if context (h p) == null then p ∷ lost h ps else []

unfoldable pub live : Heap → List Ptr → List Ptr
live h [] = []
live h (p ∷ ps) = if context (h p) == null then live h ps else p ∷ ps

lost-same :
    (h g : Heap) (ps : List Ptr)
    → ((a : Ptr) → context (g a) ≡ context (h a))
    → (lost g ps ≡ lost h ps) × (live g ps ≡ live h ps)
unfolding lost live
lost-same h g [] e = (refl, refl)
lost-same h g (p ∷ ps) e = rw (e p) (ground (arith, lost-same h g ps e))

module _ (h : Heap) (p : Ptr) (ps : List Ptr) where
  gone_front :
      context (h p) ≡ null → (lost h (p ∷ ps) ≡ p ∷ lost h ps) × (live h (p ∷ ps) ≡ live h ps)
  unfolding lost live
  gone_front e = ground arith

  live_front : context (h p) ≢ null → (lost h (p ∷ ps) ≡ []) × (live h (p ∷ ps) ≡ p ∷ ps)
  unfolding lost live
  live_front e = ground arith

-- The search and the unconnected queue of a pool.
abbrev pub Holds : QueueName → Pool → List Ptr → List Ptr → Type 0
Holds name c ps us =
    Pair c.heap (queue_of name c) ps c.unconnected_server_queue us
    × ((queue_of name c).queue_type ≢ monitor_queue)

pub record Found (name : QueueName) (c : Pool) (ps us : List Ptr) (d : Pool) : Type 0 where
  pub holds : Holds name d (live c.heap ps) (us ++ lost c.heap ps)
  pub kept : (a : Ptr) → payload (d.heap a) ≡ payload (c.heap a)
  pub monitors : d.monitor_server_queue ≡ c.monitor_server_queue

-- One round of the loop, on a server without a connection.
record Round (name : QueueName) (c : Pool) (p : Ptr) (ps us : List Ptr) (d : Pool) : Type 0 where
  mid : Pool
  removes : rm_from name p c ≡ some mid
  adds : add_to unconnected_servers p mid ≡ some d
  holds : Holds name d ps (us ++ p ∷ [])
  kept : (a : Ptr) → payload (d.heap a) ≡ payload (c.heap a)
  monitors : d.monitor_server_queue ≡ c.monitor_server_queue

==_refl : (i : ℕ) → (i == i) ≡ true
==_refl i = ground arith

round :
    (name : QueueName)
    → Searched name
    → (c : Pool) (p : Ptr) (ps us : List Ptr) → Holds name c (p ∷ ps) us
    → (d : Pool) × Round name c p ps us d
unfolding rm_from add_to queue_of with_queue
round _ (stores i) c p ps us v =
    let (g, r, t, m) = move_first (c.store_server_queue i) p ps c.unconnected_server_queue us v.0 in
    (
      with_queue unconnected_servers (g, t) (with_queue (store_servers i) (m.mid, r) c),
      record {
        mid = with_queue (store_servers i) (m.mid, r) c;
        removes = rw m.removes;
        adds = rw m.adds;
        holds = rw (==_refl i) (m.pair, λ e. v.1 (sym m.type ∙ e));
        kept = m.kept;
        monitors = refl;
      },
    )
round _ (metas i) c p ps us v =
    let (g, r, t, m) = move_first (c.meta_server_queue i) p ps c.unconnected_server_queue us v.0 in
    (
      with_queue unconnected_servers (g, t) (with_queue (meta_servers i) (m.mid, r) c),
      record {
        mid = with_queue (meta_servers i) (m.mid, r) c;
        removes = rw m.removes;
        adds = rw m.adds;
        holds = rw (==_refl i) (m.pair, λ e. v.1 (sym m.type ∙ e));
        kept = m.kept;
        monitors = refl;
      },
    )

return_head :
    (name : QueueName) (c : Pool) (ps us : List Ptr)
    → Holds name c ps us
    → return_from name c ≡ head_or null ps
unfolding return_from return_server_from_server_queue
return_head name c ps us v = ground (arith, v.0.from.queue.first)

-- For a queue of store or meta servers, doubly linked and sharing no server with the unconnected
-- queue: with more fuel than the queue has servers, the search does not fault and ends. It returns
-- the first server with a connection, NULL if there is none. The servers before it stand behind
-- the unconnected queue afterwards, in order; it and those behind it stay in their queue, and no
-- server changes but in its links, nor does the queue of monitored servers.
pub fetch-live :
    (name : QueueName)
    → Searched name
    → (fuel : ℕ) (c : Pool) (ps us : List Ptr) → Holds name c ps us
    → length ps < fuel
    → (d : Pool) × (fetch_connected fuel name c ≡ some (head_or null (live c.heap ps), d))
      × Found name c ps us d
unfolding fetch_connected
fetch-live name k zero c ps us v h = absurd (omega arith)
fetch-live name k (suc fuel) c [] us v h = (
  c,
  rw (return_head name c [] us v) (unfold live in refl),
  record { holds = unfold lost live in rw append-nil v; kept = λ a. refl; monitors = refl },
)
fetch-live name k (suc fuel) c (p ∷ ps) us v h =
    rw (return_head name c (p ∷ ps) us v, some_front, v.0.from.queue.chain.0.holds)
      (elim (Bool-cases (s.connection_context == null)) [
        | inl gone ↦
            let (mid, m) = round name k c p ps us v in
            let (d, e, f) = fetch-live name k fuel mid ps (us ++ p ∷ []) m.holds (omega arith) in
            let same =
              lost-same c.heap mid.heap ps
                (λ a. context-payload (mid.heap a) (c.heap a) (m.kept a)) in
            let fr = gone_front c.heap p ps (at_front ∙ ground arith) in
            rw (gone, m.removes, m.adds, fr.1)
              (
                d,
                rw (← same.1) e,
                record {
                  holds =
                      rw (fr.0, fr.1, ← same.0, ← same.1)
                        (subst (Holds name d (live mid.heap ps)) (front us p (lost mid.heap ps))
                          f.holds);
                  kept = λ a. f.kept a ∙ m.kept a;
                  monitors = f.monitors ∙ m.monitors;
                },
              )
        | inr there ↦
            let fr = live_front c.heap p ps (λ e. ground (arith, at_front)) in
            rw (there, fr.1)
              (
                c,
                refl,
                record { holds = rw (fr.0, fr.1, append-nil) v; kept = λ a. refl; monitors = refl },
              )
      ])
  where
    s : Server
    s = v.0.from.queue.chain.0.cell

    at_front : context (c.heap p) ≡ s.connection_context
    at_front = ap context v.0.from.queue.chain.0.holds

    some_front : (p == null) ≡ false
    some_front = ground (arith, v.0.from.queue.chain.1)

    front : (xs : List Ptr) (x : Ptr) (ys : List Ptr) → (xs ++ x ∷ []) ++ ys ≡ xs ++ x ∷ ys
    front xs x ys = append_assoc xs (x ∷ []) ys
