-- ===== src/Connection/Create/Ends/Loop.antt =====
-- `connectionRepairTimerCb` ends.
use store_monitor.Common.{
  ℕ, zero, suc, ◌<◌, ◌==◌, ◌≡◌, ◌≢◌, inl, inr, refl, sym, subst, ap, ◌∙◌, arith, false, Bool-cases,
  some, List, [], ◌∷◌, length,
}
use store_monitor.Common.Hash.{UtHash}
use store_monitor.Connection.Data.{
  Server, ConnectionState, connect, connecting, connected, destroyed, reset, Ptr, null, Heap, Pool,
  unconnected_servers,
}
use store_monitor.Connection.Queue.{set_next}
use store_monitor.Connection.Queue.Links.{has, IsQueue}
use store_monitor.Connection.Queue.Append.{payload}
use store_monitor.Connection.Queue.Remove.{get_first, get_none, has-ne}
use store_monitor.Connection.Queue.Move.{IsQueue-same, payload-some}
use store_monitor.Connection.Pool.{get_from, queue_of, with_queue}
use store_monitor.Connection.Create.{CreateFn, TypeTable}
use store_monitor.Connection.Create.Repair.{
  Failed, chain_failed, requeue, repair_server, repair_loop, connection_repair_timer_cb,
}
use store_monitor.Connection.Create.Requeue.{requeue-first}
use store_monitor.Connection.Create.Ends.{
  Only, Live, update-Only, destroy-Only, Loaded, create-Only,
}

-- The unconnected queue, and the ends of the local list, which are on the heap and not in the queue.
pub record Chain (c : Pool) (f : Failed) (us : List Ptr) : Type 0 where
  pub queue : IsQueue c.heap c.unconnected_server_queue us
  pub ends : f.first ≢ null → Live c f.first × Live c f.last
  pub apart : f.first ≢ null → (has f.first us ≡ false) × (has f.last us ≡ false)

Live-Only : (p q : Ptr) (c d : Pool) → Only p c d → Live d p → Live c q → Live d q
Live-Only p q c d o l (s, held) = elim (Bool-cases (q == p)) [
  | inl same ↦ let e : p ≡ q = ground arith in subst (Live d) e l
  | inr other ↦ (s, o.spared q (ground arith) ∙ held)
]

queue-Only :
    (p : Ptr) (c d : Pool) (us : List Ptr)
    → Only p c d
    → has p us ≡ false
    → IsQueue c.heap c.unconnected_server_queue us
    → IsQueue d.heap d.unconnected_server_queue us
queue-Only p c d us o out v =
    rw o.queue (IsQueue-same us (λ a i. o.spared a (λ e. has-ne a p us i out (sym e))) v)

module _ (p : Ptr) (us : List Ptr) (out : has p us ≡ false) (c d : Pool) (o : Only p c d)
    (f : Failed) (v : Chain c f us) where
  Chain-Only : (f.first ≢ null → Live d f.first × Live d f.last) → Chain d f us
  Chain-Only ends = record {
    queue = queue-Only p c d us o out v.queue;
    ends = ends;
    apart = v.apart;
  }

  Chain-Live : Live d p → Chain d f us
  Chain-Live l =
      Chain-Only
        λ n. (Live-Only p f.first c d o l (v.ends n).0, Live-Only p f.last c d o l (v.ends n).1)

  Chain-freed : (f.first ≢ null → (f.first ≢ p) × (f.last ≢ p)) → Chain d f us
  Chain-freed ne = Chain-Only λ n.
      let ((s, a), (t, b)) = v.ends n in
      ((s, o.spared f.first (ne n).0 ∙ a), (t, o.spared f.last (ne n).1 ∙ b))

chained :
    (p : Ptr) (us : List Ptr) (c : Pool) (f : Failed)
    → has p us ≡ false
    → Live c p
    → Chain c f us
    → (d : Pool) × (g : Failed) × (chain_failed p (c, f) ≡ some (d, g)) × Chain d g us
unfolding chain_failed
chained p us c f out l v =
    let (m, runs, o, live) = update-Only p (set_next null) c l in
    rw runs (elim (Bool-cases (f.first == null)) [
      | inl alone ↦ rw alone (
        m,
        record { first = p; last = p },
        refl,
        record {
          queue = queue-Only p c m us o out v.queue;
          ends = λ n. (live, live);
          apart = λ n. (out, out);
        },
      )
      | inr more ↦
          let some_first : f.first ≢ null = ground arith in
          let w = Chain-Live p us out c m o f v live in
          let (d, runs', o', live') = update-Only f.last (set_next p) m (w.ends some_first).1 in
          let u = Chain-Live f.last us (v.apart some_first).1 m d o' f w live' in
          rw (more, runs')
            (
              d,
              record f { last = p },
              refl,
              record {
                queue = u.queue;
                ends = λ n. ((u.ends n).0, Live-Only f.last p m d o' live' live);
                apart = λ n. ((v.apart n).0, out);
              },
            )
    ])

module _ (H : UtHash) (create : CreateFn) (t : TypeTable H.Table) (loaded : Loaded create H t) where
  repaired :
      (p : Ptr) (us : List Ptr) (c : Pool) (f : Failed) (x : ConnectionState)
      → has p us ≡ false
      → Live c p
      → (f.first ≢ null → (f.first ≢ p) × (f.last ≢ p))
      → Chain c f us
      → (d : Pool) × (g : Failed) × (repair_server H create t p x (c, f) ≡ some (d, g))
        × Chain d g us
  unfolding repair_server
  repaired p us c f connect out l ne v =
      let (done, m, runs, o, live) = create-Only create H t p c loaded l in
      let w = Chain-Live p us out c m o f v live in
      rw runs (elim (Bool-cases done) [
        | inl ok ↦ rw ok (m, f, refl, w)
        | inr no_luck ↦ rw no_luck (chained p us m f out live w)
      ])
  repaired p us c f connecting out l ne v =
      let (d, runs, o) = destroy-Only p c l in
      rw runs (d, f, refl, Chain-freed p us out c d o f v ne)
  repaired p us c f connected out l ne v =
      let (d, runs, o) = destroy-Only p c l in
      rw runs (d, f, refl, Chain-freed p us out c d o f v ne)
  repaired p us c f destroyed out l ne v =
      let (d, runs, o) = destroy-Only p c l in
      rw runs (d, f, refl, Chain-freed p us out c d o f v ne)
  repaired p us c f reset out l ne v =
      let (d, runs, o) = destroy-Only p c l in
      rw runs (d, f, refl, Chain-freed p us out c d o f v ne)

  -- The loop takes the first server.
  took :
      (p : Ptr) (ps : List Ptr) (c : Pool) (f : Failed)
      → Chain c f (p ∷ ps)
      → (m : Pool) × (get_from unconnected_servers c ≡ some (p, m)) × Live m p × Chain m f ps
  unfolding get_from queue_of with_queue
  took p ps c f v =
      let (g, r, taken) = get_first c.unconnected_server_queue p ps v.queue in
      rw taken.runs (
        with_queue unconnected_servers (g, r) c,
        refl,
        live g taken.kept p (v.queue.chain.0.cell, v.queue.chain.0.holds),
        record {
          queue = taken.queue;
          ends =
              λ n. (live g taken.kept f.first (v.ends n).0, live g taken.kept f.last (v.ends n).1);
          apart = λ n. (ground (arith, v.apart n), ground (arith, v.apart n));
        },
      )
    where
      live :
          (g : Heap)
          → ((a : Ptr) → payload (g a) ≡ payload (c.heap a))
          → (q : Ptr) → Live c q
          → (s : Server) × (g q ≡ some s)
      live g kept q (s, held) = payload-some (g q) s (kept q ∙ ap payload held)

  loop_ends :
      (fuel : ℕ) (c : Pool) (f : Failed) (us : List Ptr)
      → Chain c f us
      → length us < fuel
      → (d : Pool) × (g : Failed) × (repair_loop H create t fuel (c, f) ≡ some (d, g))
        × Chain d g []
  unfolding repair_loop get_from queue_of with_queue
  loop_ends zero c f us v h = absurd (omega arith)
  loop_ends (suc fuel) c f [] v h = rw (get_none c.unconnected_server_queue v.queue) (c, f, refl, v)
  loop_ends (suc fuel) c f (p ∷ ps) v h =
      let (m, takes, (s, held), w) = took p ps c f v in
      let (d, g, repairs, u) =
        repaired p ps m f s.connection_state v.queue.chain.2 (s, held)
          (λ n. (ground (arith, v.apart n), ground (arith, v.apart n))) w in
      let (e, k, runs, x) = loop_ends fuel d g ps u (omega arith) in
      rw (takes, some_front, held, repairs, runs) (e, k, refl, x)
    where
      some_front : (p == null) ≡ false
      some_front = ground (arith, v.queue.chain.1)

  -- On an unconnected queue of the servers `us`, with a table of types whose entries are allocated
  -- and fuel for one round more than there are servers and for two at least,
  -- `connectionRepairTimerCb` does not fault and ends. Whatever becomes of the connections, the
  -- unconnected queue then holds one server at most.
  pub repair-ends :
      (fuel : ℕ) (c : Pool) (us : List Ptr)
      → IsQueue c.heap c.unconnected_server_queue us
      → length us < fuel
      → 1 < fuel
      → (d : Pool) × (ps : List Ptr) × (connection_repair_timer_cb H create t fuel c ≡ some d)
        × IsQueue d.heap d.unconnected_server_queue ps
        × (length ps < 2)
  unfolding connection_repair_timer_cb requeue
  repair-ends zero c us v h k = absurd (omega arith)
  repair-ends (suc zero) c us v h k = absurd (omega arith)
  repair-ends (suc (suc fuel)) c us v h k =
      let (m, f, runs, w) =
        loop_ends (suc (suc fuel)) c (record { first = null; last = null }) us
          (record { queue = v; ends = λ n. absurd (n refl); apart = λ n. absurd (n refl) }) h in
      rw runs (elim (Bool-cases (f.first == null)) [
        | inl nothing ↦ rw nothing (m, [], refl, w.queue, omega arith)
        | inr first ↦
            let n : f.first ≢ null = ground arith in
            let ((s, held), l) = w.ends n in
            let (d, requeues, q) = requeue-first fuel m f.first [] s held n w.queue refl in
            (d, f.first ∷ [], requeues, q, omega arith)
      ])
