-- ===== src/Connection/Create/Requeue.antt =====
-- The second loop of `connectionRepairTimerCb`, and what it leaves out.
use store_monitor.Common.{ℕ, suc, ◌==◌, ◌≡◌, ◌≢◌, refl, arith, false, some, List, [], ◌∷◌, ◌++◌}
use store_monitor.Connection.Data.{Server, Ptr, null, Heap, Pool, unconnected_servers}
use store_monitor.Connection.Queue.Append.{add-append}
use store_monitor.Connection.Queue.Links.{has, Next, Forward, IsQueue}
use store_monitor.Connection.Pool.{add_to, queue_of, with_queue}
use store_monitor.Connection.Create.Repair.{requeue}

Forward-last : (h : Heap) (p : Ptr) (ps : List Ptr) → Forward h (ps ++ p ∷ []) → Next h p null
Forward-last h p [] f = f.0
Forward-last h p (q ∷ qs) f = Forward-last h p qs f.3

requeue-null : (fuel : ℕ) (c : Pool) → requeue (suc fuel) null c ≡ some c
unfolding requeue
requeue-null fuel c = refl

-- The loop puts the first failed server behind the unconnected queue and then ends, whatever server
-- follows it in the local list: with any fuel for two rounds it returns, and the unconnected queue
-- has got that server and no other.
pub requeue-first :
    (fuel : ℕ) (c : Pool) (p : Ptr) (us : List Ptr) (s : Server)
    → c.heap p ≡ some s
    → p ≢ null
    → IsQueue c.heap c.unconnected_server_queue us
    → has p us ≡ false
    → (d : Pool) × (requeue (suc (suc fuel)) p c ≡ some d)
      × IsQueue d.heap d.unconnected_server_queue (us ++ p ∷ [])
unfolding requeue add_to queue_of with_queue
requeue-first fuel c p us s held ne v out =
    let (g, r, a) = add-append c.unconnected_server_queue us held ne v out in
    let n = Forward-last g p us a.queue.chain in
    (
      with_queue unconnected_servers (g, r) c,
      rw (not_null, a.runs, n.holds, n.link) (requeue-null fuel _),
      a.queue,
    )
  where
    not_null : (p == null) ≡ false
    not_null = ground arith
