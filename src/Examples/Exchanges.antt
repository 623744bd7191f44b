-- ===== src/Examples/Exchanges.antt =====
-- The theorems on the transaction, with one exchanged server and one connected meta server, and the
-- one on the loop that puts failed servers back.
use store_monitor.Common.{
  ◌==◌, ◌≡◌, refl, arith, true, if◌then◌else◌, none, some, List, [], ◌∷◌, pos,
}
use store_monitor.Connection.Data.{null, Pool, meta_queue}
use store_monitor.Connection.Queue.{return_server_from_server_queue}
use store_monitor.Connection.Queue.Links.{IsQueue}
use store_monitor.Connection.Create.Repair.{requeue}
use store_monitor.Connection.Create.Requeue.{requeue-first}
use store_monitor.Hiredis.{Accepts, Element, integer}
use store_monitor.Meta.{fetch_meta_server_for_write}
use store_monitor.Action.Data.{DownServer, exchanged, set_phase, World}
use store_monitor.Action.Exchanged.{update_exchanged_state}
use store_monitor.Action.Exchanged.Laws.{Told, update-Told}
use store_monitor.Examples.Data.{assoc, server, pool}
use store_monitor.Examples.Actions.{down, one, config}

-- A pool whose meta server 2 is connected.
abbrev ready : Pool
ready = record pool {
  meta_server_queue = λ i. record { head = 2; tail = 2; queue_type = meta_queue };
}

abbrev takes_all : Accepts
takes_all m = true

abbrev world : DownServer → World assoc.Table
world s = record {
  client = record { pool = ready; sent = [] };
  action = record one { servers = λ p. if p == 1 then some s else none };
}

ready_found : fetch_meta_server_for_write 1 ready ≡ some (2, ready)
unfolding fetch_meta_server_for_write return_server_from_server_queue
ready_found = refl

update-Told_example :
    (v : World assoc.Table) × (update_exchanged_state takes_all 1 config 1
        (world (set_phase exchanged down))
      ≡ some v)
    × Told takes_all 1 config 1
        (world (set_phase exchanged down))
        (set_phase exchanged down)
        2
        ready
        v
update-Told_example =
    update-Told takes_all 1 config 1 (world (set_phase exchanged down))
      {s = set_phase exchanged down} {m = 2} {pool = ready} refl ready_found

abbrev ones : List Element
ones = record { type = integer; str = none; value = pos 1 } ∷ []

requeue-first_example :
    (d : Pool) × (requeue 2 1 pool ≡ some d) × IsQueue d.heap d.unconnected_server_queue (1 ∷ [])
requeue-first_example =
    requeue-first 0 pool 1 [] (server 2 null null) refl (omega arith)
      (record { first = refl; last = refl; chain = tt }) refl
