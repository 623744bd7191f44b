-- ===== src/Examples/Queues.antt =====
-- The queue theorems on two linked servers.
use store_monitor.Common.{◌≡◌, refl, arith, some, [], ◌∷◌, head_or}
use store_monitor.Connection.Data.{null, Heap, Queue, Pool, meta_servers}
use store_monitor.Connection.Queue.Links.{IsQueue, IsDeque}
use store_monitor.Connection.Queue.Append.{Appended, add-append}
use store_monitor.Connection.Queue.Remove.{Taken, get_first, Removed, rm_first}
use store_monitor.Connection.Pool.{queue_of}
use store_monitor.Meta.{fetch_connected}
use store_monitor.Meta.Fetch.{live, Holds, Found, metas, fetch-live}
use store_monitor.Examples.Data.{server, heap, queue, pool}

pub queue-IsQueue : IsQueue heap queue (1 ∷ 2 ∷ [])
queue-IsQueue = record {
  first = refl;
  last = refl;
  chain = (
    record { cell = server 2 null null; holds = refl; link = refl },
    omega arith,
    refl,
    (record { cell = server null 1 77; holds = refl; link = refl }, omega arith, refl, tt),
  );
}

queue-IsDeque : IsDeque heap queue (1 ∷ 2 ∷ [])
queue-IsDeque = record {
  queue = queue-IsQueue;
  back = (
    record { cell = server 2 null null; holds = refl; link = refl },
    (record { cell = server null 1 77; holds = refl; link = refl }, tt),
  );
}

add-append_example : (g : Heap) × (r : Queue) × Appended heap queue 3 (1 ∷ 2 ∷ []) g r
add-append_example = add-append queue (1 ∷ 2 ∷ []) refl (omega arith) queue-IsQueue refl

get_first_example : (g : Heap) × (r : Queue) × Taken heap queue 1 (2 ∷ []) g r
get_first_example = get_first queue 1 (2 ∷ []) queue-IsQueue

rm_first_example : (g : Heap) × (r : Queue) × Removed heap queue 1 (2 ∷ []) g r
rm_first_example = rm_first queue 1 (2 ∷ []) queue-IsDeque

pool-Holds : Holds (meta_servers 0) pool (1 ∷ 2 ∷ []) []
unfolding queue_of
pool-Holds = (
  record {
    from = queue-IsDeque;
    to = record { first = refl; last = refl; chain = tt };
    apart = (refl, (refl, tt));
  },
  λ e. cc,
)

fetch-live_example :
    (d : Pool) × (fetch_connected 3 (meta_servers 0) pool
      ≡ some (head_or null (live heap (1 ∷ 2 ∷ [])), d))
    × Found (meta_servers 0) pool (1 ∷ 2 ∷ []) [] d
fetch-live_example =
    fetch-live (meta_servers 0) (metas 0) 3 pool (1 ∷ 2 ∷ []) [] pool-Holds (omega arith)
