-- ===== src/Examples/Monitoring.antt =====
-- Two monitored servers, of which the meta server names one.
use store_monitor.Common.{
  ◌==◌, if◌then◌else◌, ◌≡◌, refl, arith, inl, true, none, some, [], ◌∷◌, Str, codes, str_eq,
}
use store_monitor.Common.Hash.{has_item, lookup}
use store_monitor.Connection.Data.{Ptr, Server, null, up, connected, store_queue, store_servers}
use store_monitor.Connection.Queue.Links.{has}
use store_monitor.Monitor.{
  monitor_process_state, MonitorMap, Monitoring, monitor_clear_old_local_meta,
  monitor_update_local_meta_for_server,
}
use store_monitor.Monitor.Named.{Outcome, update-Outcome}
use store_monitor.Hiredis.{Client}
use store_monitor.Connection.Pool.{queue_of}
use store_monitor.Meta.Fetch.{live, Holds}
use store_monitor.Monitor.Alike.{state_at}
use store_monitor.Monitor.Report.{command, report, process-reported}
use store_monitor.Monitor.Clear.{marked, clear-marked}
use store_monitor.Examples.Data.{assoc, pool, heap, server}
use store_monitor.Examples.Actions.{split, config}

abbrev item : Str → Ptr → MonitorMap
item key server = record {
  ip_port_type = key;
  ip = codes "10.0.0.1";
  port = 6379;
  type = codes "redis";
  server_info = server;
}

abbrev monitoring : Monitoring assoc.Table
monitoring = record {
  client = record { pool = record pool { heap = heap }; sent = [] };
  dmonitor = record {
    items = λ p.
        if p == 1
        then some (item (codes "a") 2)
        else (if p == 2 then some (item (codes "b") 3) else none);
    fresh = 3;
    fresh_server = 10;
    monitor_map_cur = (codes "a", 1) ∷ [];
    monitor_map_tmp = (codes "b", 2) ∷ [];
  };
}

clear-marked_example :
    (w' : Monitoring assoc.Table) × (monitor_clear_old_local_meta assoc split monitoring ≡ some w')
    × (w'.dmonitor.monitor_map_cur ≡ ((codes "b", 2) ∷ []))
    × (assoc.iter w'.dmonitor.monitor_map_tmp ≡ [])
    × ((p : Ptr)
        → has_item p ((codes "b", 2) ∷ []) ≡ true
        → w'.dmonitor.items p ≡ monitoring.dmonitor.items p)
    × ((x : Ptr) → w'.client.pool.heap x ≡ marked (has x (2 ∷ [])) (heap x))
    × (w'.client ≡ record (monitoring.client) {
      pool = record (monitoring.client.pool) { heap = w'.client.pool.heap };
    })
unfolding has_item
clear-marked_example =
    clear-marked assoc split monitoring (2 ∷ []) ((item (codes "a") 2, _, refl, refl, refl), tt)
      (refl, tt) (λ p i. ground arith)

-- The reply names `c`, which is new.
update-Outcome_example :
    Outcome assoc split
      (codes "c")
      monitoring
      []
      (monitor_update_local_meta_for_server assoc split (codes "c") monitoring)
unfolding lookup str_eq
update-Outcome_example =
    update-Outcome assoc split (codes "c") monitoring []
      (record { first = refl; last = refl; chain = tt }) tt (omega arith) (λ p e. cc)

-- The server 3 is up and connected.
abbrev watched : Server
watched = record (server null null null) { server_alive_state = up; connection_state = connected }

-- The servers 1 and 2 are store servers, of which 2 has a connection.
abbrev processing : Client
processing = record {
  pool = record pool {
    heap = λ p. if p == 3 then some watched else heap p;
    store_server_queue = λ i. record { head = 1; tail = 2; queue_type = store_queue };
  };
  sent = [];
}

processing-Holds : Holds (store_servers 0) processing.pool (1 ∷ 2 ∷ []) []
unfolding queue_of
processing-Holds = (
  record {
    from = record {
      queue = record {
        first = refl;
        last = refl;
        chain = (
          record { cell = server 2 null null; holds = refl; link = refl },
          omega arith,
          refl,
          (record { cell = server null 1 77; holds = refl; link = refl }, omega arith, refl, tt),
        );
      };
      back = (
        record { cell = server 2 null null; holds = refl; link = refl },
        (record { cell = server null 1 77; holds = refl; link = refl }, tt),
      );
    };
    to = record { first = refl; last = refl; chain = tt };
    apart = (refl, (refl, tt));
  },
  λ e. cc,
)

process-reported_example :
    (c : Client) × (monitor_process_state (λ m. true) 3 config 3 processing ≡ some c)
    × (c.sent ≡ report (λ m. true) 3 config (live processing.pool.heap (1 ∷ 2 ∷ [])) watched [])
    × (c.pool.monitor_server_queue.tail ≡ 3)
    × ((q : Ptr) → state_at (c.pool.heap q) ≡ state_at (processing.pool.heap q))
process-reported_example =
    process-reported (λ m. true) 3 config 3 watched processing (1 ∷ 2 ∷ []) [] refl processing-Holds
      (omega arith) (inl refl)

-- The one report goes to the server 2.
one_report :
    report (λ m. true) 3 config (live processing.pool.heap (1 ∷ 2 ∷ [])) watched []
    ≡ command 2 watched.server_id_key config.server_state_expire_time ∷ []
unfolding live
one_report = refl
