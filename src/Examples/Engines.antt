-- ===== src/Examples/Engines.antt =====
-- The raw connections, the memcached and the redis engine, with one monitored server.
use store_monitor.Common.{
  List, Str, Option, ℕ, ◌==◌, ◌<◌, ◌≤◌, ◌≡◌, refl, arith, true, false, none, some, [], ◌∷◌, ◌++◌,
  codes, if◌then◌else◌, pos, negsuc, decimal, suc,
}
use store_monitor.Connection.Data.{Server, ServerRole, null}
use store_monitor.Hiredis.{Reply, string}
use store_monitor.Action.Data.{DownServer, World}
use store_monitor.Engine.Raw.{
  Attempt, RawContext, unreachable, under_way, port_text, raw_async_connect,
}
use store_monitor.Engine.Raw.Port.{raw_async_connect-port}
use store_monitor.Engine.Memcached.{
  RacData, Engine, no_data, new_server_info, memcached_create_connection_fn, raw_async_connect_done,
}
use store_monitor.Engine.Memcached.Stale.{create-stale}
use store_monitor.Engine.Memcached.Lost.{IsLinked, IsGivenUp, connect_done-failure}
use store_monitor.Engine.Info.{RedisData, no_fields, read_info}
use store_monitor.Engine.Info.Sections.{field, section-lost}
use store_monitor.Engine.Redis.{Redis, take_state}
use store_monitor.Engine.Redis.Late.{IsQueried, alive_after, take_state-alive}
use store_monitor.Examples.Data.{assoc, server, pool}
use store_monitor.Examples.Actions.{one}

raw_async_connect-port_example :
    (40000 < 32768 → port_text 40000 ≡ some (decimal 40000))
    × (32768 ≤ 40000
        → 40000 ≤ 55536
        → raw_async_connect (λ t. some (under_way ∷ [])) 40000 ≡ (negsuc 0, false))
raw_async_connect-port_example = raw_async_connect-port (λ t. some (under_way ∷ [])) 40000

-- The monitored server 3, with the context 5 and the properties 9.
abbrev monitored : Server
monitored = record (server null null 5) { engine = some 1; server_role = ServerRole.monitor }

abbrev info : DownServer
info = new_server_info (codes "10.0.0.1_11211_memcached")

abbrev world : World assoc.Table
world = record {
  client = record {
    pool = record pool { heap = λ p. if p == 3 then some monitored else pool.heap p };
    sent = [];
  };
  action = record one { servers = λ p. if p == 9 then some info else none };
}

abbrev context : RawContext RacData
context = record {
  is_open = true;
  connected = false;
  rev_active = false;
  wev_active = true;
  rac_data = record no_data { server = 3; server_info = 9 };
  err = pos 0;
  read_callback = none;
  write_callback = none;
}

abbrev engine : Engine assoc.Table
engine = record {
  world = world;
  contexts = λ p. if p == 5 then some context else none;
  fresh_context = 6;
}

engine-IsLinked : IsLinked engine 5 context monitored [] info
engine-IsLinked = record {
  context = refl;
  server = refl;
  engine = 1;
  has_engine = refl;
  state = refl;
  role = refl;
  not_null = omega arith;
  queue = record { first = refl; last = refl; chain = tt };
  outside = refl;
  info = refl;
  info_not_null = omega arith;
  unasked = refl;
}

connect_done-failure_example :
    (w' : Engine assoc.Table) × (raw_async_connect_done 5 (pos 111) engine ≡ some w')
    × IsGivenUp w' 5 context [] info
connect_done-failure_example =
    connect_done-failure engine 5 context monitored [] info (pos 111) engine-IsLinked refl

-- The first address has no route.
abbrev two_addresses : Str → Option (List Attempt)
two_addresses t = some (unreachable 112 ∷ under_way ∷ [])

create-stale_example :
    (n : ℕ) × (w' : Engine assoc.Table) × (raw_async_connect two_addresses 6379
      ≡ (pos (suc n), true))
    × (memcached_create_connection_fn two_addresses 3 engine ≡ some (false, w'))
    × (w'.world ≡ engine.world)
    × (w'.contexts ≡ engine.contexts)
create-stale_example =
    create-stale two_addresses 3 engine monitored (unreachable 112) [] [] refl (omega arith) refl tt

abbrev queried : RedisData
queried = record {
  last = record { time = 0; cmd_proc = pos 0 };
  compute = pos 0;
  server_detail = 9;
}

abbrev redis : Redis assoc.Table
redis = record { world = world; priv_data = λ p. if p == 3 then some queried else none }

redis-IsQueried : IsQueried redis 3 queried monitored info
redis-IsQueried = record { server = refl; data_there = refl; detail_there = refl }

abbrev text_reply : Reply
text_reply = record { type = string; str = some (codes "x"); value = pos 0; elements = [] }

take_state-alive_example :
    (w' : Redis assoc.Table) × (t : Server) × (take_state 7 3 false (some text_reply) redis
      ≡ some w')
    × (w'.world.client.pool.heap 3 ≡ some t)
    × (t.server_alive_state ≡ alive_after false (some text_reply) monitored.server_alive_state)
take_state-alive_example =
    take_state-alive 7 3 redis queried monitored info redis-IsQueried false (some text_reply)
      (λ e. (codes "x", refl))

section-lost_example :
    read_info false
      (pos 0)
      2
      (field (codes "# Memory" ++ 13 ∷ 10 ∷ codes "used_memory") (codes "1024") ++ [])
      (no_fields (pos 0))
    ≡ read_info false (pos 0) 1 [] (no_fields (pos 0))
section-lost_example =
    section-lost false (pos 0) 1 (codes " Memory") (codes "used_memory") (codes "1024") []
      (no_fields (pos 0)) (refl, (refl, (refl, (refl, (refl, (refl, (refl, tt)))))))
      (refl, (refl, (refl, (refl, (refl, (refl, (refl, (refl, (refl, (refl, (refl, tt)))))))))))
      (refl, (refl, (refl, (refl, tt))))
