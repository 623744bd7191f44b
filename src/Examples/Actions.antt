-- ===== src/Examples/Actions.antt =====
-- The theorems on down servers, with one server in the list.
use store_monitor.Common.{
  ◌==◌, if◌then◌else◌, ◌≡◌, refl, arith, Bool, true, false, none, some, List, [], ◌∷◌, Str, codes,
  str_eq, pos,
}
use store_monitor.Common.Hash.{has_key, has_item, lookup}
use store_monitor.Config.{Config}
use store_monitor.Action.Data.{Action, DownServer, exchange, exchanging, check, no_property}
use store_monitor.Action.DownList.{add_server_to_down_list, rm_server_from_down_list}
use store_monitor.Action.DownList.Laws.{
  IsWellFormed, Added, add-Added, add-IsWellFormed, rm-IsWellFormed,
}
use store_monitor.Action.Info.{scan_key, update_down_server_info}
use store_monitor.Action.Info.Laws.{After, update-Keeps}
use store_monitor.Action.Info.Laws.Pairs.{hash_reply, field_of, as_scan, scan-field_of}
use store_monitor.Action.Exchange.{status, update_exchange_state_done_cb}
use store_monitor.Action.Exchange.Laws.{early_end, early_end-stuck, reply_after_free}
use store_monitor.Examples.Data.{assoc}

abbrev pub key : Str
key = codes "10.0.0.2_6380_redis"

-- What the key splits into.
abbrev pub split : Str → List Str
split t = codes "10.0.0.2" ∷ codes "6380" ∷ codes "redis" ∷ []

abbrev pub down : DownServer
down = record {
  ip_port_type = key;
  ip = some (codes "10.0.0.2");
  port = 6380;
  type = some (codes "redis");
  exchange_state = record { phase = exchange; to_be_updated = true };
  is_no_use = false;
  server_property = no_property;
}

abbrev pub one : Action assoc.Table
one = record {
  servers = λ p. if p == 1 then some down else none;
  fresh = 2;
  down_server_list = (key, 1) ∷ [];
  action_enable = false;
  check_action_enable_option = check;
  running = [];
}

pub one-IsWellFormed : IsWellFormed assoc split one
unfolding has_key has_item
one-IsWellFormed = record { keys = (refl, tt); items = (down, refl, refl, omega arith, refl, tt) }

add-Added_example :
    Added assoc split
      (codes "10.0.0.3_1_redis")
      one
      one-IsWellFormed
      (add_server_to_down_list assoc split (codes "10.0.0.3_1_redis") one)
add-Added_example = add-Added assoc split (codes "10.0.0.3_1_redis") one one-IsWellFormed

add-IsWellFormed_example :
    IsWellFormed assoc split (add_server_to_down_list assoc split (codes "10.0.0.3_1_redis") one).1
add-IsWellFormed_example =
    add-IsWellFormed assoc split (codes "10.0.0.3_1_redis") one one-IsWellFormed

rm-IsWellFormed_example :
    (o : Bool) × (b : Action assoc.Table) × (rm_server_from_down_list assoc split key one
      ≡ some (o, b))
    × IsWellFormed assoc split b
rm-IsWellFormed_example = rm-IsWellFormed assoc split key one one-IsWellFormed

abbrev fields : List (Str × Str)
fields = (codes "pid", codes "p1") ∷ (codes "role", codes "slave") ∷ []

update-Keeps_example :
    After down (update_down_server_info (λ k. none) split (hash_reply fields) down)
update-Keeps_example = update-Keeps (λ k. none) split (hash_reply fields) down

scan-field_of_example :
    scan_key (codes "role") (hash_reply fields) ≡ as_scan (field_of (codes "role") fields)
scan-field_of_example =
    scan-field_of (codes "role") (codes "pid", codes "p1") ((codes "role", codes "slave") ∷ [])

abbrev pub config : Config
config = record {
  log_level = pos 1;
  port = 9000;
  type_str = codes "redis" ∷ [];
  lib_dir = codes "lib";
  monitor_group = codes "g";
  meta_update_interval = pos 5;
  connection_repair_interval = pos 1;
  monitor_interval_ms = 3000;
  gather_interval = pos 5;
  action_check_interval = pos 3;
  server_state_expire_time = pos 15;
  rw_timeout_ms = 500;
  server_down_quota = 3;
  scripts_dir = codes "scripts";
  exchange_script_file = codes "exchange.sh";
}

early_end-stuck_example :
    (b : Action assoc.Table) × (t : DownServer) × (early_end (λ c. status 0) config 1 one ≡ some b)
    × (b.servers 1 ≡ some t)
    × (t.exchange_state.phase ≡ exchanging)
    × (b.running ≡ [])
early_end-stuck_example = early_end-stuck (λ c. status 0) config 1 one {s = down} refl

key_found : lookup key (assoc.iter one.down_server_list) ≡ some 1
unfolding lookup str_eq
key_found = refl

reply_after_free_example :
    (b : Action assoc.Table) × (rm_server_from_down_list assoc split key one ≡ some (true, b))
    × (update_exchange_state_done_cb assoc split false none 1 b ≡ none)
reply_after_free_example =
    reply_after_free assoc split split key one 1 down false none one-IsWellFormed key_found refl
      refl
