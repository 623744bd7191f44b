-- ===== src/Examples/Starting.antt =====
-- Both processes are started on the configuration of Examples/Configs, with one type of server.
use store_monitor.Common.{◌≡◌, refl, true, Option, none, some, [], Str, str_eq}
use store_monitor.Config.{init_config}
use store_monitor.Config.Load.{Loading, directive, load_line, load_config}
use store_monitor.Connection.Create.{TypeProperty, init_type_table}
use store_monitor.Connection.Data.{write}
use store_monitor.Connection.Queue.{modify, add_server_to_server_queue}
use store_monitor.Common.Hash.{lookup}
use store_monitor.Config.Load.Queued.{lines_declared}
use store_monitor.Action.Data.{Action}
use store_monitor.Gather.Data.{Analyzer}
use store_monitor.Monitor.{Dmonitor}
use store_monitor.Processes.{Main, Base, analyzer_main, dmonitor_main}
use store_monitor.Processes.Started.{Ends, main-started}
use store_monitor.Examples.Data.{assoc}
use store_monitor.Examples.Actions.{one, split}
use store_monitor.Examples.Gathering.{analyzer}
use store_monitor.Examples.Configs.{lines, start, start-IsQueued, words, cut, push, lines-Readable}

-- `dlopen` finds an engine with all of its functions.
dl : Str → Option TypeProperty
dl t = some (record {
  type = t;
  create_connection_fn = true;
  destroy_connection_fn = true;
  query_state_fn = true;
})

abbrev base : Base assoc.Table
base = record { loading = start; types = record { table = []; types = λ p. none; fresh = 1 } }

abbrev dmonitor : Dmonitor assoc.Table
dmonitor = record {
  items = λ p. none;
  fresh = 1;
  fresh_server = 1;
  monitor_map_cur = [];
  monitor_map_tmp = [];
}

-- What `loadConfig` leaves behind.
abbrev loaded : Loading
loaded =
    elim (load_config (λ t. 0) (λ t. t) words (λ t. t) lines
      (record start { config = init_config start.config })) [ none ↦ start | some x ↦ x.1 ]

taken :
    load_config
      (λ t. 0)
      (λ t. t)
      words
      (λ t. t)
      lines
      (record start { config = init_config start.config })
    ≡ some (true, loaded)
unfolding load_config load_line directive words cut push init_config str_eq modify write
    add_server_to_server_queue
taken = refl

types_ok : (init_type_table assoc dl loaded.config.type_str base.types).0 ≡ true
unfolding init_type_table load_config words cut init_config str_eq modify write
    add_server_to_server_queue lookup dl
types_ok = refl

main-started_example :
    (m : Main (Base assoc.Table × Analyzer assoc.Table × Action assoc.Table)) × (n : Main
      (Base assoc.Table × Dmonitor assoc.Table))
    × (analyzer_main assoc split dl
          (load_config (λ t. 0) (λ t. t) words (λ t. t) lines)
          base
          analyzer
          one
        ≡ some m)
    × (dmonitor_main assoc split dl
          (load_config (λ t. 0) (λ t. t) words (λ t. t) lines)
          base
          dmonitor
        ≡ some n)
    × Ends assoc split dl
        (λ t. 0)
        (λ t. t)
        words
        (λ t. t)
        lines
        base
        (lines_declared (λ t. 0) (λ t. t) words (λ t. t) lines)
        m
        n
main-started_example =
    main-started assoc split dl (λ t. 0) (λ t. t) words (λ t. t) lines base analyzer one dmonitor []
      [] lines-Readable start-IsQueued
