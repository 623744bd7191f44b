-- ===== src/Processes/Started.antt =====
-- What a process has when it comes to its event loop.
use store_monitor.Common.{
  false, ◌∷◌, ℕ, ◌++◌, ◌>>=◌, ◌≡◌, refl, ap, Bool, true, Option, none, some, List, [], Str, All,
  if◌then◌else◌,
}
use store_monitor.Common.Hash.{UtHash}
use store_monitor.Config.{init_config}
use store_monitor.Config.Load.{Loading, Declared, load_config}
use store_monitor.Config.Load.Servers.{IsQueued}
use store_monitor.Config.Load.Queued.{Readable, lines_declared, load_config-IsQueued}
use store_monitor.Connection.Data.{Ptr}
use store_monitor.Connection.Pool.{init_connection_pool}
use store_monitor.Connection.Queue.Links.{IsQueue}
use store_monitor.Connection.Create.{TypeProperty, init_type_table}
use store_monitor.Action.Data.{Action}
use store_monitor.Action.DownList.{action_init}
use store_monitor.Gather.Data.{Analyzer}
use store_monitor.Gather.Meta.{analyzer_init}
use store_monitor.Monitor.{Dmonitor, dmonitor_init}
use store_monitor.Processes.{
  Main, meta_update, connection_repair, gather, action_check, monitor, seconds, milliseconds, Base,
  exits, runs, analyzer_run, dmonitor_run, configured, init_base, analyzer_from, dmonitor_from,
  analyzer_main, dmonitor_main,
}

init_pool-IsQueued :
    (l : Loading) (qs : List Ptr) (ds : List Declared)
    → IsQueued l qs ds
    → IsQueued (record l { pool = init_connection_pool l.pool }) qs ds
unfolding init_connection_pool
init_pool-IsQueued l qs ds v = record {
  queue = record { first = v.queue.first; last = v.queue.last; chain = v.queue.chain };
  declared = v.declared;
  below = v.below;
  some_fresh = v.some_fresh;
}

module _ (H : UtHash) (split : Str → List Str) (dl : Str → Option TypeProperty) (ms : Str → ℕ)
    (trim : Str → Str) (split_args : Str → Option (List Str)) (to_lower : Str → Str)
    (lines : List Str) where
  open H use {Table}

  abbrev load : Loading → Option (Bool × Loading)
  load = load_config ms trim split_args to_lower lines

  -- What `init_base` leaves behind.
  base_after : Base Table → Base Table
  base_after b = (init_base H split dl load b).1

  -- `main` goes on after `loadConfig` only if the types can be loaded.
  analyzer_from-lem :
      (b : Base Table) (a : Analyzer Table) (act : Action Table) (ok : Bool)
      → (init_type_table H dl b.loading.config.type_str b.types).0 ≡ ok
      → analyzer_from H split dl load (some b) a act ≡ (
          if ok
          then runs
              (base_after b, analyzer_init H a, action_init H split act)
              (analyzer_run b.loading.config)
          else exits)
  unfolding analyzer_from init_base base_after
  analyzer_from-lem b a act ok e =
      ap
        (λ x.
          if x
          then runs (base_after b, analyzer_init H a, action_init H split act)
              (analyzer_run b.loading.config)
          else exits)
        e

  dmonitor_from-lem :
      (b : Base Table) (d : Dmonitor Table) (ok : Bool)
      → (init_type_table H dl b.loading.config.type_str b.types).0 ≡ ok
      → dmonitor_from H split dl load (some b) d ≡ (
          if ok
          then runs (base_after b, dmonitor_init H split d) (dmonitor_run b.loading.config)
          else exits)
  unfolding dmonitor_from init_base base_after
  dmonitor_from-lem b d ok e =
      ap
        (λ x.
          if x
          then runs (base_after b, dmonitor_init H split d) (dmonitor_run b.loading.config)
          else exits)
        e

  configured-lem :
      (b : Base Table) (taken : Bool) (l : Loading)
      → load (record (b.loading) { config = init_config b.loading.config }) ≡ some (taken, l)
      → configured H split dl load b
        ≡ some (if taken then some (record b { loading = l }) else none)
  unfolding configured init_config
  configured-lem b taken l e =
      ap (λ z. z >>= λ x. some (if x.0 then some (record b { loading = x.1 }) else none)) e

  base_after-config : (b : Base Table) → (base_after b).loading.config ≡ b.loading.config
  unfolding base_after init_base
  base_after-config b = refl

  base_after-queues :
      (b : Base Table) (qs : List Ptr) (ds : List Declared)
      → IsQueued b.loading qs ds
      → IsQueued (base_after b).loading qs ds
        × ((i : ℕ)
            → IsQueue
                (base_after b).loading.pool.heap
                ((base_after b).loading.pool.store_server_queue i)
                [])
        × ((i : ℕ)
            → IsQueue
                (base_after b).loading.pool.heap
                ((base_after b).loading.pool.meta_server_queue i)
                [])
  unfolding base_after init_base init_connection_pool
  base_after-queues b qs ds v = (
    init_pool-IsQueued b.loading qs ds v,
    λ i. record { first = refl; last = refl; chain = tt },
    λ i. record { first = refl; last = refl; chain = tt },
  )

  -- No target server is known, nothing is gathered, and there is no list to ask for.
  pub record IsNewAnalyzer (a : Analyzer Table) : Type 0 where
    pub round : a.cur_gather_seq_id ≡ 0
    pub cur : H.iter a.target_server_map_cur ≡ []
    pub tmp : H.iter a.target_server_map_tmp ≡ []
    pub nodes : a.gather_server_list.nodes ≡ []
    pub len : a.gather_server_list.gather_server_list_len ≡ 0
    pub settled : a.gather_server_list.to_be_updated ≡ false

  -- No server is down, and none is acted on until the option says so.
  pub record IsNewAction (act : Action Table) : Type 0 where
    pub list : H.iter act.down_server_list ≡ []
    pub disabled : act.action_enable ≡ false

  pub record IsNewDmonitor (d : Dmonitor Table) : Type 0 where
    pub cur : H.iter d.monitor_map_cur ≡ []
    pub tmp : H.iter d.monitor_map_tmp ≡ []

  analyzer_init-lem : (a : Analyzer Table) → IsNewAnalyzer (analyzer_init H a)
  unfolding analyzer_init
  analyzer_init-lem a = record {
    round = refl;
    cur = H.iter-empty;
    tmp = H.iter-empty;
    nodes = refl;
    len = refl;
    settled = refl;
  }

  action_init-lem : (act : Action Table) → IsNewAction (action_init H split act)
  unfolding action_init
  action_init-lem act = record { list = H.iter-empty; disabled = refl }

  dmonitor_init-lem : (d : Dmonitor Table) → IsNewDmonitor (dmonitor_init H split d)
  unfolding dmonitor_init
  dmonitor_init-lem d = record { cur = H.iter-empty; tmp = H.iter-empty }

  -- The declared servers wait to be connected, and no connected server is queued.
  pub record IsReady (l : Loading) (ds : List Declared) (b : Base Table) : Type 0 where
    pub config : b.loading.config ≡ l.config
    pub waiting : List Ptr
    pub queued : IsQueued b.loading waiting ds
    pub stores : (i : ℕ) → IsQueue b.loading.pool.heap (b.loading.pool.store_server_queue i) []
    pub metas : (i : ℕ) → IsQueue b.loading.pool.heap (b.loading.pool.meta_server_queue i) []

  -- How the two processes end up from the state `b`.
  pub data Ends (b : Base Table) (ds : List Declared)
      : Main (Base Table × Analyzer Table × Action Table)
        → Main (Base Table × Dmonitor Table)
        → Type 0 where
    bad_line :
        {l : Loading}
        → load (record (b.loading) { config = init_config b.loading.config }) ≡ some (false, l)
        → Ends b ds exits exits
    bad_type :
        {l : Loading}
        → load (record (b.loading) { config = init_config b.loading.config }) ≡ some (true, l)
        → (init_type_table H dl l.config.type_str b.types).0 ≡ false
        → Ends b ds exits exits
    looping :
        {l : Loading} {b' : Base Table} {a : Analyzer Table} {act : Action Table}
        {d : Dmonitor Table}
        → load (record (b.loading) { config = init_config b.loading.config }) ≡ some (true, l)
        → (init_type_table H dl l.config.type_str b.types).0 ≡ true
        → IsReady l ds b'
        → IsNewAnalyzer a
        → IsNewAction act
        → IsNewDmonitor d
        → Ends b ds
            (runs
              (b', a, act)
              ((meta_update, seconds l.config.meta_update_interval)
                ∷ (connection_repair, seconds l.config.connection_repair_interval)
                ∷ (gather, seconds l.config.gather_interval)
                ∷ (action_check, seconds l.config.action_check_interval)
                ∷ []))
            (runs
              (b', d)
              ((meta_update, seconds l.config.meta_update_interval)
                ∷ (connection_repair, seconds l.config.connection_repair_interval)
                ∷ (monitor, milliseconds l.config.monitor_interval_ms)
                ∷ []))

  module _ (b : Base Table) (a : Analyzer Table) (act : Action Table) (d : Dmonitor Table)
      (ds : List Declared) (l : Loading) where
    begins :
        (ok : Bool)
        → load (record (b.loading) { config = init_config b.loading.config }) ≡ some (true, l)
        → (init_type_table H dl l.config.type_str b.types).0 ≡ ok
        → (qs : List Ptr) → IsQueued l qs ds
        → Ends b ds
            (analyzer_from H split dl load (some (record b { loading = l })) a act)
            (dmonitor_from H split dl load (some (record b { loading = l })) d)
    unfolding analyzer_run dmonitor_run
    begins false e ok qs q =
        rw
          (
            analyzer_from-lem (record b { loading = l }) a act false ok,
            dmonitor_from-lem (record b { loading = l }) d false ok,
          )
          (bad_type e ok)
    begins true e ok qs q =
        let (u, x, y) = base_after-queues (record b { loading = l }) qs ds q in
        rw
          (
            analyzer_from-lem (record b { loading = l }) a act true ok,
            dmonitor_from-lem (record b { loading = l }) d true ok,
          )
          (looping {b' = base_after (record b { loading = l })} e ok
            (record {
              config = base_after-config (record b { loading = l });
              waiting = qs;
              queued = u;
              stores = x;
              metas = y;
            })
            (analyzer_init-lem a) (action_init-lem act) (dmonitor_init-lem d))

  pub main-started :
      (b : Base Table) (a : Analyzer Table) (act : Action Table) (d : Dmonitor Table)
      (ps : List Ptr) (ds : List Declared)
      → All (Readable ms trim split_args to_lower) lines
      → IsQueued b.loading ps ds
      → (m : Main (Base Table × Analyzer Table × Action Table)) × (n : Main
          (Base Table × Dmonitor Table))
        × (analyzer_main H split dl load b a act ≡ some m)
        × (dmonitor_main H split dl load b d ≡ some n)
        × Ends b (ds ++ lines_declared ms trim split_args to_lower lines) m n
  main-started b a act d ps ds r v =
      let (taken, l, e, w) =
        load_config-IsQueued ms trim split_args to_lower lines
          (record (b.loading) { config = init_config b.loading.config }) ps ds r
          (record {
            queue = v.queue;
            declared = v.declared;
            below = v.below;
            some_fresh = v.some_fresh;
          }) in
      let next : Option (Base Table) = if taken then some (record b { loading = l }) else none in
      (
        analyzer_from H split dl load next a act,
        dmonitor_from H split dl load next d,
        unfold analyzer_main in
            ap (λ c. c >>= λ c. some (analyzer_from H split dl load c a act))
              (configured-lem b taken l e),
        unfold dmonitor_main in
            ap (λ c. c >>= λ c. some (dmonitor_from H split dl load c d))
              (configured-lem b taken l e),
        by_end taken l e w,
      )
    where
      by_end :
          (taken : Bool) (l : Loading)
          → load (record (b.loading) { config = init_config b.loading.config }) ≡ some (taken, l)
          → (taken ≡ true
              → (qs : List Ptr) × IsQueued l qs
                  (ds ++ lines_declared ms trim split_args to_lower lines))
          → Ends b
              (ds ++ lines_declared ms trim split_args to_lower lines)
              (analyzer_from H split dl load
                (if taken then some (record b { loading = l }) else none)
                a
                act)
              (dmonitor_from H split dl load
                (if taken then some (record b { loading = l }) else none)
                d)
      by_end false l e w = unfold analyzer_from in unfold dmonitor_from in bad_line e
      by_end true l e w =
          let (qs, q) = w refl in
          begins b a act d (ds ++ lines_declared ms trim split_args to_lower lines) l
            (init_type_table H dl l.config.type_str b.types).0 e refl qs q
