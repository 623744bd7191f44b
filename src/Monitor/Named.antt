-- ===== src/Monitor/Named.antt =====
-- `monitorUpdateLocalMetaForServer`: a server that the meta server names.
use store_monitor.Common.{
  suc, ◌<◌, ◌≡◌, ◌≢◌, inl, inr, refl, sym, ap, ◌∙◌, arith, Bool, true, false, Option, none, some,
  List, [], ◌∷◌, ◌++◌, Str, atoi, to_u16, All, Option-cases, length, subst,
}
use store_monitor.Common.Hash.{UtHash, drop_item}
use store_monitor.Connection.Data.{
  Server, ServerRole, connect, process_none, down, Ptr, null, write, write_eq, write_ne,
}
use store_monitor.Connection.Queue.{modify}
use store_monitor.Connection.Queue.Links.{IsQueue}
use store_monitor.Connection.Queue.Append.{payload, add-append}
use store_monitor.Connection.Queue.Move.{IsQueue-same}
use store_monitor.Connection.Pool.{id_key, create_server_info, update, add_to, queue_of, with_queue}
use store_monitor.Config.Load.Servers.{below-ne, below-has}
use store_monitor.Monitor.{
  MonitorMap, Monitoring, put, add_monitored, monitor_update_local_meta_for_server,
}

-- The record of a server that is monitored from now on, but for its links.
pub monitored_server : Str → Str → Str → Server
monitored_server ip port type = record {
  server_id_key = id_key ip (to_u16 (atoi port)) type;
  ip = ip;
  port = to_u16 (atoi port);
  type = type;
  connection_state = connect;
  engine = none;
  process_timeout_fn = none;
  server_role = ServerRole.monitor;
  queue_id = 0;
  can_write = false;
  next = null;
  prev = null;
  connection_context = null;
  rw_timer_active = false;
  server_alive_state = down;
  process_state = process_none;
  priv_data = none;
}

module _ (H : UtHash) (split_raw : Str → List Str) where
  -- A new server: its record is entered under the key, and its server stands last among the
  -- unconnected.
  pub record Enrolled (key ip port type : Str) (us : List Ptr) (w w' : Monitoring H.Table)
      : Type 0 where
    pub named :
        H.iter w'.dmonitor.monitor_map_tmp
        ≡ H.iter w.dmonitor.monitor_map_tmp ++ (key, w.dmonitor.fresh) ∷ []
    pub cur : w'.dmonitor.monitor_map_cur ≡ w.dmonitor.monitor_map_cur
    pub item :
        w'.dmonitor.items w.dmonitor.fresh
        ≡ some (record {
          ip_port_type = key;
          ip = ip;
          port = to_u16 (atoi port);
          type = type;
          server_info = w.dmonitor.fresh_server;
        })
    pub items : (p : Ptr) → w.dmonitor.fresh ≢ p → w'.dmonitor.items p ≡ w.dmonitor.items p
    pub server :
        payload (w'.client.pool.heap w.dmonitor.fresh_server) ≡ some (monitored_server ip port type)
    pub servers :
        (q : Ptr)
        → w.dmonitor.fresh_server ≢ q
        → payload (w'.client.pool.heap q) ≡ payload (w.client.pool.heap q)
    pub queue :
        IsQueue w'.client.pool.heap w'.client.pool.unconnected_server_queue
          (us ++ w.dmonitor.fresh_server ∷ [])

  enroll :
      (key ip port type : Str) (us : List Ptr) (w : Monitoring H.Table)
      → IsQueue w.client.pool.heap w.client.pool.unconnected_server_queue us
      → All (λ p. p < w.dmonitor.fresh_server) us
      → 0 < w.dmonitor.fresh_server
      → (w' : Monitoring H.Table) × (add_monitored H split_raw key (ip ∷ port ∷ type ∷ []) w
          ≡ some (true, w'))
        × Enrolled key ip port type us w w'
  unfolding add_monitored create_server_info update add_to queue_of with_queue modify
      monitored_server put
  enroll key ip port type us w v below pos =
      let f = w.dmonitor.fresh_server in
      let n : f ≢ null = λ e. omega (arith, pos) in
      let s = monitored_server ip port type in
      let h = w.client.pool.heap in
      let h1 = write h f (some (record s { server_role = ServerRole.meta })) in
      let h2 = write h1 f (some s) in
      let other : (q : Ptr) → f ≢ q → h2 q ≡ h q =
        λ q m. write_ne h1 f q _ m ∙ write_ne h f q _ m in
      let (g, r, a) =
        add-append w.client.pool.unconnected_server_queue us (write_eq h1 f (some s)) n
          (IsQueue-same us (λ q i. other q (below-ne f q us below i)) v) (below-has f us below) in
      (
        record {
          client = record (w.client) {
            pool = record (w.client.pool) { heap = g; unconnected_server_queue = r };
          };
          dmonitor = record (w.dmonitor) {
            items = put w.dmonitor.items w.dmonitor.fresh (
                some (record {
                  ip_port_type = key;
                  ip = ip;
                  port = to_u16 (atoi port);
                  type = type;
                  server_info = f;
                }));
            fresh = suc w.dmonitor.fresh;
            fresh_server = suc f;
            monitor_map_tmp = H.add_keyptr key w.dmonitor.fresh w.dmonitor.monitor_map_tmp;
          };
        },
        rw (update, modify, write_eq h f, add_to, a.runs) refl,
        record {
          named = H.iter-add key w.dmonitor.fresh w.dmonitor.monitor_map_tmp;
          cur = refl;
          item = ground arith;
          items = λ p m. ground (arith, m);
          server = a.kept f ∙ ap payload (write_eq h1 f (some s));
          servers = λ q m. a.kept q ∙ ap payload (other q m);
          queue = a.queue;
        },
      )

  module _ (key : Str) (w : Monitoring H.Table) (us : List Ptr) where
    -- What `monitorUpdateLocalMetaForServer` does, by whether the server is monitored already and
    -- what its key splits into.
    pub data Outcome : Option (Bool × Monitoring H.Table) → Type 0 where
      known :
          {p : Ptr} {m : MonitorMap} {w' : Monitoring H.Table}
          → H.find_str key w.dmonitor.monitor_map_cur ≡ some p
          → w.dmonitor.items p ≡ some m
          → H.iter w'.dmonitor.monitor_map_cur ≡ drop_item p (H.iter w.dmonitor.monitor_map_cur)
          → H.iter w'.dmonitor.monitor_map_tmp
            ≡ H.iter w.dmonitor.monitor_map_tmp ++ (m.ip_port_type, p) ∷ []
          → w'.dmonitor.items ≡ w.dmonitor.items
          → w'.client ≡ w.client
          → Outcome (some (true, w'))
      malformed :
          {w' : Monitoring H.Table}
          → H.find_str key w.dmonitor.monitor_map_cur ≡ none
          → length (split_raw key) ≢ 3
          → w'.dmonitor.monitor_map_cur ≡ w.dmonitor.monitor_map_cur
          → w'.dmonitor.monitor_map_tmp ≡ w.dmonitor.monitor_map_tmp
          → w'.dmonitor.items ≡ w.dmonitor.items
          → w'.client ≡ w.client
          → Outcome (some (false, w'))
      enrolled :
          {ip port type : Str} {w' : Monitoring H.Table}
          → H.find_str key w.dmonitor.monitor_map_cur ≡ none
          → split_raw key ≡ ip ∷ port ∷ type ∷ []
          → Enrolled key ip port type us w w'
          → Outcome (some (true, w'))

    module _ (v : IsQueue w.client.pool.heap w.client.pool.unconnected_server_queue us)
        (below : All (λ p. p < w.dmonitor.fresh_server) us)
        (pos : 0 < w.dmonitor.fresh_server) where
      new_server :
          (parts : List Str)
          → split_raw key ≡ parts
          → H.find_str key w.dmonitor.monitor_map_cur ≡ none
          → Outcome (add_monitored H split_raw key parts w)
      unfolding add_monitored
      new_server [] e out = malformed out (rw e (λ x. omega (arith, x))) refl refl refl refl
      new_server (a ∷ []) e out = malformed out (rw e (λ x. omega (arith, x))) refl refl refl refl
      new_server (a ∷ b ∷ []) e out =
          malformed out (rw e (λ x. omega (arith, x))) refl refl refl refl
      new_server (ip ∷ port ∷ type ∷ []) e out =
          let (w', runs, x) = enroll key ip port type us w v below pos in
          subst Outcome (sym runs) (enrolled out e x)
      new_server (a ∷ b ∷ c ∷ d ∷ parts) e out =
          malformed out (rw e (λ x. omega (arith, x))) refl refl refl refl

      -- Where the entries that can be found have their records, and the queue of unconnected servers
      -- stands for `us`, allocated before, and NULL is never allocated: a server that is monitored is
      -- moved to the new table with its record; a key that does not split in three is refused, and
      -- the tables, records and servers stay as they are; and any other server is entered in the new table, with a new record and a server that stands last
      -- among the unconnected, while all other records and servers keep what they hold.
      pub update-Outcome :
          ((p : Ptr)
            → H.find_str key w.dmonitor.monitor_map_cur ≡ some p
            → (m : MonitorMap) × (w.dmonitor.items p ≡ some m))
          → Outcome (monitor_update_local_meta_for_server H split_raw key w)
      unfolding monitor_update_local_meta_for_server
      update-Outcome there = elim (Option-cases (H.find_str key w.dmonitor.monitor_map_cur)) [
        | inl out ↦
            rw (monitor_update_local_meta_for_server, out) (new_server (split_raw key) refl out)
        | inr (p, e) ↦
            let (m, i) = there p e in
            rw (monitor_update_local_meta_for_server, e, i)
              (known e i (H.iter-del _ _) (H.iter-add _ _ _) refl refl)
      ]
