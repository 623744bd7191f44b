-- ===== src/Monitor/Report.antt =====
-- `monitorProcessState`: the state of a monitored server is reported, and the server queued again.
use store_monitor.Common.{
  ℕ, ◌<◌, ◌==◌, if◌then◌else◌, ◌>>=◌, ◌≡◌, inl, inr, refl, ap, ◌∙◌, arith, true, false, Bool-cases,
  Option, none, some, List, [], ◌∷◌, ◌++◌, Str, codes, signed_decimal, length, head_or, ℤ,
}
use store_monitor.Config.{Config}
use store_monitor.Connection.Data.{
  Server, ConnectionState, connect, connecting, connected, destroyed, reset, AliveState, up, down,
  unknow, process_none, Ptr, null, Heap, Pool, store_servers, store_timeout, monitor_servers,
}
use store_monitor.Connection.Queue.Append.{payload}
use store_monitor.Connection.Pool.{update, add_to, queue_of, with_queue}
use store_monitor.Hiredis.{
  Client, Sent, Accepts, update_server_state_in_store_done, redis_async_command,
}
use store_monitor.Meta.{fetch_connected}
use store_monitor.Meta.Fetch.{live, lost, Holds, stores, fetch-live}
use store_monitor.Store.{set_up, update_server_state_in_store}
use store_monitor.Monitor.Alike.{
  state_at, state-payload, Alike, there, updated, Open, Open-same, appended,
}
use store_monitor.Monitor.{requeue_monitored, monitor_process_state}

-- The command that reports the server with the key to the store.
abbrev pub command : Ptr → Str → ℤ → Sent
command store key expire = record {
  to = store;
  callback = update_server_state_in_store_done;
  priv_data = null;
  argv = codes "SETEX" ∷ key ∷ signed_decimal expire ∷ codes "1" ∷ [];
}

-- The commands that are sent after a server of the state is reported: one more, if it is up and
-- hiredis takes the command.
abbrev pub sent_after : Accepts → AliveState → Sent → List Sent → List Sent
sent_after accepts up m sent = if accepts m then sent ++ m ∷ [] else sent
sent_after accepts _ m sent = sent

module _ (accepts : Accepts) (expire : ℤ) where
  taken :
      (m : Sent) (c : Client)
      → (redis_async_command accepts m c).1
        ≡ record c { sent = if accepts m then c.sent ++ m ∷ [] else c.sent }
  unfolding redis_async_command
  taken m c = elim (Bool-cases (accepts m)) [ inl e ↦ rw e refl | inr e ↦ rw e refl ]

  set_up_lem :
      (store : Ptr) (key : Str) (c : Client) (x : ConnectionState)
      → state_at (c.pool.heap store) ≡ some x
      → (h : Heap) × (set_up accepts store key expire c
          ≡ some (record c {
            pool = record (c.pool) { heap = h };
            sent = sent_after accepts up (command store key expire) c.sent;
          }))
        × Alike c.pool.heap h
  unfolding set_up
  set_up_lem store key c x e =
      let (h, runs, same) =
        updated store
          (λ s. record s { rw_timer_active = true; process_timeout_fn = some store_timeout }) c.pool
          x e (λ s. refl) in
      (h, rw (taken (command store key expire) c, runs) refl, same)

  reported :
      (p store : Ptr) (s : Server) (c : Client) (x : ConnectionState)
      → c.pool.heap p ≡ some s
      → state_at (c.pool.heap store) ≡ some x
      → (h : Heap) × (update_server_state_in_store accepts expire p store c
          ≡ some (record c {
            pool = record (c.pool) { heap = h };
            sent =
                sent_after accepts s.server_alive_state
                  (command store s.server_id_key expire)
                  c.sent;
          }))
        × Alike c.pool.heap h
  unfolding update_server_state_in_store
  reported p store s c x v e = rw v (by_state s.server_alive_state)
    where
      by_state :
          (a : AliveState)
          → (h : Heap) × (elim a as (λ x. Option Client) [
            | up ↦ set_up accepts store s.server_id_key expire c
            | _ ↦ some c
          ]
              ≡ some (record c {
                pool = record (c.pool) { heap = h };
                sent = sent_after accepts a (command store s.server_id_key expire) c.sent;
              }))
            × Alike c.pool.heap h
      by_state up = set_up_lem store s.server_id_key c x e
      by_state down = (c.pool.heap, refl, λ q. refl)
      by_state unknow = (c.pool.heap, refl, λ q. refl)

-- The tail of the queue of monitored servers afterwards: a server that waits to be connected is not
-- queued.
abbrev pub tail_after : ConnectionState → Ptr → Ptr → Ptr
tail_after connect p t = t
tail_after _ p t = p

module _ (accepts : Accepts) (fuel : ℕ) (config : Config) where
  requeued :
      (p : Ptr) (c : Pool) (x : ConnectionState)
      → state_at (c.heap p) ≡ some x
      → Open c.heap c.monitor_server_queue
      → (d : Pool) × (requeue_monitored accepts fuel config x p c ≡ some d)
        × (d.monitor_server_queue.tail ≡ tail_after x p c.monitor_server_queue.tail)
        × Alike c.heap d.heap
  unfolding requeue_monitored add_to queue_of with_queue
  requeued p c x e o = by_state x
    where
      added :
          (d : Pool) × (add_to monitor_servers p c ≡ some d)
          × (d.monitor_server_queue.tail ≡ p)
          × Alike c.heap d.heap
      added =
          let (g, r, runs, t, same) = appended p c.heap c.monitor_server_queue x e o in
          (record c { heap = g; monitor_server_queue = r }, rw runs refl, t, same)

      by_state :
          (y : ConnectionState)
          → (d : Pool) × (requeue_monitored accepts fuel config y p c ≡ some d)
            × (d.monitor_server_queue.tail ≡ tail_after y p c.monitor_server_queue.tail)
            × Alike c.heap d.heap
      by_state connect = (c, refl, refl, λ q. refl)
      by_state connecting = added
      by_state connected = added
      by_state destroyed = added
      by_state reset = added

  -- The end of `monitorProcessState`.
  finish : Ptr → Client → Option Client
  finish p c = do
    pool ← update p (λ s. record s { process_state = process_none }) c.pool
    s ← pool.heap p
    pool ← requeue_monitored accepts fuel config s.connection_state p pool
    some (record c { pool = pool })

  finished :
      (p : Ptr) (c : Client) (x : ConnectionState)
      → state_at (c.pool.heap p) ≡ some x
      → Open c.pool.heap c.pool.monitor_server_queue
      → (d : Pool) × (finish p c ≡ some (record c { pool = d }))
        × (d.monitor_server_queue.tail ≡ tail_after x p c.pool.monitor_server_queue.tail)
        × Alike c.pool.heap d.heap
  unfolding finish
  finished p c x e o =
      let (h, runs, same) =
        updated p (λ s. record s { process_state = process_none }) c.pool x e (λ s. refl) in
      let (s, v, k) = there (h p) x (same p ∙ e) in
      let (d, runs2, t, same2) =
        requeued p (record (c.pool) { heap = h }) x (same p ∙ e)
          (Open-same c.pool.heap h c.pool.monitor_server_queue same o) in
      (d, rw (runs, v, k, runs2) refl, t, λ q. same2 q ∙ same q)

  -- The server at an address that has the payload of `s`.
  same_server :
      (a : Option Server) (s : Server)
      → payload a ≡ payload (some s)
      → (t : Server) × (a ≡ some t)
        × (t.server_alive_state ≡ s.server_alive_state)
        × (t.server_id_key ≡ s.server_id_key)
        × (t.connection_state ≡ s.connection_state)
  same_server none s e = cc
  same_server (some t) s e = (t, refl, ground arith, ground arith, ground arith)

  -- The commands that are sent for a server, by the store servers that are found connected.
  abbrev pub report : List Ptr → Server → List Sent → List Sent
  report [] s sent = sent
  report (store ∷ rest) s sent =
      sent_after accepts s.server_alive_state
        (command store s.server_id_key config.server_state_expire_time) sent

  report-same :
      (l : List Ptr) (s t : Server) (sent : List Sent)
      → t.server_alive_state ≡ s.server_alive_state
      → t.server_id_key ≡ s.server_id_key
      → report l t sent ≡ report l s sent
  report-same [] s t sent a k = refl
  report-same (x ∷ l) s t sent a k = rw (a, k) refl

  -- The report to the server that the search returns.
  send : Ptr → Ptr → Client → Option Client
  send p store c =
      if store == null
      then some c
      else update_server_state_in_store accepts config.server_state_expire_time p store c

  sending :
      (i : ℕ) (l us : List Ptr) (p : Ptr) (s : Server) (c : Client)
      → c.pool.heap p ≡ some s
      → Holds (store_servers i) c.pool l us
      → (h : Heap) × (send p (head_or null l) c
          ≡ some (record c { pool = record (c.pool) { heap = h }; sent = report l s c.sent }))
        × Alike c.pool.heap h
  unfolding send
  sending i [] us p s c v w = (c.pool.heap, refl, λ q. refl)
  sending i (store ∷ l) us p s c v w =
      let front = w.0.from.queue.chain in
      let n : (store == null) ≡ false = ground (arith, front.1) in
      rw n (
        reported accepts config.server_state_expire_time p store s c front.0.cell.connection_state v
          (ap state_at front.0.holds))

  -- `monitorProcessState` behind the search.
  process-parts :
      (p : Ptr) (s : Server) (c : Client) (d : Pool) (store : Ptr)
      → c.pool.heap p ≡ some s
      → fetch_connected fuel (store_servers s.queue_id) c.pool ≡ some (store, d)
      → monitor_process_state accepts fuel config p c
        ≡ (send p store (record c { pool = d }) >>= finish p)
  unfolding monitor_process_state send finish
  process-parts p s c d store v e = rw (v, e) refl

  pub process-reported :
      (p : Ptr) (s : Server) (c : Client) (ps us : List Ptr)
      → c.pool.heap p ≡ some s
      → Holds (store_servers s.queue_id) c.pool ps us
      → length ps < fuel
      → Open c.pool.heap c.pool.monitor_server_queue
      → (c' : Client) × (monitor_process_state accepts fuel config p c ≡ some c')
        × (c'.sent ≡ report (live c.pool.heap ps) s c.sent)
        × (c'.pool.monitor_server_queue.tail
            ≡ tail_after s.connection_state p c.pool.monitor_server_queue.tail)
        × ((q : Ptr) → state_at (c'.pool.heap q) ≡ state_at (c.pool.heap q))
  process-reported p s c ps us v w enough o =
      let (d, runs, f) =
        fetch-live (store_servers s.queue_id) (stores s.queue_id) fuel c.pool ps us w enough in
      let kept : Alike c.pool.heap d.heap =
        λ q. state-payload (d.heap q) (c.pool.heap q) (f.kept q) in
      let (s1, v1, alive, key, state) = same_server (d.heap p) s (f.kept p ∙ ap payload v) in
      let c1 : Client = record c { pool = d } in
      let (h, sends, same) =
        sending s.queue_id (live c.pool.heap ps) (us ++ lost c.pool.heap ps) p s1 c1 v1 f.holds in
      let c2 : Client = record c {
        pool = record d { heap = h };
        sent = report (live c.pool.heap ps) s1 c.sent;
      } in
      let (e, ends, t, same2) =
        finished p c2 s.connection_state (same p ∙ ap state_at v1 ∙ ap some state) (
          Open-same d.heap h d.monitor_server_queue same
            (rw f.monitors (Open-same c.pool.heap d.heap c.pool.monitor_server_queue kept o))) in
      (
        record c2 { pool = e },
        process-parts p s c d (head_or null (live c.pool.heap ps)) v runs
            ∙ ap (λ x. x >>= finish p) sends
            ∙ ends,
        report-same (live c.pool.heap ps) s s1 c.sent alive key,
        t ∙ ap (λ q. tail_after s.connection_state p q.tail) f.monitors,
        λ q. same2 q ∙ same q ∙ kept q,
      )
