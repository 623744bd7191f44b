-- ===== src/Monitor/Clear.antt =====
-- `monitorClearOldLocalMeta`: the servers that the meta server no longer names are marked, and their
-- records freed.
use store_monitor.Common.{
  ◌==◌, ◌≡◌, ◌≢◌, inl, inr, refl, sym, subst, ap, ◌∙◌, arith, Bool, true, false, Bool-cases, Option,
  none, some, List, [], ◌∷◌, for_each, Str,
}
use store_monitor.Common.Hash.{UtHash, Entry, has_item, DistinctItems}
use store_monitor.Connection.Data.{Ptr, Server, Heap, destroyed, write}
use store_monitor.Connection.Queue.{modify}
use store_monitor.Connection.Queue.Links.{has}
use store_monitor.Connection.Pool.{update}
use store_monitor.Monitor.{
  MonitorMap, Monitoring, put, drop_monitored, monitor_clear_old_local_meta,
}

abbrev mark : Server → Server
mark s = record s { connection_state = destroyed }

-- A place of the heap, marked or as it was.
abbrev pub marked : Bool → Option Server → Option Server
marked false o = o
marked true none = none
marked true (some s) = some (mark s)

marked-some : (b : Bool) (s : Server) → marked b (some (mark s)) ≡ some (mark s)
marked-some false s = refl
marked-some true s = refl

-- The records of the entries are there, and so are their servers, at the addresses.
abbrev pub Watched : (Ptr → Option MonitorMap) → Heap → List Entry → List Ptr → Type 0
Watched items h [] [] = Unit
Watched items h [] (q ∷ qs) = ⊥
Watched items h (e ∷ es) [] = ⊥
Watched items h (e ∷ es) (q ∷ qs) =
    ((m : MonitorMap) × (s : Server) × (items e.1 ≡ some m) × (m.server_info ≡ q) × (h q ≡ some s))
    × Watched items h es qs

Watched-same :
    (items jtems : Ptr → Option MonitorMap) (h g : Heap) (es : List Entry) (qs : List Ptr)
    → ((p : Ptr) → has_item p es ≡ true → jtems p ≡ items p)
    → ((q : Ptr) (s : Server) → h q ≡ some s → (t : Server) × (g q ≡ some t))
    → Watched items h es qs
    → Watched jtems g es qs
unfolding has_item
Watched-same items jtems h g [] [] same alive w = tt
Watched-same items jtems h g [] (q ∷ qs) same alive w = w
Watched-same items jtems h g (e ∷ es) [] same alive w = w
Watched-same items jtems h g ((k, p) ∷ es) (q ∷ qs) same alive ((m, s, i, at, v), w) =
    let (t, v') = alive q s v in
    (
      (m, t, same p (ground arith) ∙ i, at, v'),
      Watched-same items jtems h g es qs (λ r j. same r (ground arith)) alive w,
    )

modify-write :
    (q : Ptr) (f : Server → Server) (h : Heap) (s : Server)
    → h q ≡ some s
    → modify q f h ≡ some (write h q (some (f s)))
unfolding modify
modify-write q f h s v = rw (modify, v) refl

marks_one :
    (h : Heap) (q : Ptr) (s : Server) (qs : List Ptr) (x : Ptr)
    → h q ≡ some s
    → marked (has x qs) (write h q (some (mark s)) x) ≡ marked (has x (q ∷ qs)) (h x)
unfolding write
marks_one h q s qs x v = elim (Bool-cases (q == x)) [
  | inl e ↦
      let f : (x == q) ≡ true = ground arith in
      let at : q ≡ x = ground arith in rw (e, f, ap h (sym at) ∙ v) (marked-some (has x qs) s)
  | inr n ↦ let f : (x == q) ≡ false = ground arith in rw (n, f) refl
]

still :
    (h : Heap) (q : Ptr) (s : Server) (x : Ptr) (t : Server)
    → h x ≡ some t
    → (u : Server) × (write h q (some (mark s)) x ≡ some u)
unfolding write
still h q s x t v = elim (Bool-cases (q == x)) [ inl e ↦ (mark s, rw e refl) | inr n ↦ (t, rw n v) ]

module _ (H : UtHash) (split_raw : Str → List Str) where
  -- What the loop over the old entries `es`, with servers at the addresses `qs`, changes.
  record Discarded (es : List Entry) (qs : List Ptr) (w w' : Monitoring H.Table) : Type 0 where
    spared : (p : Ptr) → has_item p es ≡ false → w'.dmonitor.items p ≡ w.dmonitor.items p
    tmp : w'.dmonitor.monitor_map_tmp ≡ w.dmonitor.monitor_map_tmp
    heap : (x : Ptr) → w'.client.pool.heap x ≡ marked (has x qs) (w.client.pool.heap x)
    rest :
        w'.client
        ≡ record (w.client) { pool = record (w.client.pool) { heap = w'.client.pool.heap } }

  -- The state after one old entry is discarded.
  abbrev without : Ptr → Ptr → Server → Monitoring H.Table → Monitoring H.Table
  without p q s w = record w {
    client = record (w.client) {
      pool = record (w.client.pool) { heap = write w.client.pool.heap q (some (mark s)) };
    };
    dmonitor = record (w.dmonitor) {
      monitor_map_cur = H.del p w.dmonitor.monitor_map_cur;
      items = put w.dmonitor.items p none;
    };
  }

  without_ne :
      (p q r : Ptr) (s : Server) (w : Monitoring H.Table)
      → (p == r) ≡ false
      → (without p q s w).dmonitor.items r ≡ w.dmonitor.items r
  unfolding put
  without_ne p q r s w n = rw n refl

  drop_one :
      (k : Str) (p q : Ptr) (m : MonitorMap) (s : Server) (w : Monitoring H.Table)
      → w.dmonitor.items p ≡ some m
      → m.server_info ≡ q
      → w.client.pool.heap q ≡ some s
      → drop_monitored H split_raw (k, p) w ≡ some (without p q s w)
  unfolding drop_monitored update
  drop_one k p q m s w i at v = rw (i, at, modify-write q mark w.client.pool.heap s v) refl

  drop_each :
      (es : List Entry) (qs : List Ptr) (w : Monitoring H.Table)
      → Watched w.dmonitor.items w.client.pool.heap es qs
      → DistinctItems es
      → (w' : Monitoring H.Table) × (for_each (drop_monitored H split_raw) es w ≡ some w')
        × Discarded es qs w w'
  unfolding for_each has_item
  drop_each [] [] w v d =
      (w, refl, record { spared = λ p n. refl; tmp = refl; heap = λ x. refl; rest = refl })
  drop_each [] (q ∷ qs) w v d = absurd v
  drop_each (e ∷ es) [] w v d = absurd v
  drop_each ((k, p) ∷ es) (q ∷ qs) w ((m, s, i, at, v), vs) d =
      let w1 : Monitoring H.Table = without p q s w in
      let (w', runs, c) =
        drop_each es qs w1
          (Watched-same w.dmonitor.items w1.dmonitor.items w.client.pool.heap w1.client.pool.heap es
            qs (λ r j. without_ne p q r s w (ground (arith, apart r j)))
            (still w.client.pool.heap q s) vs)
          d.1 in
      (
        w',
        rw (drop_one k p q m s w i at v) runs,
        record {
          spared = λ r n. c.spared r (ground arith) ∙ without_ne p q r s w (ground arith);
          tmp = c.tmp;
          heap = λ x. c.heap x ∙ marks_one w.client.pool.heap q s qs x v;
          rest = c.rest;
        },
      )
    where
      apart : (r : Ptr) → has_item r es ≡ true → p ≢ r
      apart r j e =
          let f : true ≡ false = sym (subst (λ r. has_item r es ≡ true) (sym e) j) ∙ d.0 in cc

  -- Where the old entries have their records and the addresses `qs` of their servers on the heap,
  -- none twice and none in both tables, `monitorClearOldLocalMeta` does not fault. The servers at
  -- `qs` are marked as destroyed and no other is changed, nor any queue; the servers that were named
  -- become the monitored ones, with their records as they were.
  pub clear-marked :
      (w : Monitoring H.Table) (qs : List Ptr)
      → Watched w.dmonitor.items w.client.pool.heap (H.iter w.dmonitor.monitor_map_cur) qs
      → DistinctItems (H.iter w.dmonitor.monitor_map_cur)
      → ((p : Ptr)
          → has_item p (H.iter w.dmonitor.monitor_map_tmp) ≡ true
          → has_item p (H.iter w.dmonitor.monitor_map_cur) ≡ false)
      → (w' : Monitoring H.Table) × (monitor_clear_old_local_meta H split_raw w ≡ some w')
        × (w'.dmonitor.monitor_map_cur ≡ w.dmonitor.monitor_map_tmp)
        × (H.iter w'.dmonitor.monitor_map_tmp ≡ [])
        × ((p : Ptr)
            → has_item p (H.iter w.dmonitor.monitor_map_tmp) ≡ true
            → w'.dmonitor.items p ≡ w.dmonitor.items p)
        × ((x : Ptr) → w'.client.pool.heap x ≡ marked (has x qs) (w.client.pool.heap x))
        × (w'.client
            ≡ record (w.client) { pool = record (w.client.pool) { heap = w'.client.pool.heap } })
  unfolding monitor_clear_old_local_meta
  clear-marked w qs v d apart =
      let (m, runs, c) = drop_each (H.iter w.dmonitor.monitor_map_cur) qs w v d in
      rw runs (_, refl, c.tmp, H.iter-empty, (λ p i. c.spared p (apart p i)), c.heap, c.rest)
