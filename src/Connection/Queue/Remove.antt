-- ===== src/Connection/Queue/Remove.antt =====
-- `getServerFromServerQueue` takes the first server, and `rmServerFromServerQueue` any one.
use store_monitor.Common.{
  ◌≡◌, ◌≢◌, refl, sym, subst, false, true, some, List, [], ◌∷◌, arith, head_or,
}
use store_monitor.Connection.Data.{Server, Ptr, null, Heap, Queue, write, write_ne}
use store_monitor.Connection.Queue.{
  get_server_from_server_queue, rm_server_from_server_queue, set_links, set_prev,
}
use store_monitor.Connection.Queue.Append.{payload}
use store_monitor.Connection.Queue.Links.{
  Next, has, IsQueue, IsDeque, Forward-same, Backward-same, Agree,
}

-- The heap after the record at `p` has lost its links.
abbrev unlinked : Heap → Ptr → Server → Heap
unlinked h p s = write h p (some (set_links null null s))

pub has-ne : (a p : Ptr) (ps : List Ptr) → has a ps ≡ true → has p ps ≡ false → p ≢ a
has-ne a p ps i o e = ground (arith, subst (λ b. has b ps ≡ false) e o)

unlinked-Agree :
    (h : Heap) (p : Ptr) (s : Server) (ps : List Ptr)
    → has p ps ≡ false
    → Agree h (unlinked h p s) ps
unlinked-Agree h p s [] out a i = cc
unlinked-Agree h p s (x ∷ xs) out a i = write_ne h p a _ (has-ne a p (x ∷ xs) i out)

pub record Taken (h : Heap) (q : Queue) (p : Ptr) (ps : List Ptr) (g : Heap) (r : Queue)
    : Type 0 where
  pub runs : get_server_from_server_queue (h, q) ≡ some (p, g, r)
  pub queue : IsQueue g r ps
  pub kept : (a : Ptr) → payload (g a) ≡ payload (h a)
  pub spared : (a : Ptr) → a ≢ p → g a ≡ h a

payload-unlinked :
    (h : Heap) (p : Ptr) {s : Server}
    → h p ≡ some s
    → (a : Ptr) → payload (unlinked h p s a) ≡ payload (h a)
unfolding write
payload-unlinked h p e a = ground arith

get_only :
    (h : Heap) {s : Server} (q : Queue) {p : Ptr}
    → q.head ≡ p
    → p ≢ null
    → h p ≡ some s
    → s.next ≡ null
    → get_server_from_server_queue (h, q)
      ≡ some (p, unlinked h p s, record q { head = null; tail = null })
unfolding get_server_from_server_queue
get_only h q e n c l = ground arith

get_more :
    (h : Heap) {s : Server} (q : Queue) {p y : Ptr}
    → q.head ≡ p
    → p ≢ null
    → h p ≡ some s
    → s.next ≡ y
    → y ≢ null
    → get_server_from_server_queue (h, q) ≡ some (p, unlinked h p s, record q { head = y })
unfolding get_server_from_server_queue
get_more h q e n c l m = ground arith

-- On a queue whose first server is `p`, `getServerFromServerQueue` does not fault, returns `p`, and
-- leaves a queue of the servers behind it; only the links of `p` change.
pub get_first :
    {h : Heap} (q : Queue) (p : Ptr) (ps : List Ptr)
    → IsQueue h q (p ∷ ps)
    → (g : Heap) × (r : Queue) × Taken h q p ps g r
get_first {h} q p [] v = (
  unlinked h p v.chain.0.cell,
  record q { head = null; tail = null },
  record {
    runs = get_only h q v.first v.chain.1 v.chain.0.holds v.chain.0.link;
    queue = record { first = refl; last = refl; chain = tt };
    kept = payload-unlinked h p v.chain.0.holds;
    spared = λ a n. write_ne h p a _ (λ e. n (sym e));
  },
)
get_first {h} q p (y ∷ ys) v = (
  unlinked h p v.chain.0.cell,
  record q { head = y },
  record {
    runs = get_more h q v.first v.chain.1 v.chain.0.holds v.chain.0.link v.chain.3.1;
    queue = record {
      first = refl;
      last = v.last;
      chain =
          Forward-same (y ∷ ys) (unlinked-Agree h p v.chain.0.cell (y ∷ ys) v.chain.2) v.chain.3;
    };
    kept = payload-unlinked h p v.chain.0.holds;
    spared = λ a n. write_ne h p a _ (λ e. n (sym e));
  },
)

-- On an empty queue it returns NULL and changes nothing.
pub get_none :
    {h : Heap} (q : Queue)
    → IsQueue h q []
    → get_server_from_server_queue (h, q) ≡ some (null, h, q)
unfolding get_server_from_server_queue
get_none q v = ground arith

-- The heap after `p`, the first server, has been taken out before `y`.
abbrev unhooked : Heap → Ptr → Ptr → Server → Server → Heap
unhooked h p y s t = write (write h y (some (set_prev null t))) p (some (set_links null null s))

module _ (h : Heap) {p : Ptr} {s : Server} (held : h p ≡ some s) (ne : p ≢ null)
    (no_prev : s.prev ≡ null) where
  rm_only :
      (q : Queue)
      → s.next ≡ null
      → rm_server_from_server_queue p (h, q)
        ≡ some (unlinked h p s, record q { head = null; tail = null })
  unfolding rm_server_from_server_queue
  rm_only q l = ground arith

  module _ {y : Ptr} {t : Server} (after : h y ≡ some t) (apart : p ≢ y) (y_ne : y ≢ null) where
    rm_more :
        (q : Queue)
        → s.next ≡ y
        → rm_server_from_server_queue p (h, q) ≡ some (unhooked h p y s t, record q { head = y })
    unfolding rm_server_from_server_queue
    rm_more q l = ground arith

    unhooked-at : unhooked h p y s t y ≡ some (set_prev null t)
    unfolding write
    unhooked-at = ground arith

    unhooked-kept : (a : Ptr) → payload (unhooked h p y s t a) ≡ payload (h a)
    unfolding write
    unhooked-kept a = ground arith

    unhooked-ne : (a : Ptr) → a ≢ p → a ≢ y → unhooked h p y s t a ≡ h a
    unfolding write
    unhooked-ne a m n = ground arith

same_prev :
    (h : Heap) (p : Ptr) {s t : Server} {b : Ptr}
    → h p ≡ some s
    → h p ≡ some t
    → t.prev ≡ b
    → s.prev ≡ b
same_prev h p e f l = ground arith

pub record Removed (h : Heap) (q : Queue) (p : Ptr) (ps : List Ptr) (g : Heap) (r : Queue)
    : Type 0 where
  pub runs : rm_server_from_server_queue p (h, q) ≡ some (g, r)
  pub deque : IsDeque g r ps
  pub type : r.queue_type ≡ q.queue_type
  pub kept : (a : Ptr) → payload (g a) ≡ payload (h a)
  pub spared : (a : Ptr) → a ≢ p → a ≢ head_or null ps → g a ≡ h a

-- On a doubly linked queue whose first server is `p`, `rmServerFromServerQueue` of `p` does not
-- fault and leaves a doubly linked queue of the servers behind it; only the links of `p` and of the
-- next server change.
pub rm_first :
    {h : Heap} (q : Queue) (p : Ptr) (ps : List Ptr)
    → IsDeque h q (p ∷ ps)
    → (g : Heap) × (r : Queue) × Removed h q p ps g r
rm_first {h} q p [] v = (
  unlinked h p c.cell,
  record q { head = null; tail = null },
  record {
    runs =
        rm_only h c.holds v.queue.chain.1 (same_prev h p c.holds v.back.0.holds v.back.0.link) q
          c.link;
    deque = record { queue = record { first = refl; last = refl; chain = tt }; back = tt };
    type = refl;
    kept = payload-unlinked h p c.holds;
    spared = λ a n m. write_ne h p a _ (λ e. n (sym e));
  },
)
  where
    c : Next h p null
    c = v.queue.chain.0
rm_first {h} q p (y ∷ ys) v = (
  unhooked h p y c.cell d.cell,
  record q { head = y },
  record {
    runs = rm_more h c.holds v.queue.chain.1 no_prev d.holds apart y_ne q c.link;
    deque = record {
      queue = record {
        first = refl;
        last = v.queue.last;
        chain = (
          record { cell = set_prev null d.cell; holds = at_y; link = d.link },
          y_ne,
          v.queue.chain.3.2,
          Forward-same ys spared_ys v.queue.chain.3.3,
        );
      };
      back = (
        record { cell = set_prev null d.cell; holds = at_y; link = refl },
        Backward-same y ys spared_ys v.back.1.1,
      );
    };
    type = refl;
    kept = unhooked-kept h c.holds v.queue.chain.1 no_prev d.holds apart y_ne;
    spared = unhooked-ne h c.holds v.queue.chain.1 no_prev d.holds apart y_ne;
  },
)
  where
    c : Next h p y
    c = v.queue.chain.0

    d : Next h y (head_or null ys)
    d = v.queue.chain.3.0

    y_ne : y ≢ null
    y_ne = v.queue.chain.3.1

    apart : p ≢ y
    apart = ground (arith, v.queue.chain.2)

    no_prev : c.cell.prev ≡ null
    no_prev = same_prev h p c.holds v.back.0.holds v.back.0.link

    at_y : unhooked h p y c.cell d.cell y ≡ some (set_prev null d.cell)
    at_y = unhooked-at h c.holds v.queue.chain.1 no_prev d.holds apart y_ne

    spared_ys : Agree h (unhooked h p y c.cell d.cell) ys
    spared_ys a i =
        unhooked-ne h c.holds v.queue.chain.1 no_prev d.holds apart y_ne a
          (λ e. has-ne a p (y ∷ ys) (ground (arith, i)) v.queue.chain.2 (sym e))
          (λ e. has-ne a y ys i v.queue.chain.3.2 (sym e))
