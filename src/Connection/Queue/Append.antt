-- ===== src/Connection/Queue/Append.antt =====
-- `addServerToServerQueue` appends.
use store_monitor.Common.{
  ◌≡◌, ◌≢◌, refl, sym, false, Option, none, some, List, [], ◌∷◌, ◌++◌, arith, last_or,
  last_or-append,
}
use store_monitor.Connection.Data.{Server, Ptr, null, Heap, Queue, write}
use store_monitor.Connection.Queue.{add_server_to_server_queue, set_next, set_links}
use store_monitor.Connection.Queue.Links.{
  Next, Prev, has, Forward, Backward, IsQueue, has-last_or, Next-same, Prev-same,
}

-- The heaps agree but at `p` and at `t`.
abbrev pub Off : Heap → Heap → Ptr → Ptr → Type 0
Off h g p t = (a : Ptr) → a ≢ p → a ≢ t → g a ≡ h a

pub has-append :
    (a p : Ptr) (ps : List Ptr) → has a ps ≡ false → a ≢ p → has a (ps ++ p ∷ []) ≡ false
has-append a p [] h n = ground arith
has-append a p (q ∷ qs) h n = ground (arith, has-append a p qs)

Forward-snoc :
    {h g : Heap} {p : Ptr} (x : Ptr) (xs : List Ptr)
    → Forward h (x ∷ xs)
    → has p (x ∷ xs) ≡ false
    → p ≢ null
    → Off h g p (last_or x xs)
    → Next g (last_or x xs) p
    → Next g p null
    → Forward g (x ∷ xs ++ p ∷ [])
Forward-snoc x [] f out ne off t n = (t, f.1, ground arith, (n, ne, refl, tt))
Forward-snoc {p = p} x (y ∷ ys) f out ne off t n = (
  Next-same (off x (ground arith) (ground (arith, has-last_or y ys))) f.0,
  f.1,
  has-append x p (y ∷ ys) f.2 (ground arith),
  Forward-snoc y ys f.3 (ground arith) ne off t n,
)

-- `g` keeps the `prev` of the last server.
Backward-snoc :
    {h g : Heap} {p : Ptr} (b x : Ptr) (xs : List Ptr)
    → Forward h (x ∷ xs)
    → Backward h b (x ∷ xs)
    → has p (x ∷ xs) ≡ false
    → Off h g p (last_or x xs)
    → ((c : Ptr) → Prev h (last_or x xs) c → Prev g (last_or x xs) c)
    → Prev g p (last_or x xs)
    → Backward g b (x ∷ xs ++ p ∷ [])
Backward-snoc b x [] f w out off t n = (t b w.0, (n, tt))
Backward-snoc b x (y ∷ ys) f w out off t n = (
  Prev-same (off x (ground arith) (ground (arith, has-last_or y ys))) w.0,
  Backward-snoc x y ys f.3 w.1 (ground arith) off t n,
)

-- What `addServerToServerQueue` leaves of the heap: only links change, and only those of `p` and of
-- the old tail.
abbrev pub payload : Option Server → Option Server
payload none = none
payload (some s) = some (set_links null null s)

pub record Appended (h : Heap) (q : Queue) (p : Ptr) (ps : List Ptr) (g : Heap) (r : Queue)
    : Type 0 where
  pub runs : add_server_to_server_queue p (h, q) ≡ some (g, r)
  pub queue : IsQueue g r (ps ++ p ∷ [])
  pub back : Backward h null ps → Backward g null (ps ++ p ∷ [])
  pub spared : Off h g p (last_or null ps)
  pub kept : (a : Ptr) → payload (g a) ≡ payload (h a)

last-ne : {h : Heap} (x : Ptr) (xs : List Ptr) → Forward h (x ∷ xs) → last_or x xs ≢ null
last-ne x [] f = f.1
last-ne x (y ∷ ys) f = last-ne y ys f.3

-- The heap after `p` has been put behind `z`.
abbrev behind : Heap → Ptr → Ptr → Server → Server → Heap
behind h p z s t =
    write (write (write h p (some (set_links null null s))) z (some (set_next p t))) p
      (some (set_links z null s))

module _ (h : Heap) {p z : Ptr} {s t : Server} (held : h p ≡ some s) (at_z : h z ≡ some t)
    (apart : p ≢ z) (ne : z ≢ null) where
  behind-runs :
      (q : Queue)
      → q.tail ≡ z
      → q.head ≢ null
      → add_server_to_server_queue p (h, q) ≡ some (behind h p z s t, record q { tail = p })
  unfolding add_server_to_server_queue
  behind-runs q e n = ground arith

  behind-at : behind h p z s t z ≡ some (set_next p t)
  unfolding write
  behind-at = ground arith

  behind-kept : (a : Ptr) → payload (behind h p z s t a) ≡ payload (h a)
  unfolding write
  behind-kept a = ground arith

module _ {h : Heap} {p : Ptr} {s : Server} (held : h p ≡ some s) (ne : p ≢ null) where
  add_empty : (q : Queue) → IsQueue h q [] → (g : Heap) × (r : Queue) × Appended h q p [] g r
  unfolding add_server_to_server_queue
  add_empty q v = (
    write h p (some (set_links null null s)),
    record q { head = p; tail = p },
    record {
      runs = ground arith;
      queue = record {
        first = refl;
        last = refl;
        chain = (
          record { cell = set_links null null s; holds = ground arith; link = refl },
          ne,
          refl,
          tt,
        );
      };
      back = λ _. (record { cell = set_links null null s; holds = ground arith; link = refl }, tt);
      spared = λ a m n. ground arith;
      kept = λ a. ground arith;
    },
  )

  add_behind :
      (q : Queue) (x : Ptr) (xs : List Ptr)
      → IsQueue h q (x ∷ xs)
      → has p (x ∷ xs) ≡ false
      → (t : Server) → h (last_or x xs) ≡ some t
      → (g : Heap) × (r : Queue) × Appended h q p (x ∷ xs) g r
  unfolding add_server_to_server_queue
  add_behind q x xs v out t at_tail = (
    behind h p (last_or x xs) s t,
    record q { tail = p },
    record {
      runs = behind-runs h held at_tail apart tail_ne q v.last head_ne;
      queue = record {
        first = v.first;
        last = sym (last_or-append null p (x ∷ xs));
        chain =
            Forward-snoc x xs v.chain out ne (λ a m n. ground arith)
              (record {
                cell = set_next p t;
                holds = behind-at h held at_tail apart tail_ne;
                link = refl;
              })
              (record {
                cell = set_links (last_or x xs) null s;
                holds = ground arith;
                link = refl;
              });
      };
      back = λ w.
          Backward-snoc null x xs v.chain w out (λ a m n. ground arith)
            (λ c d. record {
              cell = set_next p t;
              holds = behind-at h held at_tail apart tail_ne;
              link = same_cell d.holds d.link;
            })
            (record { cell = set_links (last_or x xs) null s; holds = ground arith; link = refl });
      spared = λ a m n. ground arith;
      kept = behind-kept h held at_tail apart tail_ne;
    },
  )
    where
      apart : p ≢ last_or x xs
      apart = ground (arith, has-last_or x xs)

      tail_ne : last_or x xs ≢ null
      tail_ne = last-ne x xs v.chain

      head_ne : q.head ≢ null
      head_ne = ground (arith, v.chain.1)

      same_cell : {c : Ptr} {d : Server} → h (last_or x xs) ≡ some d → d.prev ≡ c → t.prev ≡ c
      same_cell e f = ground arith

last_cell :
    {h : Heap} (x : Ptr) (xs : List Ptr)
    → Forward h (x ∷ xs)
    → (t : Server) × (h (last_or x xs) ≡ some t)
last_cell x [] f = (f.0.cell, f.0.holds)
last_cell x (y ∷ ys) f = last_cell y ys f.3

-- On a queue of the servers `ps`, `addServerToServerQueue` of a server that is on the heap and not
-- in the queue does not fault, and leaves a queue of `ps` with the server behind them; a doubly
-- linked queue stays doubly linked; apart from the new server and the old tail no server changes,
-- and those two change in their links only.
pub add-append :
    {h : Heap} {p : Ptr} {s : Server} (q : Queue) (ps : List Ptr)
    → h p ≡ some s
    → p ≢ null
    → IsQueue h q ps
    → has p ps ≡ false
    → (g : Heap) × (r : Queue) × Appended h q p ps g r
add-append q [] held ne v out = add_empty held ne q v
add-append q (x ∷ xs) held ne v out =
    let (t, at_tail) = last_cell x xs v.chain in add_behind held ne q x xs v out t at_tail
