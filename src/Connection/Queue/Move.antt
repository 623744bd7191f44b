-- ===== src/Connection/Queue/Move.antt =====
-- A server moves from the front of one queue to the back of another, as the code does with a server
-- whose connection is gone.
use store_monitor.Common.{
  ◌≡◌, ◌≢◌, refl, sym, ap, ◌∙◌, false, true, Option, none, some, List, [], ◌∷◌, ◌++◌, arith,
  head_or, last_or, All,
}
use store_monitor.Connection.Data.{Server, Ptr, null, Heap, Queue}
use store_monitor.Connection.Queue.{add_server_to_server_queue, rm_server_from_server_queue}
use store_monitor.Connection.Queue.Append.{payload, add-append, has-append}
use store_monitor.Connection.Queue.Remove.{rm_first, has-ne}
use store_monitor.Connection.Queue.Links.{
  has, Forward, IsQueue, IsDeque, Forward-same, Backward-same, Agree, has-last_or,
}

Forward-ne : (h : Heap) (a : Ptr) (ps : List Ptr) → Forward h ps → has a ps ≡ true → a ≢ null
Forward-ne h a [] f i = cc
Forward-ne h a (p ∷ ps) f i = ground (arith, f.1, Forward-ne h a ps f.3)

pub IsQueue-same :
    {h g : Heap} {q : Queue} (ps : List Ptr) → Agree h g ps → IsQueue h q ps → IsQueue g q ps
IsQueue-same ps same v = record {
  first = v.first;
  last = v.last;
  chain = Forward-same ps same v.chain;
}

IsDeque-same :
    {h g : Heap} {q : Queue} (ps : List Ptr) → Agree h g ps → IsDeque h q ps → IsDeque g q ps
IsDeque-same ps same v = record {
  queue = IsQueue-same ps same v.queue;
  back = Backward-same null ps same v.back;
}

pub payload-some :
    (o : Option Server) (s : Server) → payload o ≡ payload (some s) → (t : Server) × (o ≡ some t)
payload-some none s e = cc
payload-some (some t) s e = (t, refl)

-- No server of the first list is in the second.
abbrev pub Apart : List Ptr → List Ptr → Type 0
Apart ps us = All (λ p. has p us ≡ false) ps

Apart-has : (a : Ptr) (ps us : List Ptr) → Apart ps us → has a ps ≡ true → has a us ≡ false
Apart-has a [] us d i = cc
Apart-has a (p ∷ ps) us d i = ground (arith, d.0, Apart-has a ps us d.1)

Apart-snoc : (p : Ptr) (ps us : List Ptr) → has p ps ≡ false → Apart ps us → Apart ps (us ++ p ∷ [])
Apart-snoc p [] us out d = tt
Apart-snoc p (a ∷ ps) us out d =
    (has-append a p us d.0 (ground arith), Apart-snoc p ps us (ground arith) d.1)

-- Two queues on one heap that share no server; the first is doubly linked.
pub record Pair (h : Heap) (q : Queue) (ps : List Ptr) (u : Queue) (us : List Ptr) : Type 0 where
  pub from : IsDeque h q ps
  pub to : IsQueue h u us
  pub apart : Apart ps us

ne-last : (a : Ptr) (us : List Ptr) → a ≢ null → has a us ≡ false → a ≢ last_or null us
ne-last a [] n out = n
ne-last a (x ∷ xs) n out = ground (arith, has-last_or x xs)

ne-head :
    (a : Ptr) (ps us : List Ptr) → a ≢ null → has a us ≡ true → Apart ps us → a ≢ head_or null ps
ne-head a [] us n i d e = n e
ne-head a (p ∷ ps) us n i d e = has-ne a p us i d.0 (sym e)

pub record Moved (h : Heap) (q : Queue) (p : Ptr) (ps : List Ptr) (u : Queue) (us : List Ptr)
    (g : Heap) (r t : Queue) : Type 0 where
  pub mid : Heap
  pub removes : rm_server_from_server_queue p (h, q) ≡ some (mid, r)
  pub adds : add_server_to_server_queue p (mid, u) ≡ some (g, t)
  pub type : r.queue_type ≡ q.queue_type
  pub pair : Pair g r ps t (us ++ p ∷ [])
  pub kept : (a : Ptr) → payload (g a) ≡ payload (h a)

pub move_first :
    {h : Heap} (q : Queue) (p : Ptr) (ps : List Ptr) (u : Queue) (us : List Ptr)
    → Pair h q (p ∷ ps) u us
    → (g : Heap) × (r : Queue) × (t : Queue) × Moved h q p ps u us g r t
move_first {h} q p ps u us v =
    let (mid, r, out) = rm_first q p ps v.from in
    let (s, held) =
      payload-some (mid p) v.from.queue.chain.0.cell
        (out.kept p ∙ ap payload v.from.queue.chain.0.holds) in
    let to =
      IsQueue-same us
        (λ a i.
          let n = Forward-ne h a us v.to.chain i in
          out.spared a (λ e. has-ne a p us i v.apart.0 (sym e)) (ne-head a ps us n i v.apart.1))
        v.to in
    let (g, t, into) = add-append u us held v.from.queue.chain.1 to v.apart.0 in
    (
      g,
      r,
      t,
      record {
        mid = mid;
        removes = out.runs;
        adds = into.runs;
        type = out.type;
        pair = record {
          from =
              IsDeque-same ps
                (λ a i.
                  let n = Forward-ne h a ps v.from.queue.chain.3 i in
                  into.spared a (λ e. has-ne a p ps i v.from.queue.chain.2 (sym e))
                    (ne-last a us n (Apart-has a ps us v.apart.1 i)))
                out.deque;
          to = into.queue;
          apart = Apart-snoc p ps us v.from.queue.chain.2 v.apart.1;
        };
        kept = λ a. into.kept a ∙ out.kept a;
      },
    )
