-- ===== src/Connection/Queue/Links.antt =====
-- What a queue on the heap stands for: the addresses of its servers, first to last.
use store_monitor.Common.{
  ◌≡◌, ◌≢◌, Bool, false, true, ◌||◌, ◌==◌, some, List, [], ◌∷◌, arith, head_or, last_or,
}
use store_monitor.Connection.Data.{Server, Ptr, null, Heap, Queue}

-- `h` holds a server at `p`, whose link in the given direction is `q`.
pub record Next (h : Heap) (p q : Ptr) : Type 0 where
  pub cell : Server
  pub holds : h p ≡ some cell
  pub link : cell.next ≡ q

pub record Prev (h : Heap) (p q : Ptr) : Type 0 where
  pub cell : Server
  pub holds : h p ≡ some cell
  pub link : cell.prev ≡ q

abbrev pub has : Ptr → List Ptr → Bool
has a [] = false
has a (p ∷ ps) = (a == p) || has a ps

-- From each server `next` leads to the one behind it, and from the last to NULL; the addresses are
-- distinct and none is NULL.
abbrev pub Forward : Heap → List Ptr → Type 0
Forward h [] = Unit
Forward h (p ∷ ps) = Next h p (head_or null ps) × (p ≢ null) × (has p ps ≡ false) × Forward h ps

-- From each server `prev` leads to the one before it, and from the first to `b`.
abbrev pub Backward : Heap → Ptr → List Ptr → Type 0
Backward h b [] = Unit
Backward h b (p ∷ ps) = Prev h p b × Backward h p ps

-- What all queues keep: `head` and `next` lead through the servers, `tail` is the last.
pub record IsQueue (h : Heap) (q : Queue) (ps : List Ptr) : Type 0 where
  pub first : q.head ≡ head_or null ps
  pub last : q.tail ≡ last_or null ps
  pub chain : Forward h ps

-- What the queues of store and meta servers keep too, from which servers are removed in place.
pub record IsDeque (h : Heap) (q : Queue) (ps : List Ptr) : Type 0 where
  pub queue : IsQueue h q ps
  pub back : Backward h null ps

pub has-last_or : (p : Ptr) (ps : List Ptr) → has (last_or p ps) (p ∷ ps) ≡ true
has-last_or p [] = ground arith
has-last_or p (q ∷ qs) = ground (arith, has-last_or q qs)

-- The two heaps agree on the servers of the list.
abbrev pub Agree : Heap → Heap → List Ptr → Type 0
Agree h g ps = (a : Ptr) → has a ps ≡ true → g a ≡ h a

pub Agree-tail : {h g : Heap} (p : Ptr) (ps : List Ptr) → Agree h g (p ∷ ps) → Agree h g ps
Agree-tail p ps same a i = same a (ground arith)

module _ {h g : Heap} {p q : Ptr} (e : g p ≡ h p) where
  pub Next-same : Next h p q → Next g p q
  Next-same n = record { cell = n.cell; holds = rw e n.holds; link = n.link }

  pub Prev-same : Prev h p q → Prev g p q
  Prev-same n = record { cell = n.cell; holds = rw e n.holds; link = n.link }

pub Forward-same : {h g : Heap} (ps : List Ptr) → Agree h g ps → Forward h ps → Forward g ps
Forward-same [] same f = tt
Forward-same (p ∷ ps) same f =
    (Next-same (same p (ground arith)) f.0, f.1, f.2, Forward-same ps (Agree-tail p ps same) f.3)

pub Backward-same :
    {h g : Heap} (b : Ptr) (ps : List Ptr) → Agree h g ps → Backward h b ps → Backward g b ps
Backward-same b [] same f = tt
Backward-same b (p ∷ ps) same f =
    (Prev-same (same p (ground arith)) f.0, Backward-same p ps (Agree-tail p ps same) f.1)
