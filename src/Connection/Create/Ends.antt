-- ===== src/Connection/Create/Ends.antt =====
-- What one server's repair does to the heap: it changes that server's record only.
pub mod Loop
use store_monitor.Common.{
  ℕ, zero, suc, ◌==◌, ◌>>=◌, ◌≡◌, ◌≢◌, ◌⊎◌, inl, inr, refl, sym, subst, ◌∙◌, arith, Bool, true,
  false, Bool-cases, Option-cases, if◌then◌else◌, Option, none, some, List, [], ◌∷◌, ◌++◌, Str,
}
use store_monitor.Common.Hash.{UtHash}
use store_monitor.Connection.Data.{
  Server, Ptr, null, Heap, Queue, Pool, unconnected_servers, write, write_eq, write_ne,
}
use store_monitor.Connection.Queue.{modify}
use store_monitor.Connection.Pool.{update, destroy_server_info}
use store_monitor.Connection.Create.{
  CreateFn, TypeTable, find_engine, connect_with, create_connection_for_server,
}

-- Only the record at `p` differs, and the unconnected queue's ends are as they were.
pub record Only (p : Ptr) (c d : Pool) : Type 0 where
  pub spared : (a : Ptr) → a ≢ p → d.heap a ≡ c.heap a
  pub queue : d.unconnected_server_queue ≡ c.unconnected_server_queue

Only-refl : (p : Ptr) (c : Pool) → Only p c c
Only-refl p c = record { spared = λ a n. refl; queue = refl }

Only-trans : (p : Ptr) (c d e : Pool) → Only p c d → Only p d e → Only p c e
Only-trans p c d e f g = record {
  spared = λ a n. g.spared a n ∙ f.spared a n;
  queue = g.queue ∙ f.queue;
}

-- The record at `p` is there.
abbrev pub Live : Pool → Ptr → Type 0
Live c p = (s : Server) × (c.heap p ≡ some s)

pub update-Only :
    (p : Ptr) (f : Server → Server) (c : Pool)
    → Live c p
    → (d : Pool) × (update p f c ≡ some d) × Only p c d × Live d p
unfolding update modify
update-Only p f c (s, held) =
    rw (held, update, modify)
      (
        record c { heap = write c.heap p (some (f s)) },
        refl,
        record { spared = λ a n. write_ne c.heap p a _ (λ e. n (sym e)); queue = refl },
        (f s, write_eq c.heap p _),
      )

pub destroy-Only :
    (p : Ptr) (c : Pool) → Live c p → (d : Pool) × (destroy_server_info p c ≡ some d) × Only p c d
unfolding destroy_server_info
destroy-Only p c (s, held) = rw held (
  record c { heap = write c.heap p none },
  refl,
  record { spared = λ a n. write_ne c.heap p a _ (λ e. n (sym e)); queue = refl },
)

module _ (create : CreateFn) (H : UtHash) where
  connect_with-Only :
      (e p : Ptr) (c : Pool)
      → Live c p
      → (done : Bool) × (d : Pool) × (connect_with H create e p c ≡ some (done, d))
        × Only p c d
        × Live d p
  unfolding connect_with
  connect_with-Only e p c (s, held) =
      let (d, runs, o, l) =
        update-Only p (λ t. record t { connection_context = (create e s).1 }) c (s, held) in
      rw (held, runs) ((create e s).0, d, refl, o, l)

  -- The rest of the function for a server without an engine.
  abbrev with_engine : Ptr → Pool → Option Ptr → Option (Bool × Pool)
  with_engine p c none = some (false, c)
  with_engine p c (some e) = do
    c ← update p (λ s. record s { engine = some e }) c
    connect_with H create e p c

  with_engine-Only :
      (p : Ptr) (c : Pool) (o : Option Ptr)
      → Live c p
      → (done : Bool) × (d : Pool) × (with_engine p c o ≡ some (done, d)) × Only p c d × Live d p
  with_engine-Only p c none l = (false, c, refl, Only-refl p c, l)
  with_engine-Only p c (some e) l =
      let (d, runs, o, l) = update-Only p (λ s. record s { engine = some e }) c l in
      let (done, u, runs', o', l') = connect_with-Only e p d l in
      rw (runs, runs') (done, u, refl, Only-trans p c d u o o', l')

  module _ (t : TypeTable H.Table) where
    -- The table's entries are on their heap.
    abbrev pub Loaded : Type 0
    Loaded = (type : Str) → (o : Option Ptr) × (find_engine H t type ≡ some o)

    pub create-Only :
        (p : Ptr) (c : Pool)
        → Loaded
        → Live c p
        → (done : Bool) × (d : Pool) × (create_connection_for_server H create t p c
            ≡ some (done, d))
          × Only p c d
          × Live d p
    unfolding create_connection_for_server
    create-Only p c loaded (s, held) = rw held (elim (Option-cases s.engine) [
      | inr (e, set) ↦ rw set (connect_with-Only e p c (s, held))
      | inl unset ↦ rw (unset, (loaded s.type).1) (with_engine-Only p c (loaded s.type).0 (s, held))
    ])
