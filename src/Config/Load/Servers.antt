-- ===== src/Config/Load/Servers.antt =====
-- The servers that are declared, in the queue of unconnected servers.
use store_monitor.Common.{
  suc, ◌<◌, ◌≡◌, ◌≢◌, refl, sym, ap, ◌∙◌, arith, true, false, none, some, List, [], ◌∷◌, ◌++◌,
  append_assoc, append-nil, subst, bind-some, codes, atoi, to_u16, All,
}
use store_monitor.Connection.Data.{
  Server, ServerRole, connect, process_none, down, Ptr, null, Heap, write, write_eq, write_ne,
}
use store_monitor.Connection.Queue.{modify}
use store_monitor.Connection.Queue.Links.{has, IsQueue}
use store_monitor.Connection.Queue.Append.{payload, add-append}
use store_monitor.Connection.Queue.Move.{IsQueue-same}
use store_monitor.Connection.Pool.{id_key, create_server_info, update, add_to, queue_of, with_queue}
use store_monitor.Config.Load.{Loading, Declared, add_declared, add_all}

-- The record of a declared server, but for its links.
pub declared_server : Declared → Server
declared_server d = record {
  server_id_key = id_key d.ip (to_u16 (atoi d.port)) (codes "redis");
  ip = d.ip;
  port = to_u16 (atoi d.port);
  type = codes "redis";
  connection_state = connect;
  engine = none;
  process_timeout_fn = none;
  server_role = d.role;
  queue_id = d.queue_id;
  can_write = d.can_write;
  next = null;
  prev = null;
  connection_context = null;
  rw_timer_active = false;
  server_alive_state = down;
  process_state = process_none;
  priv_data = none;
}

-- At the addresses stand the declared servers, in the order of their lines.
abbrev pub AllDeclared : Heap → List Ptr → List Declared → Type 0
AllDeclared h [] [] = Unit
AllDeclared h [] (d ∷ ds) = ⊥
AllDeclared h (p ∷ ps) [] = ⊥
AllDeclared h (p ∷ ps) (d ∷ ds) = (payload (h p) ≡ some (declared_server d)) × AllDeclared h ps ds

pub record IsQueued (st : Loading) (ps : List Ptr) (ds : List Declared) : Type 0 where
  pub queue : IsQueue st.pool.heap st.pool.unconnected_server_queue ps
  pub declared : AllDeclared st.pool.heap ps ds
  pub below : All (λ p. p < st.fresh) ps
  pub some_fresh : 0 < st.fresh

pub AllDeclared-snoc :
    (h g : Heap) (p : Ptr) (d : Declared) (ps : List Ptr) (ds : List Declared)
    → ((a : Ptr) → has a ps ≡ true → payload (g a) ≡ payload (h a))
    → payload (g p) ≡ some (declared_server d)
    → AllDeclared h ps ds
    → AllDeclared g (ps ++ p ∷ []) (ds ++ d ∷ [])
AllDeclared-snoc h g p d [] [] same at v = (at, tt)
AllDeclared-snoc h g p d [] (e ∷ ds) same at v = absurd v
AllDeclared-snoc h g p d (q ∷ ps) [] same at v = absurd v
AllDeclared-snoc h g p d (q ∷ ps) (e ∷ ds) same at v = (
  same q (ground arith) ∙ v.0,
  AllDeclared-snoc h g p d ps ds (λ a i. same a (ground arith)) at v.1,
)

pub below-ne : (n a : Ptr) (ps : List Ptr) → All (λ p. p < n) ps → has a ps ≡ true → n ≢ a
below-ne n a [] v i = cc
below-ne n a (p ∷ ps) v i = ground (arith, v.0, below-ne n a ps v.1)

pub below-has : (n : Ptr) (ps : List Ptr) → All (λ p. p < n) ps → has n ps ≡ false
below-has n [] v = refl
below-has n (p ∷ ps) v = ground (arith, v.0, below-has n ps v.1)

pub below-snoc :
    (n : Ptr) (ps : List Ptr) → All (λ p. p < n) ps → All (λ p. p < suc n) (ps ++ n ∷ [])
below-snoc n [] v = (omega arith, tt)
below-snoc n (p ∷ ps) v = (omega (arith, v.0), below-snoc n ps v.1)

pub add_declared-Queued :
    (d : Declared) (st : Loading) (ps : List Ptr) (ds : List Declared)
    → IsQueued st ps ds
    → (st' : Loading) × (add_declared d st ≡ some st')
      × IsQueued st' (ps ++ st.fresh ∷ []) (ds ++ d ∷ [])
unfolding add_declared create_server_info update add_to queue_of with_queue modify declared_server
add_declared-Queued d st ps ds v =
    let f = st.fresh in
    let n : f ≢ null = λ e. omega (arith, v.some_fresh) in
    let h1 = write st.pool.heap f (
      some (record (declared_server d) {
        server_role = ServerRole.meta;
        queue_id = 0;
        can_write = false;
      })) in
    let h2 = write h1 f (some (declared_server d)) in
    let others : (a : Ptr) → has a ps ≡ true → h2 a ≡ st.pool.heap a = λ a i.
      let m = below-ne f a ps v.below i in write_ne h1 f a _ m ∙ write_ne st.pool.heap f a _ m in
    let (g, r, a) =
      add-append st.pool.unconnected_server_queue ps (write_eq h1 f (some (declared_server d))) n
        (IsQueue-same ps others v.queue) (below-has f ps v.below) in
    (
      record st {
        pool = record (st.pool) { heap = g; unconnected_server_queue = r };
        fresh = suc f;
      },
      rw (add_declared, update, modify, write_eq st.pool.heap f, add_to, a.runs) refl,
      record {
        queue = a.queue;
        declared =
            AllDeclared-snoc st.pool.heap g f d ps ds (λ b i. a.kept b ∙ ap payload (others b i))
              (a.kept f ∙ ap payload (write_eq h1 f (some (declared_server d)))) v.declared;
        below = below-snoc f ps v.below;
        some_fresh = omega arith;
      },
    )

pub add_all-Queued :
    (es : List Declared) (st : Loading) (ps : List Ptr) (ds : List Declared)
    → IsQueued st ps ds
    → (st' : Loading) × (qs : List Ptr) × (add_all es st ≡ some st') × IsQueued st' qs (ds ++ es)
unfolding add_all
add_all-Queued [] st ps ds v = (st, ps, refl, subst (IsQueued st ps) (sym (append-nil ds)) v)
add_all-Queued (e ∷ es) st ps ds v =
    let (st1, runs1, v1) = add_declared-Queued e st ps ds v in
    let (st2, qs, runs2, v2) = add_all-Queued es st1 (ps ++ st.fresh ∷ []) (ds ++ e ∷ []) v1 in
    (
      st2,
      qs,
      bind-some (add_declared e st) st1 (add_all es) runs1 ∙ runs2,
      subst (IsQueued st2 qs) (append_assoc ds (e ∷ []) es) v2,
    )
