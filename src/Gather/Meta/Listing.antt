-- ===== src/Gather/Meta/Listing.antt =====
-- `gatherClearOldLocalMeta`: the servers that the meta server named become the target servers, and
-- the list and its query name exactly them.
use store_monitor.Common.{
  suc, ◌==◌, ◌≡◌, ◌≢◌, ◌⊎◌, inl, inr, refl, sym, subst, ap, ◌∙◌, arith, true, false, Option, none,
  some, List, [], ◌∷◌, Str, length, map, for_each, length-map, All, Bool-cases,
}
use store_monitor.Common.Hash.{UtHash, Entry, has_item, DistinctItems}
use store_monitor.Connection.Data.{Ptr}
use store_monitor.Action.Data.{Action}
use store_monitor.Action.DownList.Laws.{IsWellFormed, rm-IsWellFormed}
use store_monitor.Gather.Data.{TargetServer, GatherServerList, Analyzer, put}
use store_monitor.Gather.Meta.Members.{times, times_item}
use store_monitor.Gather.Meta.{query, drop_target, keys_of, rebuild}

-- The records at the addresses have the keys.
abbrev pub Named : (Ptr → Option TargetServer) → List Ptr → List Str → Type 0
Named h [] [] = Unit
Named h [] (k ∷ ks) = ⊥
Named h (p ∷ ps) [] = ⊥
Named h (p ∷ ps) (k ∷ ks) =
    ((s : TargetServer) × (h p ≡ some s) × (s.server_id_key ≡ k)) × Named h ps ks

-- The list has the length that is kept of it, its servers are on the heap, and the query asks for
-- their keys in the order of the list.
pub record IsListed (h : Ptr → Option TargetServer) (l : GatherServerList) : Type 0 where
  pub keys : List Str
  pub named : Named h l.nodes keys
  pub len : l.gather_server_list_len ≡ length l.nodes
  pub argv : l.query_argv ≡ query keys
  pub argc : l.query_argc ≡ length l.query_argv
  pub lengths : l.query_argv_len ≡ map length l.query_argv

-- The servers of a table are on the heap.
abbrev pub OnHeap : (Ptr → Option TargetServer) → List Entry → Type 0
OnHeap h es = All (λ e. (s : TargetServer) × (h e.1 ≡ some s)) es

pub OnHeap-same :
    (h g : Ptr → Option TargetServer) (es : List Entry)
    → ((p : Ptr) → has_item p es ≡ true → g p ≡ h p)
    → OnHeap h es
    → OnHeap g es
unfolding has_item
OnHeap-same h g [] same v = tt
OnHeap-same h g ((k, p) ∷ es) same v =
    ((v.0.0, same p (ground arith) ∙ v.0.1), OnHeap-same h g es (λ q i. same q (ground arith)) v.1)

module _ (H : UtHash) (split : Str → List Str) where
  keys_of-Named :
      (h : Ptr → Option TargetServer) (es : List Entry)
      → OnHeap h es
      → (ks : List Str) × (keys_of H split h es ≡ some ks)
        × Named h (map (λ e. e.1) es) ks
        × (length ks ≡ length es)
  unfolding keys_of
  keys_of-Named h [] v = ([], refl, tt, refl)
  keys_of-Named h ((k, p) ∷ es) v =
      let (ks, e, n, l) = keys_of-Named h es v.1 in
      rw (v.0.1, e) (v.0.0.server_id_key ∷ ks, refl, ((v.0.0, v.0.1, refl), n), ap suc l)

  -- What the loop over the old target servers leaves.
  pub record Dropped (es : List Entry) (a b : Analyzer H.Table) : Type 0 where
    pub spared : (q : Ptr) → has_item q es ≡ false → b.targets q ≡ a.targets q
    pub freed : (q : Ptr) → has_item q es ≡ true → b.targets q ≡ none
    pub tmp : b.target_server_map_tmp ≡ a.target_server_map_tmp
    pub fresh : b.fresh ≡ a.fresh
    pub flag :
        (es ≡ []) × (b.gather_server_list ≡ a.gather_server_list)
        ⊎ (b.gather_server_list.to_be_updated ≡ true)

  module _ (p : Ptr) (a : Analyzer H.Table) where
    -- The state after one old target server has been freed.
    abbrev without : Analyzer H.Table
    without = record a {
      gather_server_list = record (a.gather_server_list) { to_be_updated = true };
      target_server_map_cur = H.del p a.target_server_map_cur;
      targets = put a.targets p none;
    }

    without_ne : (q : Ptr) → (p == q) ≡ false → without.targets q ≡ a.targets q
    unfolding put
    without_ne q n = rw n refl

    without_eq : (q : Ptr) → (p == q) ≡ true → without.targets q ≡ none
    unfolding put
    without_eq q e = rw e refl

  Dropped-cons :
      (k : Str) (p : Ptr) (es : List Entry) (a b : Analyzer H.Table)
      → has_item p es ≡ false
      → Dropped es (without p a) b
      → Dropped ((k, p) ∷ es) a b
  unfolding has_item
  Dropped-cons k p es a b out d = record {
    freed = λ q i. elim (Bool-cases (p == q)) [
      | inl same ↦
          let e : p ≡ q = ground arith in
          d.spared q (subst (λ x. has_item x es ≡ false) e out) ∙ without_eq p a q same
      | inr other ↦ d.freed q (ground arith)
    ];
    spared = λ q out. d.spared q (ground arith) ∙ without_ne p a q (ground arith);
    tmp = d.tmp;
    fresh = d.fresh;
    flag = flagged d.flag;
  }
    where
      flagged :
          ((es ≡ []) × (b.gather_server_list ≡ (without p a).gather_server_list))
            ⊎ (b.gather_server_list.to_be_updated ≡ true)
          → ((((k, p) ∷ es) ≡ []) × (b.gather_server_list ≡ a.gather_server_list))
            ⊎ (b.gather_server_list.to_be_updated ≡ true)
      flagged (inl f) = inr (ap (λ l. l.to_be_updated) f.1)
      flagged (inr f) = inr f

  pub drop_all :
      (es : List Entry) (act : Action H.Table) (a : Analyzer H.Table)
      → IsWellFormed H split act
      → OnHeap a.targets es
      → DistinctItems es
      → (act' : Action H.Table) × (b : Analyzer H.Table) × (for_each
            (drop_target H split)
            es
            (act, a)
          ≡ some (act', b))
        × IsWellFormed H split act'
        × Dropped es a b
  unfolding for_each drop_target has_item
  drop_all [] act a wf v d = (
    act,
    a,
    refl,
    wf,
    record {
      spared = λ q h. refl;
      freed = λ q h. cc;
      tmp = refl;
      fresh = refl;
      flag = inl (refl, refl);
    },
  )
  drop_all ((k, p) ∷ es) act a wf v d =
      let (o, act1, rm, wf1) = rm-IsWellFormed H split v.0.0.server_id_key act wf in
      let (act2, b, runs, wf2, dropped) =
        drop_all es act1 (without p a) wf1
          (OnHeap-same a.targets (without p a).targets es
            (λ q i. without_ne p a q (ground (arith, apart q i))) v.1)
          d.1 in
      rw (v.0.1, rm, runs) (act2, b, refl, wf2, Dropped-cons k p es a b d.0 dropped)
    where
      apart : (q : Ptr) → has_item q es ≡ true → p ≢ q
      apart q i e =
          let f : true ≡ false = sym (subst (λ r. has_item r es ≡ true) (sym e) i) ∙ d.0 in cc

pub Named-same :
    (h g : Ptr → Option TargetServer) (ps : List Ptr) (ks : List Str)
    → ((q : Ptr) → g q ≡ h q)
    → Named h ps ks
    → Named g ps ks
Named-same h g [] [] same n = tt
Named-same h g [] (k ∷ ks) same n = n
Named-same h g (p ∷ ps) [] same n = n
Named-same h g (p ∷ ps) (k ∷ ks) same n =
    ((n.0.0, same p ∙ n.0.1, n.0.2), Named-same h g ps ks same n.1)

module _ (H : UtHash) (split : Str → List Str) where
  -- The new target servers are those that were named, with their records as they were; the old ones
  -- are freed; the list matches the heap and has each target server as often as the table, and in
  -- the same order unless nothing changed.
  pub record Cleared (a b : Analyzer H.Table) : Type 0 where
    pub cur : H.iter b.target_server_map_cur ≡ H.iter a.target_server_map_tmp
    pub tmp : H.iter b.target_server_map_tmp ≡ []
    pub fresh : b.fresh ≡ a.fresh
    pub spared :
        (p : Ptr) → has_item p (H.iter a.target_server_map_tmp) ≡ true → b.targets p ≡ a.targets p
    pub freed : (p : Ptr) → has_item p (H.iter a.target_server_map_cur) ≡ true → b.targets p ≡ none
    pub members :
        (q : Ptr)
        → times q b.gather_server_list.nodes ≡ times_item q (H.iter b.target_server_map_cur)
    pub listed : IsListed b.targets b.gather_server_list
    pub settled : b.gather_server_list.to_be_updated ≡ false
    pub nodes :
        ((H.iter a.target_server_map_cur ≡ []) × (b.gather_server_list ≡ a.gather_server_list))
        ⊎ (b.gather_server_list.nodes ≡ map (λ e. e.1) (H.iter b.target_server_map_cur))

  -- After the loop, with the tables exchanged.
  abbrev pub swapped : Analyzer H.Table → Analyzer H.Table
  swapped a = record a {
    target_server_map_cur = a.target_server_map_tmp;
    target_server_map_tmp = H.empty;
  }

  pub rebuild-Listed :
      (a : Analyzer H.Table)
      → OnHeap a.targets (H.iter a.target_server_map_cur)
      → (b : Analyzer H.Table) × (rebuild H split a ≡ some b)
        × IsListed a.targets b.gather_server_list
        × (b ≡ record a { gather_server_list = b.gather_server_list })
        × (b.gather_server_list.to_be_updated ≡ false)
        × (b.gather_server_list.nodes ≡ map (λ e. e.1) (H.iter a.target_server_map_cur))
  unfolding rebuild
  rebuild-Listed a v =
      let (ks, e, n, l) = keys_of-Named H split a.targets (H.iter a.target_server_map_cur) v in
      rw e (
        _,
        refl,
        record {
          keys = ks;
          named = n;
          len = sym (length-map (λ e. e.1) (H.iter a.target_server_map_cur));
          argv = refl;
          argc = omega (arith, l);
          lengths = refl;
        },
        refl,
        refl,
        refl,
      )
