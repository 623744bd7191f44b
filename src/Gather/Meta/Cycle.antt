-- ===== src/Gather/Meta/Cycle.antt =====
-- One update from the meta server: the names come in, then the old target servers go.
use store_monitor.Common.{
  ◌+◌, ◌≡◌, refl, sym, ap, ◌∙◌, Bool, true, subst, ◌||◌, str_eq, arith, false, Option, some, List,
  [], ◌∷◌, Str, All,
}
use store_monitor.Common.Hash.{UtHash, Entry, has_item, has_key, DistinctKeys}
use store_monitor.Connection.Data.{Ptr}
use store_monitor.Hiredis.{Element}
use store_monitor.Meta.{update_members}
use store_monitor.Action.Data.{Action}
use store_monitor.Action.DownList.Laws.{IsWellFormed}
use store_monitor.Gather.Data.{TargetServer, GatherServerList, Analyzer}
use store_monitor.Gather.Meta.{gather_update_local_meta_for_server, gather_clear_old_local_meta}
use store_monitor.Gather.Meta.Listing.{IsListed, Named-same, OnHeap}
use store_monitor.Gather.Meta.Clear.{clear-Cleared}
use store_monitor.Gather.Meta.Members.{times, times_item}
use store_monitor.Gather.Meta.Tracked.{Entered}
use store_monitor.Gather.Meta.Updates.{names, IsTracked, Names, members-Updated}

Entered-OnHeap :
    (h : Ptr → Option TargetServer) (n : Ptr) (es : List Entry) → All (Entered h n) es → OnHeap h es
Entered-OnHeap h n [] v = tt
Entered-OnHeap h n ((k, p) ∷ es) v = ((v.0.0, v.0.1), Entered-OnHeap h n es v.1)

IsListed-same :
    (h g : Ptr → Option TargetServer) (l m : GatherServerList)
    → m ≡ l
    → ((p : Ptr) → g p ≡ h p)
    → IsListed h l
    → IsListed g m
IsListed-same h g l m e same i = rw e (record {
  keys = i.keys;
  named = Named-same h g l.nodes i.keys same i.named;
  len = i.len;
  argv = i.argv;
  argc = i.argc;
  lengths = i.lengths;
})

Entered-same :
    (h g : Ptr → Option TargetServer) (n : Ptr) (es : List Entry)
    → ((p : Ptr) → has_item p es ≡ true → g p ≡ h p)
    → All (Entered h n) es
    → All (Entered g n) es
unfolding has_item
Entered-same h g n [] same v = tt
Entered-same h g n ((k, p) ∷ es) same v = (
  (v.0.0, same p (ground arith) ∙ v.0.1, v.0.2, v.0.3),
  Entered-same h g n es (λ q i. same q (ground arith)) v.1,
)

abbrev has_name : Str → List Str → Bool
has_name k [] = false
has_name k (j ∷ js) = str_eq j k || has_name k js

-- No name twice.
abbrev pub DistinctNames : List Str → Type 0
DistinctNames [] = Unit
DistinctNames (k ∷ ks) = (has_name k ks ≡ false) × DistinctNames ks

has_key-names : (k : Str) (es : List Entry) → has_key k es ≡ has_name k (names es)
unfolding has_key
has_key-names k [] = refl
has_key-names k ((j, p) ∷ es) = ap (◌||◌ (str_eq j k)) (has_key-names k es)

names-DistinctKeys : (es : List Entry) → DistinctNames (names es) → DistinctKeys es
names-DistinctKeys [] d = tt
names-DistinctKeys ((k, p) ∷ es) d = (has_key-names k es ∙ d.0, names-DistinctKeys es d.1)

no_more :
    (q : Ptr) (es fs : List Entry) → fs ≡ [] → times_item q es ≡ times_item q es + times_item q fs
unfolding times_item
no_more q es fs e = rw e (omega arith)

module _ (H : UtHash) (split : Str → List Str) where
  -- From well-formed tables, with nothing in the new one, and a list that matches the heap and has
  -- exactly the target servers, unless it is to be made anew: where the reply names `ks`, none twice,
  -- the loop of `updateLocalMeta` and `gatherClearOldLocalMeta` after it do not fault. Then the target
  -- servers are those with the keys `ks`, in order, the tables are well-formed with nothing in the new
  -- one, the list has each target server once and no other, it and its query match the heap, it does
  -- not wait for an update, and the list of down servers is well-formed, if it was before.
  pub cycle-IsListed :
      (es : List Element) (ks : List Str) (act : Action H.Table) (a : Analyzer H.Table)
      → Names H es ks
      → DistinctNames ks
      → IsWellFormed H split act
      → IsTracked H a
      → H.iter a.target_server_map_tmp ≡ []
      → (a.gather_server_list.to_be_updated ≡ false
          → IsListed a.targets a.gather_server_list
            × ((q : Ptr)
                → times q a.gather_server_list.nodes
                  ≡ times_item q (H.iter a.target_server_map_cur)))
      → (b : Analyzer H.Table) × (act' : Action H.Table) × (c : Analyzer H.Table) × (update_members
            (gather_update_local_meta_for_server H)
            (λ x. some x)
            es
            a
          ≡ some b)
        × (gather_clear_old_local_meta H split (act, b) ≡ some (act', c))
        × (names (H.iter c.target_server_map_cur) ≡ ks)
        × IsTracked H c
        × (H.iter c.target_server_map_tmp ≡ [])
        × IsListed c.targets c.gather_server_list
        × ((q : Ptr)
            → times q c.gather_server_list.nodes ≡ times_item q (H.iter c.target_server_map_cur))
        × (c.gather_server_list.to_be_updated ≡ false)
        × IsWellFormed H split act'
  unfolding has_item
  cycle-IsListed es ks act a n once wf v empty old =
      let (b, runs, u, ps, new, put) = members-Updated H es ks a n v in
      let (act', c, clears, wf', d) =
        clear-Cleared H split act b wf (Entered-OnHeap b.targets b.fresh _ u.tracked.cur)
          (Entered-OnHeap b.targets b.fresh _ u.tracked.tmp) u.tracked.distinct u.tracked.apart
          (λ h.
            let (l, m) = old (ap (λ x. x.to_be_updated) (sym (u.list h).0) ∙ h) in
            (
              IsListed-same a.targets b.targets a.gather_server_list b.gather_server_list
                  (u.list h).0 (u.list h).1 l,
              λ q.
                  ap (λ x. times q x.nodes) (u.list h).0
                  ∙ m q
                  ∙ no_more q (H.iter a.target_server_map_cur) (H.iter a.target_server_map_tmp)
                      empty
                  ∙ sym (u.members h q),
            )) in
      let named : names (H.iter c.target_server_map_cur) ≡ ks =
        ap names d.cur ∙ u.named ∙ rw empty refl in
      (
        b,
        act',
        c,
        runs,
        clears,
        named,
        record {
          keys = names-DistinctKeys _ (subst DistinctNames (sym named) once);
          cur =
              rw (d.cur, d.fresh)
                (Entered-same b.targets c.targets b.fresh _ d.spared u.tracked.tmp);
          tmp = rw d.tmp tt;
          distinct = rw d.cur u.tracked.distinct_tmp;
          distinct_tmp = rw d.tmp tt;
          apart = rw d.tmp (λ p i. absurd (let k : false ≡ true = i in cc));
        },
        d.tmp,
        d.listed,
        d.members,
        d.settled,
        wf',
      )
