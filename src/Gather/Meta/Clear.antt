-- ===== src/Gather/Meta/Clear.antt =====
-- `gatherClearOldLocalMeta` as a whole.
use store_monitor.Common.{
  ◌+◌, arith, ◌>>=◌, if◌then◌else◌, ◌≡◌, ◌⊎◌, inl, inr, refl, sym, subst, ap, ◌∙◌, Bool, true,
  false, Bool-cases, Option, some, List, [], Str, map,
}
use store_monitor.Common.Hash.{UtHash, has_item, DistinctItems}
use store_monitor.Connection.Data.{Ptr}
use store_monitor.Action.Data.{Action}
use store_monitor.Action.DownList.Laws.{IsWellFormed}
use store_monitor.Gather.Data.{GatherServerList, Analyzer}
use store_monitor.Gather.Meta.Members.{times, times_item, times-map}
use store_monitor.Gather.Meta.{rebuild, gather_clear_old_local_meta}
use store_monitor.Gather.Meta.Listing.{
  Named-same, IsListed, OnHeap, OnHeap-same, Dropped, drop_all, Cleared, swapped, rebuild-Listed,
}

if_true : {A : Type 0} (b : Bool) (x y : A) → b ≡ true → (if b then x else y) ≡ x
if_true b x y e = rw e refl

if_false : {A : Type 0} (b : Bool) (x y : A) → b ≡ false → (if b then x else y) ≡ y
if_false b x y e = rw e refl

module _ (H : UtHash) (split : Str → List Str) where
  -- The list has the servers of both tables, each as often as they have it.
  abbrev pub Holds : Analyzer H.Table → Type 0
  Holds a =
      (q : Ptr)
      → times q a.gather_server_list.nodes
        ≡ times_item q (H.iter a.target_server_map_cur)
          + times_item q (H.iter a.target_server_map_tmp)

  -- The rest of the function.
  abbrev renewed : Action H.Table → Analyzer H.Table → Option (Action H.Table × Analyzer H.Table)
  renewed act m =
      if m.gather_server_list.to_be_updated
      then (do c ← rebuild H split (swapped H split m); some (act, c))
      else some (act, swapped H split m)

  -- The loop has freed nothing, or the list is to be made anew.
  finish :
      (act : Action H.Table) (a m : Analyzer H.Table)
      → Dropped H split (H.iter a.target_server_map_cur) a m
      → OnHeap a.targets (H.iter a.target_server_map_tmp)
      → ((p : Ptr) → has_item p (H.iter a.target_server_map_tmp) ≡ true → m.targets p ≡ a.targets p)
      → (a.gather_server_list.to_be_updated ≡ false
          → IsListed a.targets a.gather_server_list × Holds a)
      → (b : Analyzer H.Table) × (renewed act m ≡ some (act, b)) × Cleared H split a b
  unfolding has_item
  finish act a m d v kept old = elim (Bool-cases m.gather_server_list.to_be_updated) [
    | inl stale ↦
        let (b, runs, listed, eq, fresh, nodes) =
          rebuild-Listed H split (swapped H split m)
            (rw d.tmp (OnHeap-same a.targets m.targets _ kept v)) in
        (
          b,
          if_true _ _ _ stale ∙ ap (λ o. o >>= λ c. some (act, c)) runs,
          record {
            cur = ap (λ c. H.iter c.target_server_map_cur) eq ∙ ap H.iter d.tmp;
            tmp = ap (λ c. H.iter c.target_server_map_tmp) eq ∙ H.iter-empty;
            fresh = ap (λ c. c.fresh) eq ∙ d.fresh;
            spared = λ p i. ap (λ c. c.targets p) eq ∙ kept p i;
            freed = λ p i. ap (λ c. c.targets p) eq ∙ d.freed p i;
            members = λ q.
                ap (times q)
                  (nodes ∙ ap (λ c. map (λ e. e.1) (H.iter c.target_server_map_cur)) (sym eq))
                ∙ times-map q (H.iter b.target_server_map_cur);
            listed =
                subst (λ h. IsListed h b.gather_server_list) (sym (ap (λ c. c.targets) eq)) listed;
            settled = fresh;
            nodes =
                inr (nodes ∙ ap (λ c. map (λ e. e.1) (H.iter c.target_server_map_cur)) (sym eq));
          },
        )
    | inr settled ↦ (swapped H split m, if_false _ _ _ settled, unchanged settled d.flag)
  ]
    where
      same_list :
          (l : GatherServerList)
          → ((q : Ptr) → m.targets q ≡ a.targets q)
          → IsListed a.targets l
          → IsListed m.targets l
      same_list l same i = record {
        keys = i.keys;
        named = Named-same a.targets m.targets l.nodes i.keys same i.named;
        len = i.len;
        argv = i.argv;
        argc = i.argc;
        lengths = i.lengths;
      }

      unchanged :
          m.gather_server_list.to_be_updated ≡ false
          → ((H.iter a.target_server_map_cur ≡ []) × (m.gather_server_list ≡ a.gather_server_list))
            ⊎ (m.gather_server_list.to_be_updated ≡ true)
          → Cleared H split a (swapped H split m)
      unchanged s (inr f) = absurd (let g : true ≡ false = sym f ∙ s in cc)
      unchanged s (inl f) = record {
        cur = ap H.iter d.tmp;
        tmp = H.iter-empty;
        fresh = d.fresh;
        spared = kept;
        freed = d.freed;
        members = λ q.
            ap (λ l. times q l.nodes) f.1
            ∙ (old (ap (λ l. l.to_be_updated) (sym f.1) ∙ s)).1 q
            ∙ ap (λ es. times_item q es + times_item q (H.iter a.target_server_map_tmp)) f.0
            ∙ unfold times_item in rw d.tmp (omega arith);
        listed = rw f.1 (
            same_list a.gather_server_list (λ q. d.spared q (rw f.0 refl))
              (old (ap (λ l. l.to_be_updated) (sym f.1) ∙ s)).0);
        settled = s;
        nodes = inl f;
      }

  -- Where the servers of both tables are on the heap, none of the old ones twice and none in both
  -- tables, and the list, unless it is to be made anew, matches the heap and has the servers of both
  -- tables, `gatherClearOldLocalMeta` does not fault. It frees the old target servers and keeps the
  -- records of those that the meta server named, which become the target servers, and it leaves a
  -- list of exactly these servers: its length and the query are those of the servers in it. The list
  -- of down servers stays well-formed.
  pub clear-Cleared :
      (act : Action H.Table) (a : Analyzer H.Table)
      → IsWellFormed H split act
      → OnHeap a.targets (H.iter a.target_server_map_cur)
      → OnHeap a.targets (H.iter a.target_server_map_tmp)
      → DistinctItems (H.iter a.target_server_map_cur)
      → ((p : Ptr)
          → has_item p (H.iter a.target_server_map_tmp) ≡ true
          → has_item p (H.iter a.target_server_map_cur) ≡ false)
      → (a.gather_server_list.to_be_updated ≡ false
          → IsListed a.targets a.gather_server_list × Holds a)
      → (act' : Action H.Table) × (b : Analyzer H.Table) × (gather_clear_old_local_meta H split
            (act, a)
          ≡ some (act', b))
        × IsWellFormed H split act'
        × Cleared H split a b
  unfolding gather_clear_old_local_meta
  clear-Cleared act a wf v w d apart old =
      let (act', m, runs, wf', dropped) =
        drop_all H split (H.iter a.target_server_map_cur) act a wf v d in
      let (b, e, c) = finish act' a m dropped w (λ p i. dropped.spared p (apart p i)) old in
      rw runs (act', b, e, wf', c)
