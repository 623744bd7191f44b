-- ===== src/Gather/Meta/Updates.antt =====
-- The members of the meta server's list, one after the other.
use store_monitor.Common.{
  ◌+◌, subst, Bool-cases, ℕ, suc, ◌<◌, ◌≡◌, inl, inr, refl, sym, ap, ◌∙◌, arith, true, false,
  Option-cases, some, List, [], ◌∷◌, ◌++◌, Str, map, All, All-append, append_assoc, append-nil,
}
use store_monitor.Common.Hash.{
  UtHash, Entry, lookup, has_item, drop_item, DistinctItems, DistinctKeys,
}
use store_monitor.Common.Hash.Laws.{lookup-has_item, has_item-drop_item, DistinctKeys-drop_item}
use store_monitor.Connection.Data.{Ptr}
use store_monitor.Hiredis.{Element}
use store_monitor.Meta.{update_members}
use store_monitor.Gather.Data.{TargetServer, Analyzer, put}
use store_monitor.Gather.Meta.{gather_update_local_meta_for_server}
use store_monitor.Gather.Meta.Members.{
  times_item, times_item-snoc, times_item-drop, Placed, all_placed, keeps, allocates,
}
use store_monitor.Gather.Meta.Tracked.{
  Entered, Entered-put, All-drop_item, DistinctItems-drop_item, DistinctItems-snoc, dropped,
  found_entry, below, has_item-snoc_inv,
}

abbrev pub names : List Entry → List Str
names es = map (λ e. e.0) es

names-snoc : (k : Str) (p : ℕ) (es : List Entry) → names (es ++ (k, p) ∷ []) ≡ names es ++ k ∷ []
names-snoc k p [] = refl
names-snoc k p (e ∷ es) = ap (◌∷◌ (e.0)) (names-snoc k p es)

module _ (H : UtHash) where
  open H use {Table, find_str, del, add_keyptr, iter, iter-add, iter-del, find-iter}

  -- Every server of either table is on the heap under its key; neither table has a server twice, the
  -- current one has no key twice, and no server is in both.
  pub record IsTracked (a : Analyzer Table) : Type 0 where
    pub keys : DistinctKeys (iter a.target_server_map_cur)
    pub cur : All (Entered a.targets a.fresh) (iter a.target_server_map_cur)
    pub tmp : All (Entered a.targets a.fresh) (iter a.target_server_map_tmp)
    pub distinct : DistinctItems (iter a.target_server_map_cur)
    pub distinct_tmp : DistinctItems (iter a.target_server_map_tmp)
    pub apart :
        (p : Ptr)
        → has_item p (iter a.target_server_map_tmp) ≡ true
        → has_item p (iter a.target_server_map_cur) ≡ false

  -- The names were added to the new table in order, and the records that were there are as they were.
  pub record Updated (ks : List Str) (a b : Analyzer Table) : Type 0 where
    pub tracked : IsTracked b
    pub named : names (iter b.target_server_map_tmp) ≡ names (iter a.target_server_map_tmp) ++ ks
    pub spared : (p : Ptr) → p < a.fresh → b.targets p ≡ a.targets p
    pub grows : (p : Ptr) → p < a.fresh → p < b.fresh
    pub list :
        b.gather_server_list.to_be_updated ≡ false
        → (b.gather_server_list ≡ a.gather_server_list) × ((p : Ptr) → b.targets p ≡ a.targets p)
    pub members :
        b.gather_server_list.to_be_updated ≡ false
        → (q : Ptr)
        → times_item q (iter b.target_server_map_cur) + times_item q (iter b.target_server_map_tmp)
          ≡ times_item q (iter a.target_server_map_cur)
            + times_item q (iter a.target_server_map_tmp)

  module _ (key : Str) (a : Analyzer Table) (v : IsTracked a) where
    -- The server moves from the current table to the new one.
    abbrev carried : Ptr → Analyzer Table
    carried p = record a {
      target_server_map_cur = del p a.target_server_map_cur;
      target_server_map_tmp = add_keyptr key p a.target_server_map_tmp;
    }

    carried-Updated :
        (p : Ptr)
        → lookup key (iter a.target_server_map_cur) ≡ some p
        → Updated (key ∷ []) a (carried p)
    carried-Updated p found = record {
      tracked = record {
        keys = rw iter-del (DistinctKeys-drop_item p _ v.keys);
        cur = rw iter-del (All-drop_item _ p _ v.cur);
        tmp = rw iter-add (All-append _ _ _ v.tmp (found_entry _ key p _ v.cur found, tt));
        distinct = rw iter-del (DistinctItems-drop_item p _ v.distinct);
        distinct_tmp = rw iter-add (DistinctItems-snoc key p _ v.distinct_tmp not_in_new);
        apart = λ q. rw (iter-add, iter-del) (out q);
      };
      named = rw iter-add (names-snoc key p _);
      spared = λ q lt. refl;
      grows = λ q lt. lt;
      list = λ h. (refl, λ p. refl);
      members = λ h q.
          rw (iter-add, iter-del)
            (omega (
              arith,
              times_item-snoc q key p (iter a.target_server_map_tmp),
              times_item-drop q p (iter a.target_server_map_cur) v.distinct
                  (lookup-has_item key p _ found),
            ));
    }
      where
        not_in_new : has_item p (iter a.target_server_map_tmp) ≡ false
        not_in_new = elim (Bool-cases (has_item p (iter a.target_server_map_tmp))) [
          | inl both ↦
              absurd
                (let e : true ≡ false = sym (lookup-has_item key p _ found) ∙ v.apart p both in cc)
          | inr out ↦ out
        ]

        out :
            (q : Ptr)
            → has_item q (iter a.target_server_map_tmp ++ (key, p) ∷ []) ≡ true
            → has_item q (drop_item p (iter a.target_server_map_cur)) ≡ false
        out q i = elim (has_item-snoc_inv q p key _ i) [
          | inl old ↦ has_item-drop_item q p _ (v.apart q old)
          | inr same ↦ rw same (dropped p _)
        ]

    abbrev new_target : TargetServer
    new_target = record {
      server_id_key = key;
      gather_seq_id = 0;
      fail_count = 0;
      server_in_down_list = false;
    }

    -- A server that was not a target before.
    abbrev enrolled : Analyzer Table
    enrolled = record a {
      gather_server_list = record (a.gather_server_list) { to_be_updated = true };
      targets = put a.targets a.fresh (some new_target);
      fresh = suc a.fresh;
      target_server_map_tmp = add_keyptr key a.fresh a.target_server_map_tmp;
    }

    enrolled-Updated : Updated (key ∷ []) a enrolled
    unfolding put
    enrolled-Updated = record {
      tracked = record {
        keys = v.keys;
        cur = Entered-put a.targets a.fresh new_target _ v.cur;
        tmp = rw iter-add (
            All-append _ _ _ (Entered-put a.targets a.fresh new_target _ v.tmp)
              ((new_target, ground arith, refl, omega arith), tt));
        distinct = v.distinct;
        distinct_tmp =
            rw iter-add
              (DistinctItems-snoc key a.fresh _ v.distinct_tmp (below a.targets a.fresh _ v.tmp));
        apart = λ q. rw iter-add (out q);
      };
      named = rw iter-add (names-snoc key a.fresh _);
      spared = λ q lt. ground arith;
      grows = λ q lt. omega arith;
      list = λ h. absurd (let k : true ≡ false = h in cc);
      members = λ h. absurd (let k : true ≡ false = h in cc);
    }
      where
        out :
            (q : Ptr)
            → has_item q (iter a.target_server_map_tmp ++ (key, a.fresh) ∷ []) ≡ true
            → has_item q (iter a.target_server_map_cur) ≡ false
        out q i = elim (has_item-snoc_inv q a.fresh key _ i) [
          | inl old ↦ v.apart q old
          | inr same ↦ rw same (below a.targets a.fresh _ v.cur)
        ]

    -- The name is put, and the rest can be put after it.
    Put : Analyzer Table → Type 0
    Put b =
        (p : Ptr) × (iter b.target_server_map_tmp ≡ iter a.target_server_map_tmp ++ (key, p) ∷ [])
        × ((ks : List Str) (es : List Entry)
            → Placed (iter b.target_server_map_cur) b.fresh ks es
            → Placed (iter a.target_server_map_cur) a.fresh (key ∷ ks) ((key, p) ∷ es))

    one_name :
        (b : Analyzer Table) × (gather_update_local_meta_for_server H key a ≡ some b)
        × Updated (key ∷ []) a b
        × Put b
    unfolding gather_update_local_meta_for_server Put
    one_name = elim (Option-cases (find_str key a.target_server_map_cur)) [
      | inl out ↦
          rw (out, gather_update_local_meta_for_server)
            (
              enrolled,
              refl,
              enrolled-Updated,
              (
                a.fresh,
                iter-add key a.fresh a.target_server_map_tmp,
                λ ks es m. allocates (sym (find-iter key a.target_server_map_cur v.keys) ∙ out) m,
              ),
            )
      | inr (p, e) ↦
          let found : lookup key (iter a.target_server_map_cur) ≡ some p =
            sym (find-iter key a.target_server_map_cur v.keys) ∙ e in
          let (s, held, same, lt) = found_entry _ key p _ v.cur found in
          rw (e, gather_update_local_meta_for_server, held, same)
            (
              carried p,
              refl,
              carried-Updated p found,
              (
                p,
                iter-add key p a.target_server_map_tmp,
                λ ks es m.
                    keeps found
                      (subst (λ c. Placed c a.fresh ks es) (iter-del p a.target_server_map_cur) m),
              ),
            )
    ]

  Updated-trans :
      (ks ls : List Str) (a b c : Analyzer Table)
      → Updated ks a b
      → Updated ls b c
      → Updated (ks ++ ls) a c
  Updated-trans ks ls a b c f g = record {
    tracked = g.tracked;
    named = g.named ∙ rw f.named (append_assoc (names (iter a.target_server_map_tmp)) ks ls);
    spared = λ p lt. g.spared p (f.grows p lt) ∙ f.spared p lt;
    grows = λ p lt. g.grows p (f.grows p lt);
    list = λ h.
        let (l, t) = g.list h in
        let (m, u) = f.list (ap (λ x. x.to_be_updated) (sym l) ∙ h) in (l ∙ m, λ p. t p ∙ u p);
    members = λ h q. g.members h q ∙ f.members (ap (λ x. x.to_be_updated) (sym (g.list h).0) ∙ h) q;
  }

  -- The members that a reply names.
  abbrev pub Names : List Element → List Str → Type 0
  Names [] [] = Unit
  Names [] (k ∷ ks) = ⊥
  Names (e ∷ es) [] = ⊥
  Names (e ∷ es) (k ∷ ks) = (e.str ≡ some k) × Names es ks

  -- For a reply whose elements are the texts `ks`, on well-formed tables, the loop of
  -- `updateLocalMeta` does not fault and adds exactly these names, in order, to the new table: a
  -- server that was a target before is moved there from the current table at its address, and any
  -- other gets a fresh one. The records of the servers that were targets before stay as they are, and
  -- the tables stay well-formed: every server of either is on the heap under its key, neither has a
  -- server twice, the current one has no key twice, and no server is in both.
  pub members-Updated :
      (es : List Element) (ks : List Str) (a : Analyzer Table)
      → Names es ks
      → IsTracked a
      → (b : Analyzer Table) × (update_members
            (gather_update_local_meta_for_server H)
            (λ c. some c)
            es
            a
          ≡ some b)
        × Updated ks a b
        × (ps : List Entry) × (iter b.target_server_map_tmp ≡ iter a.target_server_map_tmp ++ ps)
        × Placed (iter a.target_server_map_cur) a.fresh ks ps
  unfolding update_members Put
  members-Updated [] [] a n v = (
    a,
    refl,
    record {
      tracked = v;
      named = rw append-nil refl;
      spared = λ p lt. refl;
      grows = λ p lt. lt;
      list = λ h. (refl, λ p. refl);
      members = λ h q. refl;
    },
    [],
    rw append-nil refl,
    all_placed,
  )
  members-Updated [] (k ∷ ks) a n v = absurd n
  members-Updated (e ∷ es) [] a n v = absurd n
  members-Updated (e ∷ es) (k ∷ ks) a n v =
      let (b, first, f, (p, tmp, put_first)) = one_name k a v in
      let (c, others, g, ps, new, m) = members-Updated es ks b n.1 f.tracked in
      rw (n.0, first, others)
        (
          c,
          refl,
          Updated-trans (k ∷ []) ks a b c f g,
          (k, p) ∷ ps,
          new
              ∙ ap (λ t. t ++ ps) tmp
              ∙ append_assoc (iter a.target_server_map_tmp) ((k, p) ∷ []) ps,
          put_first ks ps m,
        )
