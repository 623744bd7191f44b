-- ===== src/Gather/State/Replies.antt =====
-- `processTargetState` as a whole.
use store_monitor.Common.{
  sym, ◌∙◌, false, ℕ, ◌+◌, ◌≤◌, ◌≡◌, inl, inr, refl, subst, arith, true, ◌&&◌, Bool-cases, some,
  List, [], ◌∷◌, Str, length,
}
use store_monitor.Common.Hash.{UtHash}
use store_monitor.Connection.Data.{Ptr, GatherData}
use store_monitor.Config.{Config}
use store_monitor.Hiredis.{Element}
use store_monitor.Action.DownList.Laws.{IsWellFormed}
use store_monitor.Gather.Data.{Analysis, Analyzer}
use store_monitor.Gather.State.{is_up, count_failures, is_current, process_target_state}
use store_monitor.Gather.State.Counts.{
  is_up-says_up, says_up, tally, Failed, hit, Counted, Counted-none, Counted-trans, count_one,
  Allocated,
}

module _ (H : UtHash) (split : Str → List Str) (quota : ℕ) (w v : Analysis H.Table) where
  Counted-same :
      (k l : Ptr → ℕ)
      → Counted H split quota w k v
      → ((q : Ptr) → k q ≡ l q)
      → Counted H split quota w l v
  Counted-same k l c e = record {
    targets = λ q s at.
        let (t, there, f) = c.targets q s at in (t, there, subst (λ n. Failed quota n s t) (e q) f);
    noted = λ q s at lt le. c.noted q s at (rw (e q) lt) (rw (e q) le);
    kept = c.kept;
    well_formed = c.well_formed;
    list = c.list;
    client = c.client;
  }

  Allocated-after :
      (k : Ptr → ℕ) (ps : List Ptr) → Counted H split quota w k v → Allocated w ps → Allocated v ps
  Allocated-after k [] c a = tt
  Allocated-after k (p ∷ ps) c a =
      let (t, there, f) = c.targets p a.0.0 a.0.1 in ((t, there), Allocated-after k ps c a.1)

module _ (H : UtHash) (split : Str → List Str) (config : Config) where
  count_all :
      (ps : List Ptr) (es : List Element) (w : Analysis H.Table)
      → length ps ≤ length es
      → Allocated w ps
      → IsWellFormed H split w.action
      → (v : Analysis H.Table) × (count_failures H split config ps es w ≡ some v)
        × Counted H split config.server_down_quota w (λ q. tally q ps es) v
  unfolding count_failures tally hit
  count_all [] es w le a wf = (w, refl, Counted-none H split config.server_down_quota w wf)
  count_all (p ∷ ps) [] w le a wf = absurd (omega arith)
  count_all (p ∷ ps) (e ∷ es) w le a wf = elim (Bool-cases (is_up e)) [
    | inl up ↦
        let same : says_up e ≡ true = sym (is_up-says_up e) ∙ up in
        let (v, runs, c) = count_all ps es w (omega arith) a.1 wf in
        rw (up, runs)
          (
            v,
            refl,
            Counted-same H split config.server_down_quota w v (λ q. tally q ps es) _ c
                (λ q. ground arith),
          )
    | inr down ↦
        let same : says_up e ≡ false = sym (is_up-says_up e) ∙ down in
        let (u, fails, b) = count_one H split config p a.0.0 w a.0.1 wf in
        let (v, runs, c) =
          count_all ps es u (omega arith)
            (Allocated-after H split config.server_down_quota w u (hit p) ps b a.1) b.well_formed in
        rw (down, fails, runs)
          (
            v,
            refl,
            Counted-same H split config.server_down_quota w v (λ q. hit p q + tally q ps es) _
                (Counted-trans H split config.server_down_quota w u v (hit p) (λ q. tally q ps es) b
                  c)
                (λ q. ground arith),
          )
  ]

  -- A reply for the current round and the current list of target servers, with one element that says
  -- that monitoring is up and then one for each server of the list.
  pub record IsCurrent (d : GatherData) (e : Element) (es : List Element) (a : Analyzer H.Table)
      : Type 0 where
    pub complete : length es ≡ length a.gather_server_list.nodes
    pub round : d.gather_seq_id ≡ a.cur_gather_seq_id
    pub list : d.gather_server_list_id ≡ a.gather_server_list.gather_server_list_id
    pub monitoring : says_up e ≡ true

  -- What `processTargetState` does.
  pub data Outcome (d : GatherData) (e : Element) (es : List Element) (w : Analysis H.Table)
      : Analysis H.Table → Type 0 where
    ignored : (IsCurrent d e es w.analyzer → ⊥) → Outcome d e es w w
    counted :
        {v : Analysis H.Table}
        → IsCurrent d e es w.analyzer
        → Counted H split config.server_down_quota w
            (λ q. tally q w.analyzer.gather_server_list.nodes es)
            v
        → Outcome d e es w v

  module _ (d : GatherData) (e : Element) (es : List Element) (w : Analysis H.Table)
      (len : w.analyzer.gather_server_list.gather_server_list_len
        ≡ length w.analyzer.gather_server_list.nodes) where
    now-IsCurrent :
        (is_current H split config d (length (e ∷ es)) w.analyzer && is_up e) ≡ true
        → IsCurrent d e es w.analyzer
    unfolding is_current
    now-IsCurrent now = record {
      complete = ground (arith, len);
      round = ground arith;
      list = ground arith;
      monitoring = sym (is_up-says_up e) ∙ ground arith;
    }

    not_current :
        (is_current H split config d (length (e ∷ es)) w.analyzer && is_up e) ≡ false
        → IsCurrent d e es w.analyzer
        → ⊥
    unfolding is_current
    not_current stale c =
        let up : is_up e ≡ true = is_up-says_up e ∙ c.monitoring in
        ground (arith, len, c.complete, c.round, c.list)

    -- Where the list has the length that the program keeps of it, its servers are on the heap and the
    -- list of down servers is well-formed, a reply of at least one element does not lead to a read
    -- outside its array. A reply that is not for the current round and list, has not one element more
    -- than the list or does not say that monitoring is up changes nothing. Any other adds to each
    -- target server's count of failures the number of elements at its places in the list that do not
    -- say up, and marks exactly the servers that fail and so reach the quota as down; these are then
    -- in the list of down servers, if their key splits in three.
    pub process-Counted :
        Allocated w w.analyzer.gather_server_list.nodes
        → IsWellFormed H split w.action
        → (v : Analysis H.Table) × (process_target_state H split config d (e ∷ es) w ≡ some v)
          × Outcome d e es w v
    unfolding process_target_state
    process-Counted a wf =
        elim (Bool-cases (is_current H split config d (length (e ∷ es)) w.analyzer && is_up e)) [
          | inr stale ↦ rw stale (w, refl, ignored (not_current stale))
          | inl now ↦
              let c = now-IsCurrent now in
              let (v, runs, counts) =
                count_all w.analyzer.gather_server_list.nodes es w
                  (let n = c.complete in omega arith) a wf in
              rw now (v, runs, counted c counts)
        ]
