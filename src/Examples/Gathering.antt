-- ===== src/Examples/Gathering.antt =====
-- The theorems on gathering, with two target servers.
use store_monitor.Common.{
  atoi, ◌==◌, ◌≡◌, refl, arith, Bool, true, false, if◌then◌else◌, none, some, List, [], ◌∷◌, Str,
  codes, pos,
}
use store_monitor.Common.Hash.{Entry, has_item, DistinctItems}
use store_monitor.Connection.Data.{Ptr, GatherData}
use store_monitor.Hiredis.{Element, string, nil}
use store_monitor.Action.Data.{Action}
use store_monitor.Action.DownList.Laws.{IsWellFormed}
use store_monitor.Gather.Data.{TargetServer, GatherServerList, Analyzer, Analysis, target}
use store_monitor.Gather.Meta.{query, gather_clear_old_local_meta}
use store_monitor.Gather.Meta.Listing.{IsListed, Cleared}
use store_monitor.Gather.Meta.Clear.{clear-Cleared}
use store_monitor.Gather.State.{process_target_state}
use store_monitor.Gather.State.Counts.{says_up, Allocated}
use store_monitor.Gather.State.Replies.{IsCurrent, Outcome, process-Counted}
use store_monitor.Common.{str_eq}
use store_monitor.Common.Hash.{has_key}
use store_monitor.Meta.{update_members}
use store_monitor.Gather.Meta.{gather_update_local_meta_for_server}
use store_monitor.Gather.Meta.Members.{times, times_item, Placed}
use store_monitor.Gather.Meta.Updates.{names, IsTracked, Updated, members-Updated}
use store_monitor.Gather.Meta.Cycle.{DistinctNames, cycle-IsListed}
use store_monitor.Examples.Data.{assoc, pool}
use store_monitor.Examples.Actions.{split, one, one-IsWellFormed, config}

abbrev watched : Str → TargetServer
watched k = record {
  server_id_key = k;
  gather_seq_id = 1;
  fail_count = 2;
  server_in_down_list = false;
}

abbrev listed : Bool → GatherServerList
listed b = record {
  nodes = 1 ∷ 2 ∷ [];
  gather_server_list_len = 2;
  query_argc = 4;
  query_argv = query (codes "a" ∷ codes "b" ∷ []);
  query_argv_len = 4 ∷ 13 ∷ 1 ∷ 1 ∷ [];
  gather_server_list_id = 1;
  to_be_updated = b;
}

-- `a` is no longer named, `b` is.
abbrev pub analyzer : Analyzer assoc.Table
analyzer = record {
  targets = λ p.
      if p == 1
      then some (watched (codes "a"))
      else (if p == 2 then some (watched (codes "b")) else none);
  fresh = 3;
  cur_gather_seq_id = 1;
  gather_server_list = listed true;
  target_server_map_cur = (codes "a", 1) ∷ [];
  target_server_map_tmp = (codes "b", 2) ∷ [];
}

abbrev analysis : Analysis assoc.Table
analysis = record { client = record { pool = pool; sent = [] }; action = one; analyzer = analyzer }

abbrev round : GatherData
round = record { gather_seq_id = 1; gather_server_list_id = 1 }

abbrev up_element : Element
up_element = record { type = string; str = some (codes "1"); value = pos 0 }

abbrev states : List Element
states = up_element ∷ record { type = nil; str = none; value = pos 0 } ∷ []

both_Allocated : Allocated analysis (1 ∷ 2 ∷ [])
unfolding target
both_Allocated = ((watched (codes "a"), refl), ((watched (codes "b"), refl), tt))

process-Counted_example :
    (v : Analysis assoc.Table) × (process_target_state assoc split config round
        (up_element ∷ states)
        analysis
      ≡ some v)
    × Outcome assoc split config round up_element states analysis v
process-Counted_example =
    process-Counted assoc split config round up_element states analysis refl both_Allocated
      one-IsWellFormed

-- The reply is for the current round and list.
current : IsCurrent assoc split config round up_element states analyzer
unfolding says_up atoi
current = record { complete = refl; round = refl; list = refl; monitoring = refl }

one_old : DistinctItems (assoc.iter analyzer.target_server_map_cur)
unfolding has_item
one_old = (refl, tt)

none_in_both :
    (p : Ptr)
    → has_item p (assoc.iter analyzer.target_server_map_tmp) ≡ true
    → has_item p (assoc.iter analyzer.target_server_map_cur) ≡ false
unfolding has_item
none_in_both p i = ground arith

clear-Cleared_example :
    (act : Action assoc.Table) × (b : Analyzer assoc.Table) × (gather_clear_old_local_meta assoc
        split
        (one, analyzer)
      ≡ some (act, b))
    × IsWellFormed assoc split act
    × Cleared assoc split analyzer b
clear-Cleared_example =
    clear-Cleared assoc split one analyzer one-IsWellFormed ((watched (codes "a"), refl), tt)
      ((watched (codes "b"), refl), tt) one_old none_in_both (λ e. cc)

-- `a` and `b` are the target servers.
abbrev before : Analyzer assoc.Table
before = record analyzer {
  target_server_map_cur = (codes "a", 1) ∷ (codes "b", 2) ∷ [];
  target_server_map_tmp = [];
}

before-IsTracked : IsTracked assoc before
unfolding has_key has_item str_eq
before-IsTracked = record {
  keys = (refl, (refl, tt));
  cur = (
    (watched (codes "a"), refl, refl, omega arith),
    ((watched (codes "b"), refl, refl, omega arith), tt),
  );
  tmp = tt;
  distinct = (refl, (refl, tt));
  distinct_tmp = tt;
  apart = λ p i. cc;
}

abbrev member : Str → Element
member k = record { type = string; str = some k; value = pos 0 }

abbrev members : List Element
members = member (codes "b") ∷ member (codes "c") ∷ []

members-Updated_example :
    (b : Analyzer assoc.Table) × (update_members
        (gather_update_local_meta_for_server assoc)
        (λ c. some c)
        members
        before
      ≡ some b)
    × Updated assoc (codes "b" ∷ codes "c" ∷ []) before b
    × (ps : List Entry) × (assoc.iter b.target_server_map_tmp ≡ ps)
    × Placed (assoc.iter before.target_server_map_cur) before.fresh (codes "b" ∷ codes "c" ∷ []) ps
members-Updated_example =
    members-Updated assoc members (codes "b" ∷ codes "c" ∷ []) before (refl, (refl, tt))
      before-IsTracked

once : DistinctNames (codes "b" ∷ codes "c" ∷ [])
unfolding str_eq
once = (refl, (refl, tt))

cycle-IsListed_example :
    (b : Analyzer assoc.Table) × (act : Action assoc.Table) × (c : Analyzer assoc.Table)
    × (update_members (gather_update_local_meta_for_server assoc) (λ x. some x) members before
        ≡ some b)
    × (gather_clear_old_local_meta assoc split (one, b) ≡ some (act, c))
    × (names (assoc.iter c.target_server_map_cur) ≡ codes "b" ∷ codes "c" ∷ [])
    × IsTracked assoc c
    × (assoc.iter c.target_server_map_tmp ≡ [])
    × IsListed c.targets c.gather_server_list
    × ((q : Ptr)
        → times q c.gather_server_list.nodes ≡ times_item q (assoc.iter c.target_server_map_cur))
    × (c.gather_server_list.to_be_updated ≡ false)
    × IsWellFormed assoc split act
cycle-IsListed_example =
    cycle-IsListed assoc split members (codes "b" ∷ codes "c" ∷ []) one before (refl, (refl, tt))
      once one-IsWellFormed before-IsTracked refl (λ e. cc)
