-- ===== src/Gather/Data.antt =====
-- gather.h, analyzer.h: the state of the analyzer.
use store_monitor.Common.{ℕ, Bool, Option, some, List, Str, ◌==◌, if◌then◌else◌}
use store_monitor.Connection.Data.{Ptr}
use store_monitor.Hiredis.{Client}
use store_monitor.Action.Data.{Action}

-- `stTargetServer`; `server_in_down_list` is `SERVER_IN_DOWNLIST` or not.
pub record TargetServer : Type 0 where
  pub server_id_key : Str
  pub gather_seq_id : ℕ
  pub fail_count : ℕ
  pub server_in_down_list : Bool

-- `stGatherServerList`. The list of nodes is private to its owner and never shared, so it is a list
-- of the servers that its nodes point to. `to_be_updated` is `SERVER_LIST_TOBEUPDATED` or not.
pub record GatherServerList : Type 0 where
  pub nodes : List Ptr
  pub gather_server_list_len : ℕ
  pub query_argc : ℕ
  pub query_argv : List Str
  pub query_argv_len : List ℕ
  pub gather_server_list_id : ℕ
  pub to_be_updated : Bool

-- `stAnalyzer` with the heap of target servers; `fresh` is the address that `calloc` returns next,
-- and a freed address is not used again.
pub record Analyzer (T : Type 0) : Type 0 where
  pub targets : Ptr → Option TargetServer
  pub fresh : Ptr
  pub cur_gather_seq_id : ℕ
  pub gather_server_list : GatherServerList
  pub target_server_map_cur : T
  pub target_server_map_tmp : T

-- All that the analyzer's process keeps.
pub record Analysis (T : Type 0) : Type 0 where
  pub client : Client
  pub action : Action T
  pub analyzer : Analyzer T

unfoldable pub put :
    (Ptr → Option TargetServer) → Ptr → Option TargetServer → Ptr → Option TargetServer
put h p c q = if p == q then c else h q

unfoldable pub target : {T : Type 0} → Ptr → Analysis T → Option TargetServer
target p w = w.analyzer.targets p

-- `server->field = …` for the target server at an address whose record is `s`.
unfoldable pub set_target : {T : Type 0} → Ptr → TargetServer → Analysis T → Analysis T
unfolding put
set_target p s w = record w {
  analyzer = record (w.analyzer) { targets = put w.analyzer.targets p (some s) };
}
