-- ===== src/Gather/Meta.antt =====
-- gather.c: the list of target servers, kept up to date with the meta server's.
pub mod Listing
pub mod Clear
pub mod Tracked
pub mod Updates
pub mod Members
pub mod Cycle
use store_monitor.Common.{
  suc, ◌+◌, if◌then◌else◌, ◌>>=◌, true, false, Option, none, some, List, [], ◌∷◌, Str, codes,
  length, map, for_each,
}
use store_monitor.Common.Hash.{UtHash, Entry}
use store_monitor.Connection.Data.{Ptr}
use store_monitor.Action.Data.{Action}
use store_monitor.Action.DownList.{rm_server_from_down_list}
use store_monitor.Gather.Data.{TargetServer, Analyzer, put}

-- The words of the query: `MGET monitor_state` and the keys of the servers.
abbrev pub query : List Str → List Str
query keys = codes "MGET" ∷ codes "monitor_state" ∷ keys

module _ (H : UtHash) where
  open H use {Table, empty, find_str, add_keyptr, del, iter}

  -- `analyzerInit`, the part over its own state.
  unfoldable pub analyzer_init : Analyzer Table → Analyzer Table
  analyzer_init a = record a {
    cur_gather_seq_id = 0;
    target_server_map_cur = empty;
    target_server_map_tmp = empty;
    gather_server_list = record (a.gather_server_list) {
      nodes = [];
      gather_server_list_len = 0;
      gather_server_list_id = 0;
      to_be_updated = false;
    };
  }

  -- `gatherUpdateLocalMetaForServer`.
  unfoldable pub gather_update_local_meta_for_server :
      Str → Analyzer Table → Option (Analyzer Table)
  unfolding put
  gather_update_local_meta_for_server key a = elim (find_str key a.target_server_map_cur) [
    | some p ↦ do
      s ← a.targets p
      some (record a {
        target_server_map_cur = del p a.target_server_map_cur;
        target_server_map_tmp = add_keyptr s.server_id_key p a.target_server_map_tmp;
      })
    | none ↦ some (record a {
      gather_server_list = record (a.gather_server_list) { to_be_updated = true };
      targets = put a.targets a.fresh (
          some (record {
            server_id_key = key;
            gather_seq_id = 0;
            fail_count = 0;
            server_in_down_list = false;
          }));
      fresh = suc a.fresh;
      target_server_map_tmp = add_keyptr key a.fresh a.target_server_map_tmp;
    })
  ]

  module _ (split : Str → List Str) where
    -- A target server that the meta server no longer names. What `rmServerFromDownList` returns is
    -- ignored.
    unfoldable pub drop_target :
        Entry → Action Table × Analyzer Table → Option (Action Table × Analyzer Table)
    unfolding rm_server_from_down_list put
    drop_target (_, p) (act, a) = do
      s ← a.targets p
      (_, act) ← rm_server_from_down_list H split s.server_id_key act
      some (
        act,
        record a {
          gather_server_list = record (a.gather_server_list) { to_be_updated = true };
          target_server_map_cur = del p a.target_server_map_cur;
          targets = put a.targets p none;
        },
      )

    -- The keys of the servers, read from their records.
    unfoldable pub keys_of : (Ptr → Option TargetServer) → List Entry → Option (List Str)
    keys_of h [] = some []
    keys_of h ((_, p) ∷ es) = do s ← h p; keys ← keys_of h es; some (s.server_id_key ∷ keys)

    unfoldable pub rebuild : Analyzer Table → Option (Analyzer Table)
    unfolding keys_of
    rebuild a = do
      let es = iter a.target_server_map_cur
      keys ← keys_of a.targets es
      some (record a {
        gather_server_list = record {
          nodes = map (λ e. e.1) es;
          gather_server_list_len = length es;
          query_argc = length es + 2;
          query_argv = query keys;
          query_argv_len = map length (query keys);
          gather_server_list_id = suc a.gather_server_list.gather_server_list_id;
          to_be_updated = false;
        };
      })

    -- `gatherClearOldLocalMeta`.
    unfoldable pub gather_clear_old_local_meta :
        Action Table × Analyzer Table → Option (Action Table × Analyzer Table)
    unfolding for_each drop_target rebuild
    gather_clear_old_local_meta (act, a) = do
      (act, a) ← for_each drop_target (iter a.target_server_map_cur) (act, a)
      let a = record a {
        target_server_map_cur = a.target_server_map_tmp;
        target_server_map_tmp = empty;
      }
      if a.gather_server_list.to_be_updated
          then (do a ← rebuild a; some (act, a))
          else some (act, a)
