-- ===== src/Gather/State.antt =====
-- gather.c: the states of the target servers, as the store servers report them.
pub mod Counts
pub mod Replies
use store_monitor.Common.{
  ℕ, zero, suc, ◌+◌, ◌==◌, leb, ltb, if◌then◌else◌, ◌>>=◌, Bool, true, false, ◌&&◌, Option, none,
  some, List, [], ◌∷◌, Str, ℤ, pos, negsuc, atoi, length, for_each,
}
use store_monitor.Common.Hash.{UtHash}
use store_monitor.Config.{Config}
use store_monitor.Connection.Data.{
  Ptr, null, Server, ConnectionState, connect, gather_timeout, GatherData, store_servers, Pool,
}
use store_monitor.Connection.Pool.{update}
use store_monitor.Hiredis.{
  Element, Reply, string, array, Accepts, redis_async_command, gather_target_state_done,
}
use store_monitor.Meta.{fetch_connected}
use store_monitor.Store.{start_timer, stop_timer}
use store_monitor.Action.DownList.{add_server_to_down_list, rm_server_from_down_list}
use store_monitor.Gather.Data.{Analyzer, Analysis, target, set_target}

-- `gatherTargetStateTimeoutFromStoreServer`.
unfoldable pub gather_target_state_timeout : Ptr → Pool → Option Pool
unfolding update
gather_target_state_timeout p c = update p (λ s. record (stop_timer s) { priv_data = none }) c

unfoldable pub is_one : ℤ → Bool
is_one (pos n) = n == 1
is_one (negsuc n) = false

-- Whether an element of the reply says that a server is up: `SERVER_ALIVE_STATE_UP` as a string.
-- hiredis gives every string reply a text, so the case of none does not come up.
unfoldable pub is_up : Element → Bool
unfolding is_one
is_up e = elim e.type [
  | string ↦ elim e.str [ none ↦ false | some t ↦ is_one (atoi t) ]
  | _ ↦ false
]

module _ (H : UtHash) (split : Str → List Str) (config : Config) where
  open H use {Table, iter}

  -- One server of the list that a store server reports as not up.
  unfoldable pub count_failure : Ptr → Analysis Table → Option (Analysis Table)
  unfolding target set_target add_server_to_down_list
  count_failure p w = do
    s ← target p w
    let s = record s { fail_count = suc s.fail_count }
    some (
        if leb config.server_down_quota s.fail_count
        then record (set_target p (record s { server_in_down_list = true }) w) {
          action = (add_server_to_down_list H split s.server_id_key w.action).1;
        }
        else set_target p s w)

  -- The loop over the list; `none` is a read outside the array.
  unfoldable pub count_failures : List Ptr → List Element → Analysis Table → Option (Analysis Table)
  unfolding count_failure is_up
  count_failures [] es w = some w
  count_failures (p ∷ ps) [] w = none
  count_failures (p ∷ ps) (e ∷ es) w = do
    w ← (if is_up e then some w else count_failure p w)
    count_failures ps es w

  -- Whether a reply is for the current round and the current list.
  unfoldable pub is_current : GatherData → ℕ → Analyzer Table → Bool
  is_current d elements a =
      (elements == suc a.gather_server_list.gather_server_list_len)
      && (d.gather_seq_id == a.cur_gather_seq_id)
      && (d.gather_server_list_id == a.gather_server_list.gather_server_list_id)

  -- `processTargetState`; the return value is not used.
  unfoldable pub process_target_state :
      GatherData → List Element → Analysis Table → Option (Analysis Table)
  unfolding count_failures is_current is_up
  process_target_state d [] w = some w
  process_target_state d (e ∷ es) w =
      if is_current d (length (e ∷ es)) w.analyzer && is_up e
      then count_failures w.analyzer.gather_server_list.nodes es w
      else some w

  on_pool : (Pool → Option Pool) → Analysis Table → Option (Analysis Table)
  on_pool f w = do c ← f w.client.pool; some (record w { client = record (w.client) { pool = c } })

  read_states : Bool → Option Reply → GatherData → Analysis Table → Option (Analysis Table)
  unfolding process_target_state
  read_states true reply d w = some w
  read_states false none d w = some w
  read_states false (some r) d w = elim r.type [
    | array ↦ process_target_state d r.elements w
    | _ ↦ some w
  ]

  gather_done :
      Ptr
      → Server
      → ConnectionState
      → Bool
      → Option Reply
      → Analysis Table
      → Option (Analysis Table)
  unfolding on_pool update read_states
  gather_done p s connect err reply w = some w
  gather_done p s _ err reply w = do
    d ← s.priv_data
    w ← on_pool (update p stop_timer) w
    w ← read_states err reply d w
    on_pool (update p (λ s. record s { priv_data = none })) w

  -- `gatherTargetStateDoneFromStoreServer`, the callback of the query.
  unfoldable pub gather_target_state_done_cb :
      Ptr → Bool → Option Reply → Analysis Table → Option (Analysis Table)
  unfolding gather_done
  gather_target_state_done_cb p err reply w = do
    s ← w.client.pool.heap p
    gather_done p s s.connection_state err reply w

  -- `gatherTargetStateFromStoreServer`; what hiredis returns is ignored. The callback finds the
  -- store server through the connection, so its address stands for the callback's data.
  unfoldable pub gather_target_state : Accepts → Ptr → Analysis Table → Option (Analysis Table)
  unfolding on_pool update redis_async_command
  gather_target_state accepts p w = do
    let d : GatherData = record {
      gather_seq_id = w.analyzer.cur_gather_seq_id;
      gather_server_list_id = w.analyzer.gather_server_list.gather_server_list_id;
    }
    w ← on_pool (update p (λ s. record s { priv_data = some d })) w
    let w = record w {
      client =
          (redis_async_command accepts
            (record {
              to = p;
              callback = gather_target_state_done;
              priv_data = p;
              argv = w.analyzer.gather_server_list.query_argv;
            })
            w.client).1;
    }
    on_pool (update p (λ s. start_timer (record s { process_timeout_fn = some gather_timeout }))) w

  -- One server of the list at the start of a round: it leaves the down list if it was in it and
  -- failed less often than the quota in the round before.
  unfoldable pub start_round : Ptr → Analysis Table → Option (Analysis Table)
  unfolding target set_target rm_server_from_down_list
  start_round p w = do
    s ← target p w
    (left, act) ←
        (if s.server_in_down_list && ltb s.fail_count config.server_down_quota
          then rm_server_from_down_list H split s.server_id_key w.action
          else some (false, w.action))
    some
        (record (set_target p
          (record s {
            server_in_down_list = if left then false else s.server_in_down_list;
            gather_seq_id = w.analyzer.cur_gather_seq_id;
            fail_count = 0;
          })
          w) { action = act })

  -- The loop over the store servers, from the one with number `i` on.
  ask_stores : Accepts → ℕ → ℕ → ℕ → Analysis Table → Option (Analysis Table)
  unfolding fetch_connected gather_target_state
  ask_stores accepts fuel zero i w = some w
  ask_stores accepts fuel (suc left) i w = do
    (p, c) ← fetch_connected fuel (store_servers i) w.client.pool
    let w = record w { client = record (w.client) { pool = c } }
    w ← (if p == null then some w else gather_target_state accepts p w)
    ask_stores accepts fuel left (i + 1) w

  -- `gatherTimerCb`.
  unfoldable pub gather_timer_cb : Accepts → ℕ → Analysis Table → Option (Analysis Table)
  unfolding for_each start_round ask_stores
  gather_timer_cb accepts fuel w = elim (iter w.analyzer.target_server_map_cur) [
    | [] ↦ some w
    | _ ∷ _ ↦ do
      let w = record w {
        analyzer = record (w.analyzer) { cur_gather_seq_id = suc w.analyzer.cur_gather_seq_id };
      }
      w ← for_each start_round w.analyzer.gather_server_list.nodes w
      ask_stores accepts fuel w.client.pool.store_server_num 0 w
  ]
