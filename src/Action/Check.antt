-- ===== src/Action/Check.antt =====
-- action.c: the timer that asks whether actions are enabled, and the reply that runs them.
use store_monitor.Common.{
  ℕ, ◌==◌, if◌then◌else◌, ◌>>=◌, Bool, true, false, Option, none, some, [], ◌∷◌, ◌++◌, codes,
  str_eq, for_each,
}
use store_monitor.Common.Hash.{UtHash}
use store_monitor.Connection.Data.{Ptr, null}
use store_monitor.Config.{Config}
use store_monitor.Hiredis.{
  Reply, string, Accepts, redis_async_command, check_action_enable_option_done,
}
use store_monitor.Meta.{fetch_meta_server_for_read}
use store_monitor.Action.Data.{CheckOption, check, checking, checked, World}
use store_monitor.Action.Exchanged.{do_action_to_down_server}

abbrev pub set_option : {T : Type 0} → CheckOption → World T → World T
set_option o w = record w { action = record (w.action) { check_action_enable_option = o } }

-- Whether a reply to `GET` enables actions.
unfoldable pub enables : Reply → Bool
enables r = elim r.type [
  | string ↦ elim r.str [ none ↦ false | some t ↦ str_eq (codes "1") t ]
  | _ ↦ false
]

module _ (H : UtHash) (accepts : Accepts) (fuel : ℕ) (config : Config) where
  open H use {Table, iter}

  -- `checkActionEnableOption`.
  unfoldable pub check_action_enable_option : World Table → Option (World Table)
  unfolding fetch_meta_server_for_read redis_async_command
  check_action_enable_option w = do
    (m, pool) ← fetch_meta_server_for_read fuel w.client.pool
    let w = record w { client = record (w.client) { pool = pool } }
    if m == null then some w else do
      let (ok, client) =
          redis_async_command accepts
            (record {
              to = m;
              callback = check_action_enable_option_done;
              priv_data = null;
              argv = codes "GET" ∷ (config.monitor_group ++ codes "_action_enable") ∷ [];
            })
            w.client
      let w = record w { client = client }
      some (if ok then set_option checking w else w)

  -- `actionCheckTimerCb`.
  unfoldable pub action_check_timer_cb : World Table → Option (World Table)
  unfolding check_action_enable_option
  action_check_timer_cb w = elim w.action.check_action_enable_option [
    | check ↦ check_action_enable_option w
    | _ ↦ some w
  ]

  -- The loop over the down servers. `HASH_ITER` runs over the list as it was; no body changes it.
  -- `created` says for each server whether `pthread_create` returns 0.
  unfoldable pub act_on_all : (Ptr → Bool) → World Table → Option (World Table)
  unfolding for_each do_action_to_down_server
  act_on_all created w =
      for_each (λ e. do_action_to_down_server accepts fuel config (created e.1) e.1)
        (iter w.action.down_server_list) w

  -- `checkActionEnableOptionDone`, the callback of `GET`.
  unfoldable pub check_action_enable_option_done_cb :
      (Ptr → Bool) → Bool → Option Reply → World Table → Option (World Table)
  unfolding act_on_all enables
  check_action_enable_option_done_cb created true reply w = some (set_option check w)
  check_action_enable_option_done_cb created false none w = some (set_option check w)
  check_action_enable_option_done_cb created false (some r) w = do
    let w = record w {
      action = record (w.action) {
        action_enable = enables r;
        check_action_enable_option = checked;
      };
    }
    w ← (if w.action.action_enable then act_on_all created w else some w)
    some (record w {
      action = record (w.action) { action_enable = false; check_action_enable_option = check };
    })
