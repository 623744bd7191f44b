-- ===== src/Action/Exchange.antt =====
-- action.c: the exchange of a down server for its backup, and the reply that prepares it.
pub mod Laws
use store_monitor.Common.{
  ℕ, ◌+◌, ◌==◌, ◌/◌, ◌%◌, if◌then◌else◌, ◌>>=◌, Bool, true, false, Option, none, some, List, [],
  ◌∷◌, ◌++◌, Str, codes, take, join,
}
use store_monitor.Common.Hash.{UtHash}
use store_monitor.Connection.Data.{Ptr, null}
use store_monitor.Config.{Config}
use store_monitor.Hiredis.{
  Reply, Element, ReplyType, array, Sent, Client, Accepts, redis_async_command,
  update_exchange_state_done,
}
use store_monitor.Meta.{fetch_meta_server_for_read}
use store_monitor.Action.Data.{
  Action, DownServer, ExchangePhase, exchange, exchanging, exchanged, set_phase, set_to_be_updated,
  World, put, modify,
}
use store_monitor.Action.DownList.{free_down_server}
use store_monitor.Action.Info.{update_down_server_info}

-- What `system` returns: -1, or the status of the shell as `wait` encodes it.
pub data SystemResult : Type 0 where
  failed : SystemResult
  status : ℕ → SystemResult

-- `WEXITSTATUS`.
abbrev pub exit_status : ℕ → ℕ
exit_status n = (n / 256) % 256

-- `%s` of printf, which writes a NULL pointer as `(null)`.
abbrev pub text_or_null : Option Str → Str
text_or_null none = codes "(null)"
text_or_null (some t) = t

-- The command line, cut to the 511 bytes that `snprintf` leaves.
unfoldable pub exchange_command : Config → DownServer → Str
exchange_command config s = take 511 (
    join b' ' (
      join b'/' (config.scripts_dir ∷ text_or_null s.type ∷ config.exchange_script_file ∷ [])
      ∷ text_or_null s.server_property.pid
      ∷ text_or_null s.ip
      ∷ text_or_null s.server_property.backup_ip
      ∷ []))

-- What the thread does to its server when `system` has returned.
unfoldable pub after_exchange : SystemResult → DownServer → DownServer
after_exchange failed s = set_phase exchange s
after_exchange (status n) s =
    if exit_status n == 0
    then set_to_be_updated true (set_phase exchanged s)
    else set_phase exchange s

-- `actionThread`, run to its end.
unfoldable pub action_thread : (Str → SystemResult) → Config → DownServer → DownServer
unfolding exchange_command after_exchange
action_thread system config s = after_exchange (system (exchange_command config s)) s

unfoldable pub remove_first : Ptr → List Ptr → List Ptr
remove_first p [] = []
remove_first p (q ∷ qs) = if p == q then qs else q ∷ remove_first p qs

-- A thread ends: it writes to the server that it was started with.
unfoldable pub thread_ends :
    {T : Type 0} → (Str → SystemResult) → Config → Ptr → Action T → Option (Action T)
unfolding modify action_thread remove_first
thread_ends system config p a =
    modify p (action_thread system config) (record a { running = remove_first p a.running })

-- `startExchangeForServer`, where the thread does not end before the state is set; `created` says
-- whether `pthread_create` returns 0.
unfoldable pub start_exchange_for_server : {T : Type 0} → Bool → Ptr → Action T → Option (Action T)
unfolding modify
start_exchange_for_server false p a = some a
start_exchange_for_server true p a =
    modify p (set_phase exchanging) (record a { running = p ∷ a.running })

module _ (H : UtHash) (split_raw : Str → List Str) where
  open H use {Table, find_str}

  -- The array branch of `updateExchangeStateDone`.
  unfoldable pub take_info : Ptr → List Element → Action Table → Option (Action Table)
  unfolding put
  take_info p [] a = some a
  take_info p (e ∷ es) a = do
    s ← a.servers p
    (_, s') ← update_down_server_info (λ k. find_str k a.down_server_list) split_raw (e ∷ es) s
    some (record a { servers = put a.servers p (some s') })

  -- `updateExchangeStateDone`, the callback of `HGETALL`; `err` is `ac->err != 0`.
  unfoldable pub update_exchange_state_done_cb :
      Bool → Option Reply → Ptr → Action Table → Option (Action Table)
  unfolding take_info free_down_server
  update_exchange_state_done_cb err reply p a = do
    s ← a.servers p
    if s.is_no_use
        then free_down_server p a
        else (if err then some a else elim reply [
          | none ↦ some a
          | some r ↦ elim r.type [ array ↦ take_info p r.elements a | _ ↦ some a ]
        ])

-- `updateExchangeState` asks a meta server for the server's properties.
unfoldable pub update_exchange_state : {T : Type 0} → Accepts → ℕ → Ptr → World T → Option (World T)
unfolding fetch_meta_server_for_read redis_async_command
update_exchange_state accepts fuel p w = do
  s ← w.action.servers p
  (m, pool) ← fetch_meta_server_for_read fuel w.client.pool
  some (record w {
    client =
        if m == null
        then record (w.client) { pool = pool }
        else (redis_async_command accepts
            (record {
              to = m;
              callback = update_exchange_state_done;
              priv_data = p;
              argv = codes "HGETALL" ∷ (s.ip_port_type ++ codes "_server_info") ∷ [];
            })
            (record (w.client) { pool = pool })).1;
  })
