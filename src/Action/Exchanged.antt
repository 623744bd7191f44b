-- ===== src/Action/Exchanged.antt =====
-- action.c: the transaction that tells the meta server of an exchange, and the dispatch on the state
-- of a down server.
pub mod Laws
use store_monitor.Common.{
  ℕ, ℤ, pos, negsuc, ◌==◌, if◌then◌else◌, ◌>>=◌, Bool, true, false, ◌||◌, not, Option, none, some,
  List, [], ◌∷◌, ◌++◌, Str, codes, str_eq,
}
use store_monitor.Connection.Data.{Ptr, null, Pool}
use store_monitor.Config.{Config}
use store_monitor.Hiredis.{
  Reply, Element, array, integer, status, Client, Accepts, Callback, redis_async_command,
  update_exchanged_state_trans_start, update_exchanged_state_in_trans, update_exchanged_state_done,
}
use store_monitor.Meta.{fetch_meta_server_for_write}
use store_monitor.Action.Data.{
  Action, DownServer, ExchangePhase, exchange, exchanging, exchanged, set_to_be_updated, World,
  modify,
}
use store_monitor.Action.Exchange.{start_exchange_for_server, update_exchange_state}
use store_monitor.Action.Info.{is_master}

abbrev pub zero_or_one : ℤ → Bool
zero_or_one (pos n) = (n == 0) || (n == 1)
zero_or_one (negsuc n) = false

unfoldable pub moved : Element → Bool
moved e = elim e.type [ integer ↦ zero_or_one e.value | _ ↦ false ]

-- `checkUpdateExchangedStateResult`; true is the return value 0.
unfoldable pub check_update_exchanged_state_result : List Element → Bool
unfolding moved
check_update_exchanged_state_result [] = false
check_update_exchanged_state_result (e ∷ []) = moved e
check_update_exchanged_state_result (e ∷ _ ∷ _) = false

-- `updateExchangedStateDone`, the callback of `EXEC`.
unfoldable pub update_exchanged_state_done_cb :
    {T : Type 0} → Bool → Option Reply → Ptr → Action T → Option (Action T)
unfolding check_update_exchanged_state_result modify
update_exchanged_state_done_cb true reply p a = some a
update_exchanged_state_done_cb false none p a = some a
update_exchanged_state_done_cb false (some r) p a =
    let ok : Bool = elim r.type [
      | array ↦ check_update_exchanged_state_result r.elements
      | _ ↦ false
    ] in
    if ok then some a else modify p (set_to_be_updated true) a

-- `r->type != REDIS_REPLY_STATUS || strcmp(r->str, text)`.
unexpected : Str → Reply → Bool
unexpected text r = elim r.type [
  | status ↦ elim r.str [ none ↦ true | some t ↦ not (str_eq t text) ]
  | _ ↦ true
]

-- `updateExchangedStateTransStart` and `updateExchangedStateInTrans`, the callbacks of `MULTI` and
-- `SMOVE`, which differ in the text that they expect: the connection of the meta server is reset on
-- any other reply.
unfoldable pub expect_status :
    Str → (Ptr → Pool → Option Pool) → Bool → Option Reply → Ptr → Pool → Option Pool
unfolding unexpected
expect_status text reset true reply m c = some c
expect_status text reset false none m c = some c
expect_status text reset false (some r) m c = if unexpected text r then reset m c else some c

unfoldable pub update_exchanged_state_trans_start_cb :
    (Ptr → Pool → Option Pool) → Bool → Option Reply → Ptr → Pool → Option Pool
unfolding expect_status
update_exchanged_state_trans_start_cb = expect_status (codes "OK")

unfoldable pub update_exchanged_state_in_trans_cb :
    (Ptr → Pool → Option Pool) → Bool → Option Reply → Ptr → Pool → Option Pool
unfolding expect_status
update_exchanged_state_in_trans_cb = expect_status (codes "QUEUED")

-- The three commands to one server, up to the first that hiredis does not take.
unfoldable pub transaction : Accepts → Str → Ptr → Ptr → Str → Client → Bool × Client
unfolding redis_async_command
transaction accepts group m p key c =
    let send = λ (cb : Callback) (argv : List Str).
      redis_async_command accepts (record { to = m; callback = cb; priv_data = p; argv = argv }) in
    let (ok, c) = send update_exchanged_state_trans_start (codes "MULTI" ∷ []) c in
    if not ok
    then (false, c)
    else (let (ok, c) =
          send update_exchanged_state_in_trans
            (codes "SMOVE"
              ∷ (group ++ codes "_monitor_server_list")
              ∷ (group ++ codes "_exchanged_server_list")
              ∷ key
              ∷ [])
            c in
        if not ok then (false, c) else send update_exchanged_state_done (codes "EXEC" ∷ []) c)

module _ {T : Type 0} (accepts : Accepts) (fuel : ℕ) (config : Config) where
  -- `updateExchangedState`.
  unfoldable pub update_exchanged_state : Ptr → World T → Option (World T)
  unfolding fetch_meta_server_for_write transaction modify
  update_exchanged_state p w = do
    s ← w.action.servers p
    (m, pool) ← fetch_meta_server_for_write fuel w.client.pool
    if m == null then some (record w { client = record (w.client) { pool = pool } }) else do
      let (ok, client) =
          transaction accepts config.monitor_group m p s.ip_port_type
            (record (w.client) { pool = pool })
      a ← (if ok then modify p (set_to_be_updated false) w.action else some w.action)
      some (record w { client = client; action = a })

  -- `doActionToDownServer`, by the state of the server; `created` as in `startExchangeForServer`.
  -- `updateExchangingState` does nothing.
  unfoldable pub dispatch : Bool → Ptr → DownServer → ExchangePhase → World T → Option (World T)
  unfolding update_exchange_state start_exchange_for_server update_exchanged_state
  dispatch created p s exchange w =
      if s.exchange_state.to_be_updated
      then update_exchange_state accepts fuel p w
      else (if is_master s.server_property.role
          then (do a ← start_exchange_for_server created p w.action; some (record w { action = a }))
          else some w)
  dispatch created p s exchanging w = some w
  dispatch created p s exchanged w =
      if s.exchange_state.to_be_updated then update_exchanged_state p w else some w

  unfoldable pub do_action_to_down_server : Bool → Ptr → World T → Option (World T)
  unfolding dispatch
  do_action_to_down_server created p w = do
    s ← w.action.servers p
    dispatch created p s s.exchange_state.phase w
