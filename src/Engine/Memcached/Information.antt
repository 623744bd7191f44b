-- ===== src/Engine/Memcached/Information.antt =====
-- The record of a server's properties that a memcached connection keeps: who frees it.
use store_monitor.Common.{◌≡◌, refl, Bool, true, Option, none, some, List, Str, arith}
use store_monitor.Common.Hash.{UtHash}
use store_monitor.Connection.Data.{Server, Ptr}
use store_monitor.Hiredis.{Reply}
use store_monitor.Action.Data.{Action, DownServer, put}
use store_monitor.Action.DownList.{free_down_server}
use store_monitor.Action.Exchange.{update_exchange_state_done_cb}
use store_monitor.Engine.Raw.{RawContext}
use store_monitor.Engine.Memcached.{RacData, Engine, raw_async_dis_connect}
use store_monitor.Engine.Memcached.Lost.{IsLinked, raw_async_dis_connect-queued}

module _ (H : UtHash) (split_raw : Str → List Str) where
  open H use {Table}

  useless_reply :
      (err : Bool) (reply : Option Reply) (q : Ptr) (a : Action Table) (d : DownServer)
      → a.servers q ≡ some d
      → d.is_no_use ≡ true
      → update_exchange_state_done_cb H split_raw err reply q a
        ≡ some (record a { servers = put a.servers q none })
  unfolding update_exchange_state_done_cb free_down_server
  useless_reply err reply q a d e f = rw (e, f) refl

  freed_reply :
      (err : Bool) (reply : Option Reply) (q : Ptr) (a : Action Table)
      → a.servers q ≡ none
      → update_exchange_state_done_cb H split_raw err reply q a ≡ none
  unfolding update_exchange_state_done_cb
  freed_reply err reply q a e = rw e refl

  -- A connection is given up while the `HGETALL` for its server is on the way: the reply, whatever it
  -- is, frees the record of the properties. If a second `HGETALL` is on the way, as one is sent with
  -- every query until the properties are known, its reply reads the freed record.
  pub second_reply-freed :
      (w : Engine Table) (p : Ptr) (c : RawContext RacData) (s : Server) (ps : List Ptr)
      (d : DownServer) (err err2 : Bool) (reply reply2 : Option Reply)
      → IsLinked w p c s ps d
      → (w' : Engine Table) × (raw_async_dis_connect p w ≡ some w')
        × (a : Action Table) × (update_exchange_state_done_cb H split_raw err reply
              c.rac_data.server_info w'.world.action
            ≡ some a)
        × (a.servers c.rac_data.server_info ≡ none)
        × (update_exchange_state_done_cb H split_raw err2 reply2 c.rac_data.server_info a ≡ none)
  unfolding put
  second_reply-freed w p c s ps d err err2 reply reply2 v =
      let (w', runs, g) = raw_async_dis_connect-queued w p c s ps d v in
      let q = c.rac_data.server_info in
      let a : Action Table = record (w'.world.action) {
        servers = put w'.world.action.servers q none;
      } in
      let gone : a.servers q ≡ none = ground arith in
      (
        w',
        runs,
        a,
        useless_reply err reply q w'.world.action (record d { is_no_use = true }) g.info refl,
        gone,
        freed_reply err2 reply2 q a gone,
      )
