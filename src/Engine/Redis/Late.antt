-- ===== src/Engine/Redis/Late.antt =====
-- What a reply to `INFO` says of the server, and a reply that comes when the connection is gone.
use store_monitor.Common.{
  ℕ, ◌==◌, if◌then◌else◌, ◌≡◌, ◌≢◌, refl, ◌∙◌, arith, Bool, true, false, Bool-cases, inl, inr,
  Option, none, some, List, Str, ◌>>=◌, bind-some,
}
use store_monitor.Common.Hash.{UtHash}
use store_monitor.Connection.Data.{Ptr, null, Server, AliveState, up, down, Pool, write, write_eq}
use store_monitor.Connection.Queue.{modify}
use store_monitor.Connection.Pool.{update, on_dis_connect_cb}
use store_monitor.Hiredis.{Reply}
use store_monitor.Action.Data.{Action, DownServer, put}
use store_monitor.Action.DownList.{free_down_server}
use store_monitor.Action.Info.{is_string}
use store_monitor.Action.Exchange.{update_exchange_state_done_cb}
use store_monitor.Engine.Info.{RedisData, log_monitor_info}
use store_monitor.Engine.Redis.{
  Redis, set_data, on_pool, by_engine, drop_data, redis_dis_connect_cb, take_info_reply, take_state,
}

-- What the query is to say: an error or a reply that is no string means down, a string up, and
-- without either the server is what it was.
unfoldable pub alive_after : Bool → Option Reply → AliveState → AliveState
alive_after true reply x = down
alive_after false none x = x
alive_after false (some r) x = if is_string r.type then up else down

abbrev with_pool : {T : Type 0} → Redis T → Pool → Redis T
with_pool w c = record w {
  world = record (w.world) { client = record (w.world.client) { pool = c } };
}

abbrev marked : {T : Type 0} → AliveState → Ptr → Server → Redis T → Redis T
marked x p s w = with_pool w (record (w.world.client.pool) {
  heap = write w.world.client.pool.heap p (some (record s { server_alive_state = x }));
})

update-marked :
    {T : Type 0} (x : AliveState) (p : Ptr) (s : Server) (w : Redis T)
    → w.world.client.pool.heap p ≡ some s
    → on_pool (update p (λ s. record s { server_alive_state = x })) w ≡ some (marked x p s w)
unfolding on_pool update modify
update-marked x p s w e = rw (on_pool, update, modify, e) refl

-- The data of the query is there: with the properties of the server, and a text in a string reply.
pub record IsQueried {T : Type 0} (w : Redis T) (p : Ptr) (d : RedisData) (s : Server)
    (detail : DownServer) : Type 0 where
  pub server : w.world.client.pool.heap p ≡ some s
  pub data_there : w.priv_data p ≡ some d
  pub detail_there : w.world.action.servers d.server_detail ≡ some detail

-- Every string of hiredis has a text.
abbrev pub HasText : Option Reply → Type 0
HasText none = Unit
HasText (some r) = is_string r.type ≡ true → (t : Str) × (r.str ≡ some t)

module _ {T : Type 0} (now : ℕ) (p : Ptr) (w : Redis T) (d : RedisData) (s : Server)
    (detail : DownServer) (v : IsQueried w p d s detail) where
  Took : Option (Redis T) → AliveState → Type 0
  Took o x =
      (w' : Redis T) × (t : Server) × (o ≡ some w')
      × (w'.world.client.pool.heap p ≡ some t)
      × (t.server_alive_state ≡ x)

  Took-marked :
      (x : AliveState) → Took (on_pool (update p (λ s. record s { server_alive_state = x })) w) x
  unfolding Took
  Took-marked x = (
    marked x p s w,
    record s { server_alive_state = x },
    update-marked x p s w v.server,
    write_eq w.world.client.pool.heap p _,
    refl,
  )

  Took-string :
      (str : Option Str) (t : Str)
      → str ≡ some t
      → Took
          (on_pool (update p (λ s. record s { server_alive_state = up })) w
            >>= take_info_reply now p str)
          up
  unfolding Took take_info_reply set_data
  Took-string str t e = (
    set_data p (some (log_monitor_info now t detail.server_property d)) (marked up p s w),
    record s { server_alive_state = up },
    bind-some (on_pool (update p (λ s. record s { server_alive_state = up })) w) (marked up p s w)
          (take_info_reply now p str) (update-marked up p s w v.server)
        ∙ rw (e, v.data_there, v.detail_there) refl,
    write_eq w.world.client.pool.heap p _,
    refl,
  )

  -- The reply to `INFO` decides the state that the server is in from then on, and nothing faults.
  pub take_state-alive :
      (err : Bool) (reply : Option Reply)
      → HasText reply
      → (w' : Redis T) × (t : Server) × (take_state now p err reply w ≡ some w')
        × (w'.world.client.pool.heap p ≡ some t)
        × (t.server_alive_state ≡ alive_after err reply s.server_alive_state)
  unfolding Took take_state alive_after
  take_state-alive true reply h = Took-marked down
  take_state-alive false none h = (w, s, refl, v.server, refl)
  take_state-alive false (some r) h = elim (Bool-cases (is_string r.type)) [
    | inl text ↦ let (t, e) = h text in rw text (Took-string r.str t e)
    | inr other ↦ rw other (Took-marked down)
  ]

module _ (H : UtHash) (split_raw : Str → List Str) where
  open H use {Table}

  -- The connection goes while an `HGETALL` for its server is on the way, as one is from the first
  -- query on: the record of the server's properties is freed with the connection, and the reply,
  -- whatever it is, reads it.
  pub dis_connect-late :
      (p : Ptr) (w : Redis Table) (d : RedisData) (s : Server) (detail : DownServer) (c : Pool)
      (engine : Ptr) (err : Bool) (reply : Option Reply)
      → IsQueried w p d s detail
      → d.server_detail ≢ null
      → s.engine ≡ some engine
      → s.priv_data ≡ none
      → on_dis_connect_cb p w.world.client.pool ≡ some c
      → (w' : Redis Table) × (redis_dis_connect_cb p w ≡ some w')
        × (update_exchange_state_done_cb H split_raw err reply d.server_detail w'.world.action
            ≡ none)
  unfolding redis_dis_connect_cb drop_data by_engine on_pool free_down_server put set_data
      update_exchange_state_done_cb
  dis_connect-late p w d s detail c engine err reply v n e u f =
      let k : (d.server_detail == null) ≡ false = ground arith in
      let a : Action Table = record (w.world.action) {
        servers = put w.world.action.servers d.server_detail none;
      } in
      (
        with_pool (set_data p none (record w { world = record (w.world) { action = a } })) c,
        rw (v.server, u, v.data_there, k, v.detail_there, v.server, e, f) refl,
        ground arith,
      )
