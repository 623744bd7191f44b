-- ===== src/Engine/Memcached/Lost.antt =====
-- A raw connection to a monitored server that could not be made, or that is given up after a
-- timeout: the server goes back to the queue of unconnected servers.
use store_monitor.Common.{
  ◌==◌, ◌≡◌, ◌≢◌, refl, ap, ◌∙◌, arith, true, false, Option, none, some, List, [], ◌∷◌, ◌++◌, ℤ,
}
use store_monitor.Connection.Data.{
  Server, ServerRole, ConnectionState, connect, Ptr, null, Pool, unconnected_servers, write_eq,
}
use store_monitor.Connection.Queue.Links.{has, IsQueue}
use store_monitor.Connection.Queue.Append.{add-append}
use store_monitor.Connection.Callbacks.{cleared, clears, cleared-queues}
use store_monitor.Connection.Pool.{queue_of, with_queue, add_to, disconnected, on_dis_connect_cb}
use store_monitor.Action.Data.{DownServer, put, modify}
use store_monitor.Engine.Raw.{RawContext, no_error}
use store_monitor.Engine.Memcached.{
  RacData, Engine, set_context, on_pool, on_action, no_data, release, drop_server_info,
  memcached_dis_connect_cb, raw_async_dis_connect, memcached_connect_cb, raw_async_connect_done,
}

add_back :
    (p : Ptr) (t : Server) (x : ConnectionState) (r : ServerRole) (c : Pool)
    → x ≡ connect
    → t.server_role ≡ ServerRole.monitor
    → disconnected p t x c ≡ add_to unconnected_servers p c
unfolding disconnected
add_back p t x r c e f = rw (e, f) refl

-- `onDisConnectCb` for a monitored server whose connection is still to be made, or was given up.
pub unconnected-queued :
    (p : Ptr) (c : Pool) (s : Server) (ps : List Ptr)
    → c.heap p ≡ some s
    → s.connection_state ≡ connect
    → s.server_role ≡ ServerRole.monitor
    → p ≢ null
    → IsQueue c.heap c.unconnected_server_queue ps
    → has p ps ≡ false
    → (d : Pool) × (on_dis_connect_cb p c ≡ some d)
      × IsQueue d.heap d.unconnected_server_queue (ps ++ p ∷ [])
unfolding queue_of with_queue add_to
unconnected-queued p c s ps held state role ne v out =
    let c' = cleared p c s held in
    let (g, r, a) =
      add-append c'.unconnected_server_queue ps (write_eq c.heap p _) ne
        (cleared-queues p c s held unconnected_servers ps out v) out in
    (
      with_queue unconnected_servers (g, r) c',
      clears p c s held
          ∙ add_back p _ s.connection_state s.server_role c' state role
          ∙ rw a.runs refl,
      a.queue,
    )

-- `w` has the context `c` at `p`, for the server `s`, which is still to be connected, with the
-- unconnected servers `ps` and the properties `d` of a server that no meta server has told of.
pub record IsLinked {T : Type 0} (w : Engine T) (p : Ptr) (c : RawContext RacData) (s : Server)
    (ps : List Ptr) (d : DownServer) : Type 0 where
  pub context : w.contexts p ≡ some c
  pub server : w.world.client.pool.heap c.rac_data.server ≡ some s
  pub engine : Ptr
  pub has_engine : s.engine ≡ some engine
  pub state : s.connection_state ≡ connect
  pub role : s.server_role ≡ ServerRole.monitor
  pub not_null : c.rac_data.server ≢ null
  pub queue : IsQueue w.world.client.pool.heap w.world.client.pool.unconnected_server_queue ps
  pub outside : has c.rac_data.server ps ≡ false
  pub info : w.world.action.servers c.rac_data.server_info ≡ some d
  pub info_not_null : c.rac_data.server_info ≢ null
  pub unasked : d.server_property.pid ≡ none

-- What is left: the server is last among the unconnected, the context is gone, and the properties
-- are marked as of no use.
pub record IsGivenUp {T : Type 0} (w' : Engine T) (p : Ptr) (c : RawContext RacData) (ps : List Ptr)
    (d : DownServer) : Type 0 where
  pub queue :
      IsQueue w'.world.client.pool.heap w'.world.client.pool.unconnected_server_queue
        (ps ++ c.rac_data.server ∷ [])
  pub context : w'.contexts p ≡ none
  pub info : w'.world.action.servers c.rac_data.server_info ≡ some (record d { is_no_use = true })

on_pool-run :
    {T : Type 0} (f : Pool → Option Pool) (w : Engine T) (c : Pool)
    → f w.world.client.pool ≡ some c
    → on_pool f w
      ≡ some
          (record w { world = record (w.world) { client = record (w.world.client) { pool = c } } })
unfolding on_pool
on_pool-run f w c e = rw e refl

-- The world in which the down server at `q` is `d`.
abbrev with_server : {T : Type 0} → Ptr → Option DownServer → Engine T → Engine T
with_server q d w = record w {
  world = record (w.world) {
    action = record (w.world.action) { servers = put w.world.action.servers q d };
  };
}

drop_server_info-unasked :
    {T : Type 0} (q : Ptr) (w : Engine T) (d : DownServer)
    → w.world.action.servers q ≡ some d
    → q ≢ null
    → d.server_property.pid ≡ none
    → drop_server_info q w ≡ some (with_server q (some (record d { is_no_use = true })) w)
unfolding drop_server_info release on_action
drop_server_info-unasked q w d e n f =
    let k : (q == null) ≡ false = ground arith in rw (k, e) refl ∙ ap (λ x. release x q w) f ∙ runs
  where
    runs : release none q w ≡ some (with_server q (some (record d { is_no_use = true })) w)
    runs = rw (modify, e) refl

module _ {T : Type 0} (w : Engine T) (p : Ptr) (c : RawContext RacData) (s : Server) (ps : List Ptr)
    (d : DownServer) (v : IsLinked w p c s ps d) where
  pub raw_async_dis_connect-queued :
      (w' : Engine T) × (raw_async_dis_connect p w ≡ some w') × IsGivenUp w' p c ps d
  unfolding raw_async_dis_connect memcached_dis_connect_cb set_context put
  raw_async_dis_connect-queued =
      let (pool, runs, queue) =
        unconnected-queued c.rac_data.server w.world.client.pool s ps v.server v.state v.role
          v.not_null v.queue v.outside in
      let w1 = record w {
        world = record (w.world) { client = record (w.world.client) { pool = pool } };
      } in
      let w2 = with_server c.rac_data.server_info (some (record d { is_no_use = true })) w1 in
      (
        set_context p none (set_context p (some (record c { rac_data = no_data })) w2),
        rw
            (
              v.context,
              v.server,
              v.has_engine,
              on_pool-run (on_dis_connect_cb c.rac_data.server) w pool runs,
              drop_server_info-unasked c.rac_data.server_info w1 d v.info v.info_not_null v.unasked,
            )
            refl,
        record { queue = queue; context = ground arith; info = ground arith },
      )

-- A connect that fails in the end, with whatever error: nothing faults, the monitored server goes
-- last into the queue of unconnected servers, the context is gone, and the record of the server's
-- properties, for which no meta server has answered, stays and is marked as of no use.
pub connect_done-failure :
    {T : Type 0} (w : Engine T) (p : Ptr) (c : RawContext RacData) (s : Server) (ps : List Ptr)
    (d : DownServer) (e : ℤ)
    → IsLinked w p c s ps d
    → no_error e ≡ false
    → (w' : Engine T) × (raw_async_connect_done p e w ≡ some w') × IsGivenUp w' p c ps d
unfolding raw_async_connect_done memcached_connect_cb
connect_done-failure {T} w p c s ps d e v f =
    let c1 : RawContext RacData = record c { err = e; connected = false } in
    let w1 : Engine T = set_context p (some c1) w in
    let (w', runs, g) = raw_async_dis_connect-queued w1 p c1 s ps d linked in
    (w', rw (v.context, f) runs, record { queue = g.queue; context = g.context; info = g.info })
  where
    linked :
        IsLinked
          (set_context p (some (record c { err = e; connected = false })) w)
          p
          (record c { err = e; connected = false })
          s
          ps
          d
    linked =
        unfold set_context in
        record {
          context = ground arith;
          server = v.server;
          engine = v.engine;
          has_engine = v.has_engine;
          state = v.state;
          role = v.role;
          not_null = v.not_null;
          queue = v.queue;
          outside = v.outside;
          info = v.info;
          info_not_null = v.info_not_null;
          unasked = v.unasked;
        }
