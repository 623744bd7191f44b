-- ===== src/Engine/Memcached/Stale.antt =====
-- `memcachedCreateConnectionFn` for a server of which one address cannot be reached and a later one
-- can.
use store_monitor.Common.{
  ℕ, suc, ◌<◌, ◌≡◌, refl, true, false, Option, some, List, ◌∷◌, ◌++◌, Str, decimal, pos,
}
use store_monitor.Connection.Data.{Ptr, Server}
use store_monitor.Engine.Raw.{Attempt, under_way, raw_async_connect}
use store_monitor.Engine.Raw.Port.{raw_async_connect-port, Passed, try_addresses-stale}
use store_monitor.Engine.Memcached.{Engine, memcached_create_connection_fn}

connect-stale :
    (resolve : Str → Option (List Attempt)) (port : ℕ) (a : Attempt) (before after : List Attempt)
    → port < 32768
    → resolve (decimal port) ≡ some (a ∷ before ++ under_way ∷ after)
    → Passed (a ∷ before)
    → (n : ℕ) × (raw_async_connect resolve port ≡ (pos (suc n), true))
unfolding raw_async_connect
connect-stale resolve port a before after small found v =
    let (n, e) = try_addresses-stale a before after v in
    (n, rw (raw_async_connect, (raw_async_connect-port resolve port).0 small, found) e)

-- Where a port that a `short` can hold leads to addresses of which the first ones are passed over and
-- a connection is under way at a later one, there is an open socket, but the error of an earlier
-- address is still set: the function takes the connect for failed and returns -1, and the server
-- gets no connection and no context keeps the socket.
pub create-stale :
    {T : Type 0} (resolve : Str → Option (List Attempt)) (p : Ptr) (w : Engine T) (s : Server)
    (a : Attempt) (before after : List Attempt)
    → w.world.client.pool.heap p ≡ some s
    → s.port < 32768
    → resolve (decimal s.port) ≡ some (a ∷ before ++ under_way ∷ after)
    → Passed (a ∷ before)
    → (n : ℕ) × (w' : Engine T) × (raw_async_connect resolve s.port ≡ (pos (suc n), true))
      × (memcached_create_connection_fn resolve p w ≡ some (false, w'))
      × (w'.world ≡ w.world)
      × (w'.contexts ≡ w.contexts)
unfolding memcached_create_connection_fn
create-stale resolve p w s a before after held small found v =
    let (n, e) = connect-stale resolve s.port a before after small found v in
    (n, record w { fresh_context = suc w.fresh_context }, e, rw (held, e) refl, refl, refl)
