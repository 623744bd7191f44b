-- ===== src/Examples/Configs.antt =====
-- A configuration with a comment, a setting and three servers, and a key that is taken apart.
use store_monitor.Common.{
  ℕ, ◌==◌, ◌≤◌, ◌≡◌, refl, ap, ◌∙◌, arith, Bool, true, Option, none, some, List, [], ◌∷◌, ◌++◌, Str,
  codes, str_eq, length, if◌then◌else◌, join, All, decimal,
}
use store_monitor.Common.Text.Search.{Lacks}
use store_monitor.Common.Hash.{lookup}
use store_monitor.Connection.Data.{Ptr}
use store_monitor.Connection.Pool.{id_key}
use store_monitor.Action.Data.{DownServer}
use store_monitor.Action.DownList.{add_server_to_down_list}
use store_monitor.Action.DownList.Keys.{SplitsKeys, add_server-id_key}
use store_monitor.Config.Load.{Loading, load_config, strcasecmp}
use store_monitor.Config.Load.Servers.{IsQueued}
use store_monitor.Config.Load.Queued.{
  Readable, lines_declared, line_declared, declared_by, own_queues, writers, servers_at, addresses,
  load_config-IsQueued,
}
use store_monitor.Examples.Data.{assoc, pool}
use store_monitor.Examples.Actions.{one, config}

unfoldable pub push : ℕ → List Str → List Str
push c [] = (c ∷ []) ∷ []
push c (w ∷ ws) = (c ∷ w) ∷ ws

-- The parts between the bytes `c`.
unfoldable pub cut : ℕ → Str → List Str
unfolding push
cut c [] = [] ∷ []
cut c (x ∷ s) = let parts = cut c s in if x == c then [] ∷ parts else push x parts

cut-found : (c : ℕ) (a rest : Str) → Lacks c a → cut c (a ++ c ∷ rest) ≡ a ∷ cut c rest
unfolding cut push
cut-found c [] rest v = ground arith
cut-found c (x ∷ a) rest v = rw (v.0, cut-found c a rest v.1) refl

cut-none : (c : ℕ) (a : Str) → Lacks c a → cut c a ≡ a ∷ []
unfolding cut push
cut-none c [] v = refl
cut-none c (x ∷ a) v = rw (v.0, cut-none c a v.1) refl

cut-SplitsKeys : SplitsKeys (cut b'_')
unfolding join
cut-SplitsKeys a b c u v w =
    cut-found b'_' a (b ++ b'_' ∷ c) u
    ∙ ap (◌∷◌ a) (cut-found b'_' b c v ∙ ap (◌∷◌ b) (cut-none b'_' c w))

address : Lacks b'_' (codes "10.0.0.9")
address = (refl, (refl, (refl, (refl, (refl, (refl, (refl, (refl, tt))))))))

redis : Lacks b'_' (codes "redis")
redis = (refl, (refl, (refl, (refl, (refl, tt)))))

short : length (join b'_' (codes "10.0.0.9" ∷ decimal 6379 ∷ codes "redis" ∷ [])) ≤ 255
unfolding join decimal
short = omega arith

not_there :
    lookup (id_key (codes "10.0.0.9") 6379 (codes "redis")) (assoc.iter one.down_server_list) ≡ none
unfolding lookup id_key str_eq join decimal
not_there = refl

add_server-id_key_example :
    (s : DownServer) × ((add_server_to_down_list assoc
        (cut b'_')
        (id_key (codes "10.0.0.9") 6379 (codes "redis"))
        one).0
      ≡ true)
    × ((add_server_to_down_list assoc
            (cut b'_')
            (id_key (codes "10.0.0.9") 6379 (codes "redis"))
            one).1.servers
          one.fresh
        ≡ some s)
    × (s.ip_port_type ≡ id_key (codes "10.0.0.9") 6379 (codes "redis"))
    × (s.ip ≡ some (codes "10.0.0.9"))
    × (s.port ≡ 6379)
    × (s.type ≡ some (codes "redis"))
add_server-id_key_example =
    add_server-id_key assoc (cut b'_') cut-SplitsKeys (codes "10.0.0.9") 6379 (codes "redis") one
      address redis (omega arith) short not_there

abbrev pub lines : List Str
lines =
    codes "# servers"
    ∷ codes "port 9000"
    ∷ codes "store-server 10.0.0.1 6379 10.0.0.2 6380"
    ∷ codes "meta-server-w 10.0.0.3 6381"
    ∷ []

abbrev pub start : Loading
start = record { config = config; pool = pool; fresh = 10 }

pub start-IsQueued : IsQueued start [] []
start-IsQueued = record {
  queue = record { first = refl; last = refl; chain = tt };
  declared = tt;
  below = tt;
  some_fresh = omega arith;
}

unfoldable pub words : Str → Option (List Str)
words t = some (cut b' ' t)

pub lines-Readable : All (Readable (λ t. 0) (λ t. t) words (λ t. t)) lines
unfolding Readable words cut push
lines-Readable = (tt, (tt, (tt, (tt, tt))))

load_config-IsQueued_example :
    (taken : Bool) × (st' : Loading) × (load_config (λ t. 0) (λ t. t) words (λ t. t) lines start
      ≡ some (taken, st'))
    × (taken ≡ true
        → (qs : List Ptr) × IsQueued st' qs (lines_declared (λ t. 0) (λ t. t) words (λ t. t) lines))
load_config-IsQueued_example =
    load_config-IsQueued (λ t. 0) (λ t. t) words (λ t. t) lines start [] [] lines-Readable
      start-IsQueued

-- The file is taken to its end, and declares three servers.
three_declared : length (lines_declared (λ t. 0) (λ t. t) words (λ t. t) lines) ≡ 3
unfolding words cut push line_declared declared_by strcasecmp str_eq own_queues writers servers_at
    addresses
three_declared = refl
