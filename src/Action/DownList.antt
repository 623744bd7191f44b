-- ===== src/Action/DownList.antt =====
-- action.c: the list of down servers.
pub mod Laws
pub mod Keys
use store_monitor.Common.{
  ℕ, suc, ◌==◌, if◌then◌else◌, ◌>>=◌, Bool, true, false, Option, none, some, List, [], ◌∷◌, Str,
  atoi, to_u16,
}
use store_monitor.Common.Hash.{UtHash}
use store_monitor.Connection.Data.{Ptr}
use store_monitor.Action.Data.{
  Action, DownServer, ExchangePhase, exchange, exchanging, exchanged, no_property, put, check,
}

-- The record of a server that was found down, from the parts of its key.
unfoldable pub new_down_server : Str → List Str → Option DownServer
new_down_server key (ip ∷ port ∷ type ∷ []) = some (record {
  ip_port_type = key;
  ip = some ip;
  port = to_u16 (atoi port);
  type = some type;
  exchange_state = record { phase = exchange; to_be_updated = true };
  is_no_use = false;
  server_property = no_property;
})
new_down_server key _ = none

-- `freeDownServer`.
unfoldable pub free_down_server : {T : Type 0} → Ptr → Action T → Option (Action T)
free_down_server p a = do s ← a.servers p; some (record a { servers = put a.servers p none })

removable : ExchangePhase → Bool
removable exchange = true
removable exchanging = false
removable exchanged = false

module _ (H : UtHash) (split : Str → List Str) where
  open H use {Table, empty, find_str, add_keyptr, del}

  -- `actionInit`.
  unfoldable pub action_init : Action Table → Action Table
  action_init a = record a {
    down_server_list = empty;
    action_enable = false;
    check_action_enable_option = check;
  }

  -- `addServerToDownList`, with `sdssplitlen(key, sdslen(key), "_", 1, &count)`; false is the
  -- return value -1.
  unfoldable pub add_server_to_down_list : Str → Action Table → Bool × Action Table
  unfolding new_down_server
  add_server_to_down_list key a = elim (find_str key a.down_server_list) [
    | some _ ↦ (true, a)
    | none ↦ elim (new_down_server key (split key)) [
      | none ↦ (false, record a { fresh = suc a.fresh })
      | some s ↦ (
        true,
        record a {
          servers = put a.servers a.fresh (some s);
          fresh = suc a.fresh;
          down_server_list = add_keyptr key a.fresh a.down_server_list;
        },
      )
    ]
  ]

  -- `rmServerFromDownList`; false is the return value -1.
  unfoldable pub rm_server_from_down_list : Str → Action Table → Option (Bool × Action Table)
  unfolding removable free_down_server
  rm_server_from_down_list key a = elim (find_str key a.down_server_list) [
    | none ↦ some (true, a)
    | some p ↦ do
      s ← a.servers p
      if removable s.exchange_state.phase
          then (do
            a ← free_down_server p (record a { down_server_list = del p a.down_server_list })
            some (true, a))
          else some (false, a)
  ]
