-- ===== src/Action/Threads.antt =====
-- action.c: the exchange threads beside the operations of the main thread. Each step is a call that
-- the main thread makes, or the end of a thread.
pub mod Cells
pub mod Changes
pub mod Acts
pub mod Safe
pub mod Steps
use store_monitor.Common.{ℕ, ◌≡◌, ◌≢◌, Bool, Option, none, some, List, Str}
use store_monitor.Common.Hash.{UtHash}
use store_monitor.Connection.Data.{Ptr}
use store_monitor.Config.{Config}
use store_monitor.Hiredis.{Reply, Accepts}
use store_monitor.Action.Data.{Action, World}
use store_monitor.Action.DownList.{add_server_to_down_list, rm_server_from_down_list, action_init}
use store_monitor.Action.Exchange.{SystemResult, thread_ends, update_exchange_state_done_cb}
use store_monitor.Action.Exchanged.{update_exchanged_state_done_cb, do_action_to_down_server}
use store_monitor.Common.{◌==◌, if◌then◌else◌, suc, [], ◌∷◌}

-- How many threads run for the server at an address.
abbrev pub threads_of : Ptr → List Ptr → ℕ
threads_of p [] = 0
threads_of p (q ∷ qs) = if p == q then suc (threads_of p qs) else threads_of p qs

module _ (H : UtHash) (split split_raw : Str → List Str) (system : Str → SystemResult)
    (config : Config) where
  pub data Step (a : Action H.Table) : Action H.Table → Type 0 where
    adds : (key : Str) → Step a (add_server_to_down_list H split key a).1
    removes :
        {b : Action H.Table} (key : Str) (ok : Bool)
        → rm_server_from_down_list H split key a ≡ some (ok, b)
        → Step a b
    acts :
        {u : World H.Table} (accepts : Accepts) (fuel : ℕ) (created : Bool) (p : Ptr)
        (w : World H.Table)
        → w.action ≡ a
        → do_action_to_down_server accepts fuel config created p w ≡ some u
        → Step a u.action
    informs :
        {b : Action H.Table} (err : Bool) (reply : Option Reply) (p : Ptr)
        → update_exchange_state_done_cb H split_raw err reply p a ≡ some b
        → Step a b
    tells :
        {b : Action H.Table} (err : Bool) (reply : Option Reply) (p : Ptr)
        → update_exchanged_state_done_cb err reply p a ≡ some b
        → Step a b
    ends :
        {b : Action H.Table} (p : Ptr)
        → threads_of p a.running ≢ 0
        → thread_ends system config p a ≡ some b
        → Step a b

  -- The states that steps lead to.
  pub data Reached : Action H.Table → Type 0 where
    starts :
        (a : Action H.Table)
        → ((p : Ptr) → a.servers p ≡ none)
        → a.running ≡ []
        → Reached (action_init H split a)
    goes_on : {a b : Action H.Table} → Reached a → Step a b → Reached b
