-- ===== src/Examples/Threads.antt =====
-- The thread theorems, with a thread for the one server, and from the start.
use store_monitor.Common.{
  ◌==◌, ◌≡◌, inl, inr, refl, arith, false, Bool-cases, if◌then◌else◌, none, some, [], ◌∷◌,
}
use store_monitor.Connection.Data.{Ptr}
use store_monitor.Action.Data.{Action, DownServer, exchanging, set_phase}
use store_monitor.Action.DownList.{add_server_to_down_list, action_init}
use store_monitor.Action.Exchange.{status, thread_ends}
use store_monitor.Action.Threads.{Reached, starts, goes_on, adds, threads_of}
use store_monitor.Action.Threads.Cells.{Thread}
use store_monitor.Action.Threads.Safe.{IsSafe}
use store_monitor.Action.Threads.Steps.{ends-IsSafe, Reached-IsSafe}
use store_monitor.Common.Hash.{has_key, has_item}
use store_monitor.Action.Check.{check_action_enable_option_done_cb}
use store_monitor.Action.Data.{World}
use store_monitor.Hiredis.{Reply, string}
use store_monitor.Common.{pos, codes, str_eq, true}
use store_monitor.Examples.Data.{assoc, pool}
use store_monitor.Examples.Actions.{key, split, down, one, config}

abbrev busy : Action assoc.Table
busy = record one {
  servers = λ p. if p == 1 then some (set_phase exchanging down) else none;
  running = 1 ∷ [];
}

busy-Thread : (p : Ptr) → Thread (threads_of p busy.running) (busy.servers p)
busy-Thread p = elim (Bool-cases (p == 1)) [
  | inl hit ↦ rw hit (inr (refl, refl))
  | inr miss ↦ rw miss (inl refl)
]

busy-used : (p : Ptr) (s : DownServer) → busy.servers p ≡ some s → s.is_no_use ≡ false
busy-used p s = elim (Bool-cases (p == 1)) [
  | inl hit ↦ rw hit (λ e. ground arith)
  | inr miss ↦ rw miss (λ e. cc)
]

busy-IsSafe : IsSafe assoc split busy
unfolding has_key has_item
busy-IsSafe = record {
  list = record {
    keys = (refl, tt);
    items = (set_phase exchanging down, refl, refl, omega arith, refl, tt);
  };
  above = λ q le. ground arith;
  used = busy-used;
  threads = busy-Thread;
}

ends-IsSafe_example :
    (b : Action assoc.Table) × (thread_ends (λ c. status 0) config 1 busy ≡ some b)
    × IsSafe assoc split b
ends-IsSafe_example =
    ends-IsSafe assoc split (λ c. status 0) config busy 1 busy-IsSafe (λ e. omega (arith, e))

abbrev nothing : Action assoc.Table
nothing = record one { servers = λ p. none; down_server_list = [] }

abbrev added_one : Action assoc.Table
added_one = (add_server_to_down_list assoc split key (action_init assoc split nothing)).1

added_one-Reached : Reached assoc split split (λ c. status 0) config added_one
added_one-Reached = goes_on (starts nothing (λ p. refl) refl) (adds key)

Reached-IsSafe_example : IsSafe assoc split added_one
Reached-IsSafe_example =
    Reached-IsSafe assoc split (λ c. status 0) config split added_one added_one-Reached

abbrev enabling : Reply
enabling = record { type = string; str = some (codes "1"); value = pos 0; elements = [] }

abbrev working : World assoc.Table
working = record { client = record { pool = pool; sent = [] }; action = busy }

working_done :
    check_action_enable_option_done_cb assoc
      (λ m. true)
      1
      config
      (λ p. true)
      false
      (some enabling)
      working
    ≡ some working
unfolding check_action_enable_option_done_cb str_eq
working_done = refl
