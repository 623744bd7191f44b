-- ===== src/Action/Threads/Acts.antt =====
-- `doActionToDownServer` changes at most one record, or starts a thread for it.
use store_monitor.Common.{
  ℕ, ◌==◌, ◌>>=◌, if◌then◌else◌, ◌≡◌, inl, inr, refl, Bool, true, false, Bool-cases, Option-cases,
  Option, none, some,
}
use store_monitor.Connection.Data.{Ptr, null}
use store_monitor.Config.{Config}
use store_monitor.Hiredis.{Accepts, Client}
use store_monitor.Meta.{fetch_meta_server_for_read, fetch_meta_server_for_write}
use store_monitor.Action.Data.{
  Action, DownServer, ExchangePhase, exchange, exchanging, exchanged, set_to_be_updated, modify,
  World,
}
use store_monitor.Action.Info.{is_master}
use store_monitor.Action.Exchange.{start_exchange_for_server, update_exchange_state}
use store_monitor.Action.Exchanged.{update_exchanged_state, dispatch, do_action_to_down_server}
use store_monitor.Action.Threads.Changes.{Changed, fault, same, kept, started}

abbrev pub action_of : {T : Type 0} → Option (World T) → Option (Action T)
action_of none = none
action_of (some w) = some w.action

module _ {T : Type 0} (accepts : Accepts) (fuel : ℕ) (config : Config) (w : World T) (p : Ptr) where
  ask-Changed : Changed w.action (action_of (update_exchange_state accepts fuel p w))
  unfolding update_exchange_state
  ask-Changed = elim (Option-cases (w.action.servers p)) [
    | inl free ↦ rw free fault
    | inr (s, held) ↦ rw held (elim (Option-cases (fetch_meta_server_for_read fuel w.client.pool)) [
      | inl stuck ↦ rw stuck fault
      | inr (r, found) ↦ rw found same
    ])
  ]

  flag-Changed :
      (ok : Bool) (client : Client)
      → Changed w.action (
          action_of (
            (if ok then modify p (set_to_be_updated false) w.action else some w.action) >>= λ a.
            some (record w { client = client; action = a })))
  unfolding modify
  flag-Changed false client = same
  flag-Changed true client = elim (Option-cases (w.action.servers p)) [
    | inl free ↦ rw (free, modify) fault
    | inr (s, held) ↦
        rw (held, modify)
          (kept (set_to_be_updated false s) held (refl, refl, refl) refl refl refl refl)
  ]

  tell-Changed : Changed w.action (action_of (update_exchanged_state accepts fuel config p w))
  unfolding update_exchanged_state
  tell-Changed = elim (Option-cases (w.action.servers p)) [
    | inl free ↦ rw free fault
    | inr (s, held) ↦
        rw held (elim (Option-cases (fetch_meta_server_for_write fuel w.client.pool)) [
          | inl stuck ↦ rw stuck fault
          | inr (r, found) ↦ rw found (elim (Bool-cases (r.0 == null)) [
            | inl nobody ↦ rw nobody same
            | inr somebody ↦ rw somebody (flag-Changed _ _)
          ])
        ])
  ]

  start_action-Changed :
      (created : Bool) (s : DownServer)
      → w.action.servers p ≡ some s
      → s.exchange_state.phase ≡ exchange
      → Changed w.action (
          action_of
            (start_exchange_for_server created p w.action >>= λ a. some (record w { action = a })))
  unfolding start_exchange_for_server modify
  start_action-Changed false s held e = same
  start_action-Changed true s held e = rw (held, modify) (started held e refl refl refl refl)

  dispatch-Changed :
      (created : Bool) (s : DownServer) (x : ExchangePhase)
      → w.action.servers p ≡ some s
      → s.exchange_state.phase ≡ x
      → Changed w.action (action_of (dispatch accepts fuel config created p s x w))
  unfolding dispatch
  dispatch-Changed created s exchange held e = elim (Bool-cases s.exchange_state.to_be_updated) [
    | inl ask ↦ rw ask ask-Changed
    | inr known ↦ rw known (elim (Bool-cases (is_master s.server_property.role)) [
      | inl m ↦ rw m (start_action-Changed created s held e)
      | inr n ↦ rw n same
    ])
  ]
  dispatch-Changed created s exchanging held e = same
  dispatch-Changed created s exchanged held e = elim (Bool-cases s.exchange_state.to_be_updated) [
    | inl tell ↦ rw tell tell-Changed
    | inr told ↦ rw told same
  ]

  pub acts-Changed :
      (created : Bool)
      → Changed w.action (action_of (do_action_to_down_server accepts fuel config created p w))
  unfolding do_action_to_down_server
  acts-Changed created = elim (Option-cases (w.action.servers p)) [
    | inl free ↦ rw free fault
    | inr (s, held) ↦ rw held (dispatch-Changed created s s.exchange_state.phase held refl)
  ]
