-- ===== src/Action/Threads/Changes.antt =====
-- What the callbacks and the dispatch do to the down servers: they change one record, or start a
-- thread for it.
use store_monitor.Common.{
  ◌>>=◌, if◌then◌else◌, ◌≡◌, inl, inr, refl, Bool, true, false, Option-cases, Option, none, some,
  List, [], ◌∷◌, Str,
}
use store_monitor.Common.Hash.{UtHash}
use store_monitor.Connection.Data.{Ptr}
use store_monitor.Hiredis.{
  Reply, ReplyType, nil, error, status, integer, string, array, other, Element,
}
use store_monitor.Action.Data.{
  Action, DownServer, exchange, exchanging, set_phase, set_to_be_updated, put, modify,
}
use store_monitor.Action.Info.{Outcome}
use store_monitor.Action.Info.Laws.{Keeps, After, update-Keeps}
use store_monitor.Action.Exchange.{
  start_exchange_for_server, take_info, update_exchange_state_done_cb,
}
use store_monitor.Action.Exchanged.{update_exchanged_state_done_cb}

module _ {T : Type 0} (a : Action T) where
  pub data Changed : Option (Action T) → Type 0 where
    fault : Changed none
    same : Changed (some a)
    kept :
        {b : Action T} {p : Ptr} {s : DownServer} (t : DownServer)
        → a.servers p ≡ some s
        → Keeps s t
        → b.servers ≡ put a.servers p (some t)
        → b.fresh ≡ a.fresh
        → b.down_server_list ≡ a.down_server_list
        → b.running ≡ a.running
        → Changed (some b)
    started :
        {b : Action T} {p : Ptr} {s : DownServer}
        → a.servers p ≡ some s
        → s.exchange_state.phase ≡ exchange
        → b.servers ≡ put a.servers p (some (set_phase exchanging s))
        → b.fresh ≡ a.fresh
        → b.down_server_list ≡ a.down_server_list
        → b.running ≡ p ∷ a.running
        → Changed (some b)

  modify-Changed :
      (p : Ptr) (f : DownServer → DownServer)
      → ((s : DownServer) → Keeps s (f s))
      → Changed (modify p f a)
  unfolding modify
  modify-Changed p f k = elim (Option-cases (a.servers p)) [
    | inl free ↦ rw (free, modify) fault
    | inr (s, held) ↦ rw (held, modify) (kept (f s) held (k s) refl refl refl refl)
  ]

  Changed-if :
      (b : Bool) (x y : Option (Action T)) → Changed x → Changed y → Changed (if b then x else y)
  Changed-if true x y h k = h
  Changed-if false x y h k = k

  pub tells-Changed :
      (err : Bool) (reply : Option Reply) (p : Ptr)
      → Changed (update_exchanged_state_done_cb err reply p a)
  unfolding update_exchanged_state_done_cb
  tells-Changed true reply p = same
  tells-Changed false none p = same
  tells-Changed false (some r) p =
      Changed-if _ (some a) (modify p (set_to_be_updated true) a) same
        (modify-Changed p (set_to_be_updated true) (λ s. (refl, refl, refl)))

  pub start-Changed :
      (created : Bool) (p : Ptr) (s : DownServer)
      → a.servers p ≡ some s
      → s.exchange_state.phase ≡ exchange
      → Changed (start_exchange_for_server created p a)
  unfolding start_exchange_for_server modify
  start-Changed false p s held e = same
  start-Changed true p s held e = rw (held, modify) (started held e refl refl refl refl)

  After-Changed :
      (p : Ptr) (s : DownServer) (o : Outcome)
      → a.servers p ≡ some s
      → After s o
      → Changed (o >>= λ r. some (record a { servers = put a.servers p (some r.1) }))
  After-Changed p s none held h = fault
  After-Changed p s (some (ok, t)) held h = kept t held h refl refl refl refl

module _ (H : UtHash) (split_raw : Str → List Str) (a : Action H.Table) where
  take_info-Changed :
      (p : Ptr) (s : DownServer) (es : List Element)
      → a.servers p ≡ some s
      → Changed a (take_info H split_raw p es a)
  unfolding take_info
  take_info-Changed p s [] held = same
  take_info-Changed p s (e ∷ es) held = rw held (
      After-Changed a p s _ held
        (update-Keeps (λ k. H.find_str k a.down_server_list) split_raw (e ∷ es) s))

  reply-Changed :
      (p : Ptr) (s : DownServer) (r : Reply) (x : ReplyType)
      → a.servers p ≡ some s
      → Changed a (elim x [ array ↦ take_info H split_raw p r.elements a | _ ↦ some a ])
  reply-Changed p s r nil held = same
  reply-Changed p s r error held = same
  reply-Changed p s r status held = same
  reply-Changed p s r integer held = same
  reply-Changed p s r string held = same
  reply-Changed p s r array held = take_info-Changed p s r.elements held
  reply-Changed p s r other held = same

  pub informs-Changed :
      (err : Bool) (reply : Option Reply) (p : Ptr)
      → ((s : DownServer) → a.servers p ≡ some s → s.is_no_use ≡ false)
      → Changed a (update_exchange_state_done_cb H split_raw err reply p a)
  unfolding update_exchange_state_done_cb
  informs-Changed err reply p used = elim (Option-cases (a.servers p)) [
    | inl free ↦ rw free fault
    | inr (s, held) ↦ rw (held, used s held) (answer err reply s held)
  ]
    where
      answer :
          (err : Bool) (reply : Option Reply) (s : DownServer)
          → a.servers p ≡ some s
          → Changed a (
              if err then some a else elim reply [
                | none ↦ some a
                | some r ↦ elim r.type [ array ↦ take_info H split_raw p r.elements a | _ ↦ some a ]
              ])
      answer true reply s held = same
      answer false none s held = same
      answer false (some r) s held = reply-Changed p s r r.type held
