-- ===== src/Action/Exchange/Laws.antt =====
-- The exchange thread and its races with the main thread.
use store_monitor.Common.{
  ◌≡◌, refl, subst, Bool, true, ◌>>=◌, Option, none, some, List, ◌∷◌, arith, Str,
}
use store_monitor.Common.Hash.{UtHash, lookup}
use store_monitor.Common.Hash.Laws.{lookup-has_key}
use store_monitor.Connection.Data.{Ptr}
use store_monitor.Config.{Config}
use store_monitor.Hiredis.{Reply}
use store_monitor.Action.Data.{Action, DownServer, exchange, exchanging, set_phase, put, modify}
use store_monitor.Action.DownList.{rm_server_from_down_list}
use store_monitor.Action.DownList.Laws.{IsWellFormed, Removed, absent, refused, removed, rm-Removed}
use store_monitor.Action.Exchange.{
  SystemResult, action_thread, remove_first, thread_ends, update_exchange_state_done_cb,
}

-- A run of `startExchangeForServer` in which the thread ends between `pthread_create` and the store
-- of the state.
pub early_end : {T : Type 0} → (Str → SystemResult) → Config → Ptr → Action T → Option (Action T)
unfolding thread_ends modify
early_end system config p a = do
  a ← thread_ends system config p (record a { running = p ∷ a.running })
  modify p (set_phase exchanging) a

self_first : (p : Ptr) (ps : List Ptr) → remove_first p (p ∷ ps) ≡ ps
unfolding remove_first
self_first p ps = ground arith

put_eq : (h : Ptr → Option DownServer) (p : Ptr) (c : Option DownServer) → put h p c p ≡ c
unfolding put
put_eq h p c = ground arith

dangling_reply :
    (H : UtHash) (split_raw : Str → List Str) (err : Bool) (reply : Option Reply) (p : Ptr)
    (b : Action H.Table)
    → b.servers p ≡ none
    → update_exchange_state_done_cb H split_raw err reply p b ≡ none
unfolding update_exchange_state_done_cb
dangling_reply H split_raw err reply p b e = rw e

-- In that run, whatever the script returns, the server ends in the state of a running exchange, and
-- no thread runs but those that ran before, which could end it.
pub early_end-stuck :
    {T : Type 0} (system : Str → SystemResult) (config : Config) (p : Ptr) (a : Action T)
    {s : DownServer}
    → a.servers p ≡ some s
    → (b : Action T) × (t : DownServer) × (early_end system config p a ≡ some b)
      × (b.servers p ≡ some t)
      × (t.exchange_state.phase ≡ exchanging)
      × (b.running ≡ a.running)
unfolding early_end thread_ends modify
early_end-stuck system config p a {s} held = (
  record a {
    servers =
        put (put a.servers p (some (action_thread system config s))) p
          (some (set_phase exchanging (action_thread system config s)));
    running = remove_first p (p ∷ a.running);
  },
  set_phase exchanging (action_thread system config s),
  rw (held, modify, put_eq a.servers p (some (action_thread system config s))) refl,
  put_eq _ p _,
  refl,
  self_first p a.running,
)

-- A use after free: on a well-formed list, a server in the first phase is freed by
-- `rmServerFromDownList`, and the callback of an `HGETALL` sent for it before, whatever it brings,
-- then reads the freed record.
pub reply_after_free :
    (H : UtHash) (split split_raw : Str → List Str) (key : Str) (a : Action H.Table) (p : Ptr)
    (s : DownServer) (err : Bool) (reply : Option Reply)
    → IsWellFormed H split a
    → lookup key (H.iter a.down_server_list) ≡ some p
    → a.servers p ≡ some s
    → s.exchange_state.phase ≡ exchange
    → (b : Action H.Table) × (rm_server_from_down_list H split key a ≡ some (true, b))
      × (update_exchange_state_done_cb H split_raw err reply p b ≡ none)
reply_after_free H split split_raw key a p s err reply v at held start =
    by_branch (rm-Removed H split key a v)
  where
    same_phase :
        {q : Ptr} {t : DownServer}
        → lookup key (H.iter a.down_server_list) ≡ some q
        → a.servers q ≡ some t
        → t.exchange_state.phase ≡ exchange
    same_phase {q} {t} f h = same_record (at_same f) h
      where
        at_same : lookup key (H.iter a.down_server_list) ≡ some q → p ≡ q
        at_same e = cc

        same_record : p ≡ q → a.servers q ≡ some t → t.exchange_state.phase ≡ exchange
        same_record e k = ground arith

    gone :
        {q : Ptr} (b : Action H.Table)
        → lookup key (H.iter a.down_server_list) ≡ some q
        → b.servers ≡ put a.servers q none
        → b.servers p ≡ none
    gone {q} b f hs = rw hs (at_same f)
      where
        at_same : lookup key (H.iter a.down_server_list) ≡ some q → put a.servers q none p ≡ none
        at_same e =
            subst (λ r. put a.servers r none p ≡ none) (let w : p ≡ q = cc in w)
              (put_eq a.servers p none)

    by_branch :
        {r : Option (Bool × Action H.Table)}
        → Removed H split key a v r
        → (b : Action H.Table) × (r ≡ some (true, b))
          × (update_exchange_state_done_cb H split_raw err reply p b ≡ none)
    by_branch (absent h) = cc (h, lookup-has_key key p _ at)
    by_branch (refused f h n) = absurd (n (same_phase f h))
    by_branch (removed {b} f h e hs hf hi hr) =
        (b, refl, dangling_reply H split_raw err reply p b (gone b f hs))
