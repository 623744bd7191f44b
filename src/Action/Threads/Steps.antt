-- ===== src/Action/Threads/Steps.antt =====
-- Every step keeps the invariant, and a thread that ends finds its server.
use store_monitor.Common.{
  ap, ℕ, ◌≡◌, ◌≢◌, inl, inr, refl, sym, subst, ◌∙◌, arith, Bool, Option, none, some, List, [], Str,
}
use store_monitor.Common.Hash.{UtHash}
use store_monitor.Connection.Data.{Ptr}
use store_monitor.Config.{Config}
use store_monitor.Action.Data.{Action, DownServer, exchanging, put, modify}
use store_monitor.Action.DownList.{action_init}
use store_monitor.Action.DownList.Laws.{
  Items-put, Added, already, malformed, added, add-Added, Removed, absent, refused, removed,
  rm-Removed, Removed-IsWellFormed, Added-IsWellFormed,
}
use store_monitor.Action.Exchange.{
  SystemResult, failed, status, after_exchange, exchange_command, action_thread, remove_first,
  thread_ends,
}
use store_monitor.Action.Threads.{
  Step, Reached, starts, goes_on, adds, removes, acts, informs, tells, ends, threads_of,
}
use store_monitor.Action.Threads.Cells.{Thread, Thread-idle, Thread-put, Thread-end}
use store_monitor.Action.Threads.Changes.{Changed, tells-Changed, informs-Changed}
use store_monitor.Action.Threads.Acts.{action_of, acts-Changed}
use store_monitor.Action.Threads.Safe.{put-Above, put-Used, some_used, IsSafe, Changed-IsSafe}

after-key : (r : SystemResult) (s : DownServer) → (after_exchange r s).ip_port_type ≡ s.ip_port_type
unfolding after_exchange
after-key failed s = refl
after-key (status n) s = ground arith

after-used : (r : SystemResult) (s : DownServer) → (after_exchange r s).is_no_use ≡ s.is_no_use
unfolding after_exchange
after-used failed s = refl
after-used (status n) s = ground arith

module _ (system : Str → SystemResult) (config : Config) (s : DownServer) where
  thread-key : (action_thread system config s).ip_port_type ≡ s.ip_port_type
  unfolding action_thread
  thread-key = after-key (system (exchange_command config s)) s

  thread-used : (action_thread system config s).is_no_use ≡ s.is_no_use
  unfolding action_thread
  thread-used = after-used (system (exchange_command config s)) s

on_heap : (n : ℕ) (o : Option DownServer) → n ≢ 0 → Thread n o → (s : DownServer) × (o ≡ some s)
on_heap n o h (inl e) = absurd (h e)
on_heap n none h (inr e) = let f : none ≡ some exchanging = e.1 in cc
on_heap n (some s) h (inr e) = (s, refl)

module _ (H : UtHash) (split : Str → List Str) where
  module _ (key : Str) (a : Action H.Table) (v : IsSafe H split a) where
    Added-IsSafe : (r : Bool × Action H.Table) → Added H split key a v.list r → IsSafe H split r.1
    Added-IsSafe _ (already h) = v
    Added-IsSafe _ (malformed h e) = record {
      list = Added-IsWellFormed H split key a v.list (malformed h e);
      above = λ q le. v.above q (omega arith);
      used = v.used;
      threads = v.threads;
    }
    Added-IsSafe _ (added {b} {s} out good hs hf hi hr) = record {
      list = Added-IsWellFormed H split key a v.list (added out good hs hf hi hr);
      above = rw (hs, hf) (λ q le. unfold put in ground (arith, v.above q));
      used =
          rw hs (
            put-Used a.servers a.fresh (some s) (some_used s (ap (λ t. t.is_no_use) good.4))
              v.used);
      threads =
          rw (hs, hr)
            (Thread-put a.servers a.running a.fresh (some s) v.threads (
              Thread-idle _ (a.servers a.fresh) (some s) (v.threads a.fresh)
                (rw (v.above a.fresh (omega arith)) (λ e. cc))));
    }

    Removed-IsSafe :
        (ok : Bool) (b : Action H.Table)
        → Removed H split key a v.list (some (ok, b))
        → IsSafe H split b
    Removed-IsSafe _ _ (absent h) = v
    Removed-IsSafe _ _ (refused f h n) = v
    Removed-IsSafe _ b (removed {p} {s} f h e hs hf hi hr) = record {
      list = Removed-IsWellFormed H split key a v.list (removed f h e hs hf hi hr);
      above = rw (hs, hf) (put-Above a.servers p none a.fresh h v.above);
      used = rw hs (put-Used a.servers p none (λ t e. cc) v.used);
      threads =
          rw (hs, hr)
            (Thread-put a.servers a.running p none v.threads
              (Thread-idle _ (a.servers p) none (v.threads p) (rw (h, e) (λ k. cc))));
    }

  module _ (system : Str → SystemResult) (config : Config) where
    -- Under the invariant, a thread that ends finds its server on the heap: writing its result does
    -- not fault, and keeps the invariant.
    pub ends-IsSafe :
        (a : Action H.Table) (p : Ptr)
        → IsSafe H split a
        → threads_of p a.running ≢ 0
        → (b : Action H.Table) × (thread_ends system config p a ≡ some b) × IsSafe H split b
    unfolding thread_ends modify
    ends-IsSafe a p v runs =
        let (s, held) = on_heap _ (a.servers p) runs (v.threads p) in
        (
          record a {
            running = remove_first p a.running;
            servers = put a.servers p (some (action_thread system config s));
          },
          rw held refl,
          record {
            list = record {
              keys = v.list.keys;
              items =
                  Items-put a.servers a.fresh p s (action_thread system config s) _ held
                    (thread-key system config s) v.list.items;
            };
            above =
                put-Above a.servers p (some (action_thread system config s)) a.fresh held v.above;
            used =
                put-Used a.servers p (some (action_thread system config s))
                  (some_used (action_thread system config s)
                    (thread-used system config s ∙ v.used p s held))
                  v.used;
            threads =
                Thread-end a.servers a.running p (some (action_thread system config s)) v.threads;
          },
        )

    module _ (split_raw : Str → List Str) where
      -- Every call of the main thread that returns, and every end of a thread, keeps the invariant.
      pub Step-IsSafe :
          (a b : Action H.Table)
          → IsSafe H split a
          → Step H split split_raw system config a b
          → IsSafe H split b
      Step-IsSafe a _ v (adds key) = Added-IsSafe key a v _ (add-Added H split key a v.list)
      Step-IsSafe a b v (removes key ok e) =
          Removed-IsSafe key a v ok b
            (subst (Removed H split key a v.list) e (rm-Removed H split key a v.list))
      Step-IsSafe a _ v (acts {u = t} accepts fuel created p w at e) =
          Changed-IsSafe H split w.action t.action (subst (IsSafe H split) (sym at) v) (
            subst (λ o. Changed w.action (action_of o)) e
              (acts-Changed accepts fuel config w p created))
      Step-IsSafe a b v (informs err reply p e) =
          Changed-IsSafe H split a b v
            (subst (Changed a) e (informs-Changed H split_raw a err reply p (v.used p)))
      Step-IsSafe a b v (tells err reply p e) =
          Changed-IsSafe H split a b v (subst (Changed a) e (tells-Changed a err reply p))
      Step-IsSafe a b v (ends p runs e) =
          let (c, f, s) = ends-IsSafe a p v runs in
          subst (IsSafe H split) (let k : c ≡ b = cc (e, f) in k) s

      init-IsSafe :
          (a : Action H.Table)
          → ((p : Ptr) → a.servers p ≡ none)
          → a.running ≡ []
          → IsSafe H split (action_init H split a)
      unfolding action_init
      init-IsSafe a free idle = record {
        list = record { keys = rw H.iter-empty tt; items = rw H.iter-empty tt };
        above = λ q le. free q;
        used = λ q s e. let f : none ≡ some s = sym (free q) ∙ e in cc;
        threads = λ p. inl (rw idle refl);
      }

      -- Whatever the order in which the analyzer's main thread makes its calls, hiredis brings its
      -- replies and threads end, where no call faults and no thread ends before its start is recorded,
      -- from `actionInit` on with nothing allocated and no thread running:
      -- every server that has a thread is on the heap, in the phase of a running exchange, with one
      -- thread only, and the list of down servers is well-formed.
      pub Reached-IsSafe :
          (a : Action H.Table) → Reached H split split_raw system config a → IsSafe H split a
      Reached-IsSafe _ (starts a free idle) = init-IsSafe a free idle
      Reached-IsSafe b (goes_on {a} r s) = Step-IsSafe a b (Reached-IsSafe a r) s
