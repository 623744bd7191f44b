-- ===== src/Action/Threads/Safe.antt =====
-- The invariant of the exchange threads.
use store_monitor.Common.{
  ◌≤◌, ◌==◌, ◌≡◌, inl, inr, refl, sym, subst, ◌∙◌, arith, false, Bool-cases, Option, none, some,
  List, Str,
}
use store_monitor.Common.Hash.{UtHash}
use store_monitor.Connection.Data.{Ptr}
use store_monitor.Action.Data.{Action, DownServer, exchanging, set_phase, put}
use store_monitor.Action.DownList.Laws.{Items-put, IsWellFormed}
use store_monitor.Action.Threads.{threads_of}
use store_monitor.Action.Threads.Cells.{Thread, Thread-phase, Thread-put, Thread-start}
use store_monitor.Action.Threads.Changes.{Changed, same, kept, started}

-- Nothing is allocated from `n` on.
abbrev pub Above : (Ptr → Option DownServer) → Ptr → Type 0
Above h n = (q : Ptr) → n ≤ q → h q ≡ none

abbrev pub Used : (Ptr → Option DownServer) → Type 0
Used h = (q : Ptr) (s : DownServer) → h q ≡ some s → s.is_no_use ≡ false

module _ (h : Ptr → Option DownServer) (p : Ptr) (c : Option DownServer) where
  pub put-Above : (n : Ptr) {s : DownServer} → h p ≡ some s → Above h n → Above (put h p c) n
  unfolding put
  put-Above n held v q le = elim (Bool-cases (p == q)) [
    | inl hit ↦ let e : p ≡ q = ground arith in absurd (clash e (v q le))
    | inr miss ↦ rw miss (v q le)
  ]
    where
      clash : p ≡ q → h q ≡ none → ⊥
      clash e f = let g : none ≡ some _ = sym (subst (λ r. h r ≡ none) (sym e) f) ∙ held in cc

  pub put-Used : ((s : DownServer) → c ≡ some s → s.is_no_use ≡ false) → Used h → Used (put h p c)
  unfolding put
  put-Used new v q s = elim (Bool-cases (p == q)) [
    | inl hit ↦ rw hit (new s)
    | inr miss ↦ rw miss (v q s)
  ]

pub some_used :
    (t : DownServer)
    → t.is_no_use ≡ false
    → (s : DownServer) → some t ≡ some s
    → s.is_no_use ≡ false
some_used t e s f = ground arith

module _ (H : UtHash) (split : Str → List Str) where
  -- The list is well-formed; no address from `fresh` on is allocated; no server carries the mark
  -- that has it freed; and each server that has a thread is on the heap, in the phase of a running
  -- exchange, with no second thread.
  pub record IsSafe (a : Action H.Table) : Type 0 where
    pub list : IsWellFormed H split a
    pub above : Above a.servers a.fresh
    pub used : Used a.servers
    pub threads : (p : Ptr) → Thread (threads_of p a.running) (a.servers p)

  pub Changed-IsSafe : (a b : Action H.Table) → IsSafe a → Changed a (some b) → IsSafe b
  Changed-IsSafe a _ v same = v
  Changed-IsSafe a _ v (kept {b} {p} {s} t held k hs hf hd hr) = record {
    list = record {
      keys = rw hd v.list.keys;
      items = rw (hd, hs, hf) (Items-put a.servers a.fresh p s t _ held k.0 v.list.items);
    };
    above = rw (hs, hf) (put-Above a.servers p (some t) a.fresh held v.above);
    used = rw hs (put-Used a.servers p (some t) (some_used t (k.2 ∙ v.used p s held)) v.used);
    threads =
        rw (hr, hs)
          (Thread-put a.servers a.running p (some t) v.threads
            (Thread-phase _ (a.servers p) (some t) (v.threads p) (rw (held, k.1) refl)));
  }
  Changed-IsSafe a _ v (started {b} {p} {s} held e hs hf hd hr) = record {
    list = record {
      keys = rw hd v.list.keys;
      items =
          rw (hd, hs, hf)
            (Items-put a.servers a.fresh p s (set_phase exchanging s) _ held refl v.list.items);
    };
    above =
        rw (hs, hf) (put-Above a.servers p (some (set_phase exchanging s)) a.fresh held v.above);
    used = rw hs (
        put-Used a.servers p (some (set_phase exchanging s))
          (some_used (set_phase exchanging s) (v.used p s held)) v.used);
    threads =
        rw (hr, hs)
          (Thread-start a.servers a.running p (some (set_phase exchanging s)) v.threads
            (rw (held, e) (λ f. cc)) refl);
  }
