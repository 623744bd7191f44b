-- ===== src/Action/Threads/Cells.antt =====
-- One server and the number of its threads.
use store_monitor.Common.{
  ℕ, suc, ◌-◌, ◌==◌, ◌≡◌, ◌≢◌, ◌⊎◌, inl, inr, subst, arith, true, false, Bool-cases, if◌then◌else◌,
  Option, none, some, List, [], ◌∷◌,
}
use store_monitor.Connection.Data.{Ptr}
use store_monitor.Action.Data.{DownServer, ExchangePhase, exchanging, put}
use store_monitor.Action.Exchange.{remove_first}
use store_monitor.Action.Threads.{threads_of}

abbrev pub phase_of : Option DownServer → Option ExchangePhase
phase_of none = none
phase_of (some s) = some s.exchange_state.phase

-- A server that has a thread is on the heap, in the phase of a running exchange, and has one only.
abbrev pub Thread : ℕ → Option DownServer → Type 0
Thread n o = (n ≡ 0) ⊎ ((n ≡ 1) × (phase_of o ≡ some exchanging))

pub Thread-idle :
    (n : ℕ) (o c : Option DownServer) → Thread n o → phase_of o ≢ some exchanging → Thread n c
Thread-idle n o c (inl e) f = inl e
Thread-idle n o c (inr e) f = absurd (f e.1)

pub Thread-phase :
    (n : ℕ) (o c : Option DownServer) → Thread n o → phase_of c ≡ phase_of o → Thread n c
Thread-phase n o c (inl e) f = inl e
Thread-phase n o c (inr e) f = inr (e.0, cc)

-- A heap that changes at one address.
pub Thread-put :
    (h : Ptr → Option DownServer) (rs : List Ptr) (p : Ptr) (c : Option DownServer)
    → ((q : Ptr) → Thread (threads_of q rs) (h q))
    → Thread (threads_of p rs) c
    → (q : Ptr) → Thread (threads_of q rs) (put h p c q)
unfolding put
Thread-put h rs p c v at q = elim (Bool-cases (p == q)) [
  | inl hit ↦ rw hit (let e : p ≡ q = ground arith in subst (λ r. Thread (threads_of r rs) c) e at)
  | inr miss ↦ rw miss (v q)
]

-- A thread is started for an idle server.
pub Thread-start :
    (h : Ptr → Option DownServer) (rs : List Ptr) (p : Ptr) (c : Option DownServer)
    → ((q : Ptr) → Thread (threads_of q rs) (h q))
    → phase_of (h p) ≢ some exchanging
    → phase_of c ≡ some exchanging
    → (q : Ptr) → Thread (threads_of q (p ∷ rs)) (put h p c q)
unfolding put
Thread-start h rs p c v idle e q = elim (Bool-cases (p == q)) [
  | inl hit ↦
      rw (hit, (let f : (q == p) ≡ true = ground arith in f))
        (inr (
          let k : p ≡ q = ground arith in subst (λ r. suc (threads_of r rs) ≡ 1) k (none_yet (v p)),
          e,
        ))
  | inr miss ↦ rw (miss, (let f : (q == p) ≡ false = ground arith in f)) (v q)
]
  where
    none_yet : Thread (threads_of p rs) (h p) → suc (threads_of p rs) ≡ 1
    none_yet (inl e) = omega arith
    none_yet (inr f) = absurd (idle f.1)

pub threads_of-remove_first :
    (p q : Ptr) (rs : List Ptr)
    → threads_of q (remove_first p rs) ≡ (if p == q then threads_of q rs - 1 else threads_of q rs)
unfolding remove_first
threads_of-remove_first p q [] = ground arith
threads_of-remove_first p q (r ∷ rs) = ground (arith, threads_of-remove_first p q rs)

-- A thread ends.
pub Thread-end :
    (h : Ptr → Option DownServer) (rs : List Ptr) (p : Ptr) (c : Option DownServer)
    → ((q : Ptr) → Thread (threads_of q rs) (h q))
    → (q : Ptr) → Thread (threads_of q (remove_first p rs)) (put h p c q)
unfolding put
Thread-end h rs p c v q = rw (threads_of-remove_first p q rs) (elim (Bool-cases (p == q)) [
  | inl hit ↦ rw hit (inl (at_most_one (v q)))
  | inr miss ↦ rw miss (v q)
])
  where
    at_most_one : Thread (threads_of q rs) (h q) → threads_of q rs - 1 ≡ 0
    at_most_one (inl e) = omega arith
    at_most_one (inr e) = omega (arith, e.0)
