-- ===== src/Action/Info/Laws.antt =====
-- What `updateDownServerInfo` leaves alone, and what it has taken from the reply when it succeeds.
pub mod Pairs
use store_monitor.Common.{
  ℕ, ◌≡◌, refl, Bool, true, false, if◌then◌else◌, Option, none, some, List, [], ◌∷◌, inl, inr,
  arith, Str, codes, Bool-cases, Option-cases,
}
use store_monitor.Connection.Data.{Ptr}
use store_monitor.Hiredis.{Element}
use store_monitor.Action.Data.{DownServer, DownServerRole, set_to_be_updated}
use store_monitor.Action.Info.{
  scan_key, is_string, text_of, role_of, is_master, Scan, bad, absent, found, Outcome, required,
  optional, with_pid, with_cluster, with_role, set_backup, take_backup, by_role, take_role,
  take_cluster, take_pid, update_down_server_info,
}

-- The record keeps its key, its exchange phase and its mark of disuse.
abbrev pub Keeps : DownServer → DownServer → Type 0
Keeps s t =
    (t.ip_port_type ≡ s.ip_port_type)
    × (t.exchange_state.phase ≡ s.exchange_state.phase)
    × (t.is_no_use ≡ s.is_no_use)

abbrev pub After : DownServer → Outcome → Type 0
After s none = Unit
After s (some (ok, t)) = Keeps s t

After-required :
    (x : Scan) (k : Str → Outcome) (s t : DownServer)
    → Keeps s t
    → ((v : Str) → After s (k v))
    → After s (required x k t)
unfolding required
After-required bad k s t e h = tt
After-required absent k s t e h = e
After-required (found x) k s t e h = elim (Bool-cases (is_string x.type)) [
  | inl is ↦ rw (is, required) (h (text_of x))
  | inr not ↦ rw (not, required) e
]

After-if :
    (s : DownServer) (b : Bool) (x y : Outcome)
    → After s x
    → After s y
    → After s (if b then x else y)
After-if s true x y h k = h
After-if s false x y h k = k

After-optional :
    (x : Scan) (k : Option Str → Outcome) (s t : DownServer)
    → Keeps s t
    → ((v : Option Str) → After s (k v))
    → After s (optional x k t)
unfolding optional
After-optional bad k s t e h = tt
After-optional absent k s t e h = h none
After-optional (found x) k s t e h = elim (Bool-cases (is_string x.type)) [
  | inl is ↦ rw (is, optional) (h (some (text_of x)))
  | inr not ↦ rw (not, optional) e
]

module _ (find : Str → Option Ptr) (split : Str → List Str) (es : List Element)
    (s : DownServer) where
  After-set_backup : (ts : List Str) (t : DownServer) → Keeps s t → After s (set_backup ts t)
  unfolding set_backup
  After-set_backup [] t e = e
  After-set_backup (a ∷ []) t e = e
  After-set_backup (a ∷ b ∷ []) t e = e
  After-set_backup (a ∷ b ∷ c ∷ []) t e = e
  After-set_backup (a ∷ b ∷ c ∷ d ∷ r) t e = e

  After-take_backup : (m : Str) (t : DownServer) → Keeps s t → After s (take_backup find split m t)
  unfolding take_backup
  After-take_backup m t e = elim (Option-cases (find m)) [
    | inl free ↦ rw (free, take_backup) (After-set_backup (split m) t e)
    | inr (p, down) ↦ rw (down, take_backup) e
  ]

  After-by_role : (t : DownServer) → Keeps s t → After s (by_role find split es t)
  unfolding by_role
  After-by_role t e = elim (Bool-cases (is_master t.server_property.role)) [
    | inl m ↦
        rw (m, by_role)
          (After-required (scan_key (codes "backup_machine") es) _ s t e
            (λ v. After-take_backup v t e))
    | inr n ↦ rw (n, by_role) e
  ]

  After-take_role : (v : Str) (t : DownServer) → Keeps s t → After s (take_role find split es v t)
  unfolding take_role
  After-take_role v t e = elim (Option-cases (role_of v)) [
    | inl unknown ↦ rw (unknown, take_role) e
    | inr (r, good) ↦ rw (good, take_role) (After-by_role (with_role r t) e)
  ]

  After-take_cluster :
      (c : Option Str) (t : DownServer) → Keeps s t → After s (take_cluster find split es c t)
  unfolding take_cluster
  After-take_cluster c t e =
      After-required (scan_key (codes "role") es) _ s (with_cluster c t) (kept c)
        (λ v. After-take_role v (with_cluster c t) (kept c))
    where
      kept : (c : Option Str) → Keeps s (with_cluster c t)
      kept none = e
      kept (some x) = e

  After-take_pid : (v : Str) (t : DownServer) → Keeps s t → After s (take_pid find split es v t)
  unfolding take_pid
  After-take_pid v t e =
      After-optional (scan_key (codes "cluster") es) _ s (with_pid v t) e
        (λ c. After-take_cluster c (with_pid v t) e)

  -- Where `updateDownServerInfo` does not fault, it returns with the record's key, exchange phase and
  -- mark of disuse as they were, on the failing branches too.
  pub update-Keeps : After s (update_down_server_info find split es s)
  unfolding update_down_server_info
  update-Keeps =
      After-if s s.exchange_state.to_be_updated _ _
        (After-required (scan_key (codes "pid") es) (λ v. take_pid find split es v s) s s
          (refl, refl, refl) (λ v. After-take_pid v s (refl, refl, refl)))
        (refl, refl, refl)
