-- ===== src/Gather/Meta/Tracked.antt =====
-- `gatherUpdateLocalMetaForServer`: while the names of the meta server come in, every target server
-- is in one of the two tables.
use store_monitor.Common.{
  ℕ, suc, ◌<◌, ◌==◌, ◌≡◌, ◌⊎◌, inl, inr, refl, subst, arith, true, false, Bool-cases, Option, some,
  List, [], ◌∷◌, ◌++◌, Str, str_eq, str_eq→eq, All,
}
use store_monitor.Common.Hash.{Entry, lookup, has_item, drop_item, DistinctItems}
use store_monitor.Common.Hash.Laws.{has_item-snoc, has_item-drop_item}
use store_monitor.Connection.Data.{Ptr}
use store_monitor.Gather.Data.{TargetServer, put}

-- The entry's server is on the heap under the entry's key, and was allocated before `n`.
abbrev pub Entered : (Ptr → Option TargetServer) → Ptr → Entry → Type 0
Entered h n (k, p) = (s : TargetServer) × (h p ≡ some s) × (s.server_id_key ≡ k) × (p < n)

-- A new server is allocated.
pub Entered-put :
    (h : Ptr → Option TargetServer) (n : Ptr) (s : TargetServer) (es : List Entry)
    → All (Entered h n) es
    → All (Entered (put h n (some s)) (suc n)) es
unfolding put
Entered-put h n s [] v = tt
Entered-put h n s ((k, p) ∷ es) v =
    ((v.0.0, ground (arith, v.0.1, v.0.3), v.0.2, omega (arith, v.0.3)), Entered-put h n s es v.1)

pub All-drop_item :
    (P : Entry → Type 0) (p : ℕ) (es : List Entry) → All P es → All P (drop_item p es)
unfolding drop_item
All-drop_item P p [] v = tt
All-drop_item P p ((k, q) ∷ es) v = elim (Bool-cases (p == q)) [
  | inl hit ↦ rw hit (All-drop_item P p es v.1)
  | inr miss ↦ rw miss (v.0, All-drop_item P p es v.1)
]

pub DistinctItems-drop_item :
    (p : ℕ) (es : List Entry) → DistinctItems es → DistinctItems (drop_item p es)
unfolding drop_item
DistinctItems-drop_item p [] d = tt
DistinctItems-drop_item p ((k, q) ∷ es) d = elim (Bool-cases (p == q)) [
  | inl hit ↦ rw hit (DistinctItems-drop_item p es d.1)
  | inr miss ↦ rw miss (has_item-drop_item q p es d.0, DistinctItems-drop_item p es d.1)
]

pub dropped : (p : ℕ) (es : List Entry) → has_item p (drop_item p es) ≡ false
unfolding drop_item has_item
dropped p [] = refl
dropped p ((k, q) ∷ es) = elim (Bool-cases (p == q)) [
  | inl hit ↦ rw hit (dropped p es)
  | inr miss ↦ rw (miss, miss) (dropped p es)
]

-- The entry that is found.
pub found_entry :
    (P : Entry → Type 0) (k : Str) (p : ℕ) (es : List Entry)
    → All P es
    → lookup k es ≡ some p
    → P (k, p)
unfolding lookup
found_entry P k p [] v e = cc
found_entry P k p ((j, q) ∷ es) v e = elim (Bool-cases (str_eq j k)) [
  | inl hit ↦
      let f : q ≡ p = ground arith in
      subst (λ r. P (k, r)) f (subst (λ i. P (i, q)) (str_eq→eq j k hit) v.0)
  | inr miss ↦ found_entry P k p es v.1 (ground arith)
]

pub below :
    (h : Ptr → Option TargetServer) (n : Ptr) (es : List Entry)
    → All (Entered h n) es
    → has_item n es ≡ false
unfolding has_item
below h n [] v = refl
below h n ((k, p) ∷ es) v = ground (arith, v.0.3, below h n es v.1)

pub has_item-snoc_inv :
    (p q : ℕ) (k : Str) (es : List Entry)
    → has_item p (es ++ (k, q) ∷ []) ≡ true
    → (has_item p es ≡ true) ⊎ (p ≡ q)
unfolding has_item
has_item-snoc_inv p q k [] i = inr (ground arith)
has_item-snoc_inv p q k ((j, r) ∷ es) i = elim (Bool-cases (p == r)) [
  | inl hit ↦ inl (rw hit refl)
  | inr miss ↦ rw miss (has_item-snoc_inv p q k es (ground arith))
]

pub DistinctItems-snoc :
    (k : Str) (p : ℕ) (es : List Entry)
    → DistinctItems es
    → has_item p es ≡ false
    → DistinctItems (es ++ (k, p) ∷ [])
unfolding has_item
DistinctItems-snoc k p [] d out = (refl, tt)
DistinctItems-snoc k p ((j, q) ∷ es) d out =
    (has_item-snoc q p k es d.0 (ground arith), DistinctItems-snoc k p es d.1 (ground arith))
