-- ===== src/Gather/Meta/Members.antt =====
-- Which target servers the tables and the list hold, and where the names of a reply are put.
use store_monitor.Common.{
  ℕ, suc, ◌+◌, ◌==◌, ◌≡◌, if◌then◌else◌, inl, inr, refl, arith, true, false, Bool-cases, none, some,
  subst, List, [], ◌∷◌, ◌++◌, Str, map,
}
use store_monitor.Common.Hash.{Entry, lookup, has_item, drop_item, DistinctItems}
use store_monitor.Connection.Data.{Ptr}

pub once_if : Ptr → Ptr → ℕ
once_if p q = if p == q then 1 else 0

-- How often an address stands in a list, and among the items of a table.
unfoldable pub times : Ptr → List Ptr → ℕ
unfolding once_if
times q [] = 0
times q (p ∷ ps) = once_if p q + times q ps

unfoldable pub times_item : Ptr → List Entry → ℕ
unfolding once_if
times_item q [] = 0
times_item q ((k, p) ∷ es) = once_if p q + times_item q es

pub times-map : (q : Ptr) (es : List Entry) → times q (map (λ e. e.1) es) ≡ times_item q es
unfolding times times_item
times-map q [] = refl
times-map q ((k, p) ∷ es) = rw (times-map q es) refl

pub times_item-snoc :
    (q : Ptr) (k : Str) (p : Ptr) (es : List Entry)
    → times_item q (es ++ (k, p) ∷ []) ≡ times_item q es + once_if p q
unfolding times_item
times_item-snoc q k p [] = omega arith
times_item-snoc q k p ((j, r) ∷ es) = rw (times_item-snoc q k p es) (omega arith)

drop_item-none :
    (q p : Ptr) (es : List Entry)
    → has_item p es ≡ false
    → times_item q (drop_item p es) ≡ times_item q es
unfolding times_item has_item drop_item
drop_item-none q p [] h = refl
drop_item-none q p ((k, r) ∷ es) h =
    let miss : (p == r) ≡ false = ground arith in
    rw (miss, drop_item-none q p es (ground arith)) refl

pub times_item-drop :
    (q p : Ptr) (es : List Entry)
    → DistinctItems es
    → has_item p es ≡ true
    → times_item q (drop_item p es) + once_if p q ≡ times_item q es
unfolding times_item has_item drop_item
times_item-drop q p [] d h = cc
times_item-drop q p ((k, r) ∷ es) d h = elim (Bool-cases (p == r)) [
  | inl hit ↦
      let e : r ≡ p = ground arith in
      rw (hit, e, drop_item-none q p es (subst (λ x. has_item x es ≡ false) e d.0)) (omega arith)
  | inr miss ↦ rw miss (omega (arith, times_item-drop q p es d.1 (ground arith)))
]

-- Where a reply that names `ks` puts them: a known server keeps its address, which is taken out of
-- the current table, and any other gets the next fresh one.
pub data Placed : List Entry → Ptr → List Str → List Entry → Type 0 where
  all_placed : {cur : List Entry} {n : Ptr} → Placed cur n [] []
  keeps :
      {cur es : List Entry} {n p : Ptr} {k : Str} {ks : List Str}
      → lookup k cur ≡ some p
      → Placed (drop_item p cur) n ks es
      → Placed cur n (k ∷ ks) ((k, p) ∷ es)
  allocates :
      {cur es : List Entry} {n : Ptr} {k : Str} {ks : List Str}
      → lookup k cur ≡ none
      → Placed cur (suc n) ks es
      → Placed cur n (k ∷ ks) ((k, n) ∷ es)
