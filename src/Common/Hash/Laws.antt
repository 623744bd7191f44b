-- ===== src/Common/Hash/Laws.antt =====
-- Lookup, insertion and removal over the entries of a table.
use store_monitor.Common.{
  ℕ, ◌≡◌, ◌≢◌, refl, true, false, ◌||◌, if◌then◌else◌, none, some, List, [], ◌∷◌, ◌++◌, arith, Str,
  str_eq, str_eq_iff,
}
use store_monitor.Common.Hash.{Entry, lookup, has_key, drop_item, DistinctKeys, has_item}

pub lookup-none : (k : Str) (es : List Entry) → lookup k es ≡ none → has_key k es ≡ false
unfolding lookup has_key
lookup-none k [] e = refl
lookup-none k ((j, p) ∷ es) e = ground (arith, lookup-none k es)

pub has_key-snoc :
    (k j : Str) (p : ℕ) (es : List Entry)
    → has_key k (es ++ (j, p) ∷ []) ≡ (has_key k es || str_eq j k)
unfolding has_key
has_key-snoc k j p [] = ground arith
has_key-snoc k j p ((i, q) ∷ es) = rw (has_key-snoc k j p es) (ground arith)

str_eq-sym : (a b : Str) → str_eq a b ≡ false → str_eq b a ≡ false
str_eq-sym a b e = ground (arith, str_eq_iff a b, str_eq_iff b a)

pub DistinctKeys-snoc :
    (k : Str) (p : ℕ) (es : List Entry)
    → DistinctKeys es
    → has_key k es ≡ false
    → DistinctKeys (es ++ (k, p) ∷ [])
unfolding has_key
DistinctKeys-snoc k p [] d out = (refl, tt)
DistinctKeys-snoc k p ((j, q) ∷ es) d out = (
  rw (has_key-snoc j k p es, d.0) (str_eq-sym j k (ground arith)),
  DistinctKeys-snoc k p es d.1 (ground arith),
)

pub has_item-snoc :
    (p q : ℕ) (k : Str) (es : List Entry)
    → has_item p es ≡ false
    → p ≢ q
    → has_item p (es ++ (k, q) ∷ []) ≡ false
unfolding has_item
has_item-snoc p q k [] h n = ground arith
has_item-snoc p q k ((j, r) ∷ es) h n = ground (arith, has_item-snoc p q k es)

pub has_key-drop_item :
    (k : Str) (p : ℕ) (es : List Entry) → has_key k es ≡ false → has_key k (drop_item p es) ≡ false
unfolding has_key drop_item
has_key-drop_item k p [] h = refl
has_key-drop_item k p ((j, q) ∷ es) h = ground (arith, has_key-drop_item k p es)

pub has_item-drop_item :
    (q p : ℕ) (es : List Entry) → has_item q es ≡ false → has_item q (drop_item p es) ≡ false
unfolding has_item drop_item
has_item-drop_item q p [] h = refl
has_item-drop_item q p ((j, r) ∷ es) h = ground (arith, has_item-drop_item q p es)

pub DistinctKeys-drop_item :
    (p : ℕ) (es : List Entry) → DistinctKeys es → DistinctKeys (drop_item p es)
unfolding drop_item
DistinctKeys-drop_item p [] d = tt
DistinctKeys-drop_item p ((j, q) ∷ es) d =
    ground (arith, has_key-drop_item j p es d.0, DistinctKeys-drop_item p es d.1)

pub drop_item-absent : (p : ℕ) (es : List Entry) → has_item p es ≡ false → drop_item p es ≡ es
unfolding has_item drop_item
drop_item-absent p [] h = refl
drop_item-absent p ((j, q) ∷ es) h = ground (arith, drop_item-absent p es)

pub lookup-snoc :
    (k j : Str) (p : ℕ) (es : List Entry)
    → has_key j es ≡ false
    → lookup k (es ++ (j, p) ∷ []) ≡ (if str_eq j k then some p else lookup k es)
unfolding lookup has_key
lookup-snoc k j p [] h = refl
lookup-snoc k j p ((i, q) ∷ es) h =
    ground (arith, str_eq_iff i k, str_eq_iff j k, str_eq_iff i j, lookup-snoc k j p es)

pub lookup-has_item :
    (k : Str) (p : ℕ) (es : List Entry) → lookup k es ≡ some p → has_item p es ≡ true
unfolding lookup has_item
lookup-has_item k p [] e = cc
lookup-has_item k p ((j, q) ∷ es) e = ground (arith, lookup-has_item k p es)

pub lookup-has_key :
    (k : Str) (p : ℕ) (es : List Entry) → lookup k es ≡ some p → has_key k es ≡ true
unfolding lookup has_key
lookup-has_key k p [] e = cc
lookup-has_key k p ((j, q) ∷ es) e = ground (arith, lookup-has_key k p es)
