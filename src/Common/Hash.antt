-- ===== src/Common/Hash.antt =====
-- The calls of uthash.h, as an interface. An item is named by its address.
pub mod Laws
use Prim.Native.Nat.{ℕ}
use mathlib.Core.Path.{◌≡◌}
use mathlib.Core.List.{List, [], ◌∷◌, ◌++◌}
use mathlib.Core.Option.{Option, none, some}
use mathlib.Core.Bool.{Bool, false, ◌||◌}
use store_monitor.Common.Tests.{◌==◌, if◌then◌else◌}
use store_monitor.Common.Text.{Str, str_eq}

abbrev pub Entry : Type 0
Entry = Str × ℕ

-- The address under a key, in a list of entries.
unfoldable pub lookup : Str → List Entry → Option ℕ
lookup k [] = none
lookup k ((j, p) ∷ es) = if str_eq j k then some p else lookup k es

unfoldable pub has_key : Str → List Entry → Bool
has_key k [] = false
has_key k ((j, p) ∷ es) = str_eq j k || has_key k es

-- The entries without those at one address.
unfoldable pub drop_item : ℕ → List Entry → List Entry
drop_item p [] = []
drop_item p ((j, q) ∷ es) = if p == q then drop_item p es else (j, q) ∷ drop_item p es

-- No key twice.
abbrev pub DistinctKeys : List Entry → Type 0
DistinctKeys [] = Unit
DistinctKeys ((k, p) ∷ es) = (has_key k es ≡ false) × DistinctKeys es

-- What uthash documents: iteration is in the order of insertion, `HASH_DEL` takes out the item that
-- it is given, and `HASH_FIND_STR` finds by key where keys are distinct.
pub record UtHash : Type 1 where
  pub Table : Type 0
  pub empty : Table
  pub find_str : Str → Table → Option ℕ
  pub add_keyptr : Str → ℕ → Table → Table
  pub del : ℕ → Table → Table
  pub iter : Table → List Entry
  pub iter-empty : iter empty ≡ []
  pub iter-add : (k : Str) (p : ℕ) (t : Table) → iter (add_keyptr k p t) ≡ iter t ++ (k, p) ∷ []
  pub iter-del : (p : ℕ) (t : Table) → iter (del p t) ≡ drop_item p (iter t)
  pub find-iter : (k : Str) (t : Table) → DistinctKeys (iter t) → find_str k t ≡ lookup k (iter t)

unfoldable pub has_item : ℕ → List Entry → Bool
has_item p [] = false
has_item p ((k, q) ∷ es) = (p == q) || has_item p es

-- No address twice.
abbrev pub DistinctItems : List Entry → Type 0
DistinctItems [] = Unit
DistinctItems ((k, p) ∷ es) = (has_item p es ≡ false) × DistinctItems es
