-- ===== src/Action/Info/Laws/Pairs.antt =====
-- The search for a field, on the array that redis returns for a hash.
use store_monitor.Common.{
  ◌≡◌, if◌then◌else◌, Bool-cases, inl, inr, Option, none, some, List, [], ◌∷◌, arith, Str, str_eq,
  pos,
}
use store_monitor.Hiredis.{Element, string}
use store_monitor.Action.Info.{Scan, absent, found, scan_key}

-- A string in a reply.
abbrev pub element : Str → Element
element v = record { type = string; str = some v; value = pos 0 }

-- The reply to `HGETALL` for the fields of a hash, each with its value.
abbrev pub hash_reply : List (Str × Str) → List Element
hash_reply [] = []
hash_reply ((k, v) ∷ fs) = element k ∷ element v ∷ hash_reply fs

-- The value of a field.
unfoldable pub field_of : Str → List (Str × Str) → Option Str
field_of key [] = none
field_of key ((k, v) ∷ fs) = if str_eq key k then some v else field_of key fs

abbrev pub as_scan : Option Str → Scan
as_scan none = absent
as_scan (some v) = found (element v)

-- On the reply for a hash with at least one field, the search neither reads outside the array nor
-- takes a value for a field's name: it finds the value of the field, or that there is none.
pub scan-field_of :
    (key : Str) (f : Str × Str) (fs : List (Str × Str))
    → scan_key key (hash_reply (f ∷ fs)) ≡ as_scan (field_of key (f ∷ fs))
unfolding scan_key field_of
scan-field_of key f [] = ground arith
scan-field_of key f (g ∷ gs) = elim (Bool-cases (str_eq key f.0)) [
  | inl hit ↦ rw hit
  | inr miss ↦ rw miss (scan-field_of key g gs)
]
