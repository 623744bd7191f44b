-- ===== src/Engine/Packet/Bytes.antt =====
-- Bytes that are stored one piece after the other.
use store_monitor.Common.{
  ℕ, ◌+◌, ◌≡◌, ◌⊎◌, inl, inr, refl, sym, ap, ◌∙◌, arith, Bool-cases, leb, some, List, [], ◌∷◌, ◌++◌,
  take, drop, length, length-append, pos, memcpy, memcpy-append, negsuc,
}
use store_monitor.Engine.Packet.{Place, in_header, in_buffer, Packet, put_bytes}
use native.Mathlib.Nat.{add-zero}

abbrev pub with_left : ℕ → Packet → Packet
with_left n p = record p { left = pos n }

-- Storing two pieces one after the other.
pub put_bytes-append :
    (xs ys : List ℕ) (pc : Place) (p q : Packet)
    → put_bytes (xs ++ ys) pc p ≡ some q
    → (p1 : Packet) × (put_bytes xs pc p ≡ some p1) × (put_bytes ys p1.pcur p1 ≡ some q)
unfolding put_bytes
put_bytes-append xs ys (in_header o) p q h = elim (Bool-cases (leb (o + length xs) 24)) [
  | inl fits ↦ (
    record p { hdr = memcpy o xs p.hdr; pcur = in_header (o + length xs) },
    rw fits refl,
    ground (arith, memcpy-append o xs ys p.hdr, length-append xs ys),
  )
  | inr out ↦ absurd (ground (arith, length-append xs ys))
]
put_bytes-append xs ys (in_buffer (pos o)) p q h = elim (Bool-cases (leb (o + length xs) 1024)) [
  | inl fits ↦ (
    record p { buffer = memcpy o xs p.buffer; pcur = in_buffer (pos (o + length xs)) },
    rw fits refl,
    ground (arith, memcpy-append o xs ys p.buffer, length-append xs ys),
  )
  | inr out ↦ absurd (ground (arith, length-append xs ys))
]
put_bytes-append xs ys (in_buffer (negsuc o)) p q h = cc

pub put_bytes-nil : (pc : Place) (p q : Packet) → p.pcur ≡ pc → put_bytes [] pc p ≡ some q → q ≡ p
unfolding put_bytes memcpy
put_bytes-nil (in_header o) p q e h =
    let k : record p { pcur = in_header (o + 0) } ≡ q = ground arith in
    sym k ∙ rw (add-zero, ← e) refl
put_bytes-nil (in_buffer (pos o)) p q e h =
    let k : record p { pcur = in_buffer (pos (o + 0)) } ≡ q = ground arith in
    sym k ∙ rw (add-zero, ← e) refl
put_bytes-nil (in_buffer (negsuc o)) p q e h = cc

pub put_bytes-left :
    (n : ℕ) (xs : List ℕ) (pc : Place) (p q : Packet)
    → put_bytes xs pc p ≡ some q
    → put_bytes xs pc (with_left n p) ≡ some (with_left n q)
unfolding put_bytes
put_bytes-left n xs (in_header o) p q h = ground arith
put_bytes-left n xs (in_buffer (pos o)) p q h = ground arith
put_bytes-left n xs (in_buffer (negsuc o)) p q h = cc

-- Two ways to cut a list.
pub two_cuts :
    (xs rest bs t : List ℕ)
    → xs ++ rest ≡ bs ++ t
    → ((ys : List ℕ) × (xs ≡ bs ++ ys) × (t ≡ ys ++ rest))
      ⊎ ((c : ℕ) × (cs : List ℕ) × (bs ≡ xs ++ c ∷ cs) × (rest ≡ c ∷ cs ++ t))
two_cuts xs rest [] t e = inl (xs, refl, sym e)
two_cuts [] rest (b ∷ bs) t e = inr (b, bs, refl, e)
two_cuts (x ∷ xs) rest (b ∷ bs) t e = elim (two_cuts xs rest bs t (grind arith)) [
  | inl (ys, f, g) ↦ inl (ys, grind arith, g)
  | inr (c, cs, f, g) ↦ inr (c, cs, grind arith, g)
]

pub take-length : (xs ys : List ℕ) → take (length xs) (xs ++ ys) ≡ xs
take-length [] ys = refl
take-length (x ∷ xs) ys = ap (◌∷◌ x) (take-length xs ys)

pub drop-length : (xs ys : List ℕ) → drop (length xs) (xs ++ ys) ≡ ys
drop-length [] ys = refl
drop-length (x ∷ xs) ys = drop-length xs ys

pub take-short : (xs ys : List ℕ) → take (length (xs ++ ys)) xs ≡ xs
take-short [] [] = refl
take-short [] (y ∷ ys) = refl
take-short (x ∷ xs) ys = ap (◌∷◌ x) (take-short xs ys)

pub drop-short : (xs ys : List ℕ) → drop (length (xs ++ ys)) xs ≡ []
drop-short [] [] = refl
drop-short [] (y ∷ ys) = refl
drop-short (x ∷ xs) ys = drop-short xs ys
