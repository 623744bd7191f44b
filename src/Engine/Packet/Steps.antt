-- ===== src/Engine/Packet/Steps.antt =====
-- From one part of an answer to the next: what a header, a key and a value that are complete do.
use native.Mathlib.Nat.{zero-add}
use store_monitor.Common.{
  ℕ, zero, suc, ◌+◌, ◌-◌, ◌≤◌, ◌<◌, ◌≡◌, refl, sym, ap, subst, ◌∙◌, arith, true, leb, some, List,
  [], ◌∷◌, ◌++◌, length, length-append, ℤ, pos, pos-sub, pos-add, memcpy, memcpy-append,
}
use store_monitor.Engine.Packet.{
  Arrival, Place, in_header, in_buffer, ReadState, read_header, read_key, read_value, Packet,
  put_bytes, goes_on, header_done, key_done, value_done, part_done, read_stats_response,
}
use store_monitor.Engine.Packet.Bytes.{with_left}
use store_monitor.Engine.Packet.Filling.{
  Calm, bytes_of, pauses, continue, read_loop-suc, Completes, part_comes,
}

-- After at most `n` calls, and one for each pause, the packet is `p1` and `rest` is still to come.
unfoldable pub Proceeds : ℕ → List Arrival → List ℕ → Packet → Packet → Type 0
Proceeds n s rest p p1 =
    (s' : List Arrival) × Calm s'
    × (bytes_of s' ≡ rest)
    × (k : ℕ) × (n + pauses s ≡ k + pauses s')
    × ((fuel : ℕ)
        → continue (k + fuel) (read_stats_response s p) ≡ continue fuel (read_stats_response s' p1))

pub Proceeds-then :
    (m n : ℕ) (s : List Arrival) (rest rest' : List ℕ) (p p1 p2 : Packet)
    → Proceeds m s rest p p1
    → ((s' : List Arrival) → Calm s' → bytes_of s' ≡ rest → Proceeds n s' rest' p1 p2)
    → Proceeds (m + n) s rest' p p2
unfolding Proceeds
Proceeds-then m n s rest rest' p p1 p2 (s1, c1, b1, k1, e1, f1) v =
    let (s2, c2, b2, k2, e2, f2) = v s1 c1 b1 in
    (
      s2,
      c2,
      b2,
      k1 + k2,
      omega (arith, e1, e2),
      λ fuel.
          let e : k1 + k2 + fuel ≡ k1 + (k2 + fuel) = omega arith in
          rw e (f1 (k2 + fuel) ∙ f2 fuel),
    )

-- A part that is complete and not the last leads to the next.
pub next_part :
    (s : List Arrival) (x : ℕ) (rest : List ℕ) (p q p1 : Packet)
    → Completes s (x ∷ rest) p q
    → ((s' : List Arrival) → part_done q.read_state s' (with_left 0 q) ≡ some (goes_on s' p1))
    → Proceeds 1 s (x ∷ rest) p p1
unfolding Proceeds Completes
next_part s x rest p q p1 (s', c, b, k, e, f) v = (
  s',
  c,
  b,
  k + 1,
  omega (arith, e),
  λ fuel.
      let e' : k + 1 + fuel ≡ k + suc fuel = omega arith in
      rw e' (f (suc fuel) ∙ ap (continue (suc fuel)) (v s') ∙ looped s' b fuel),
)
  where
    looped :
        (s' : List Arrival)
        → bytes_of s' ≡ x ∷ rest
        → (fuel : ℕ)
        → continue (suc fuel) (some (goes_on s' p1)) ≡ continue fuel (read_stats_response s' p1)
    looped [] b fuel = cc
    looped (a ∷ s') b fuel = read_loop-suc fuel a s' p1

-- `rest` is not used up.
abbrev pub More : List ℕ → Type 0
More rest = (x : ℕ) × (xs : List ℕ) × (rest ≡ x ∷ xs)

pub More-append : (xs ys : List ℕ) → More ys → More (xs ++ ys)
More-append [] ys m = m
More-append (x ∷ xs) ys m = (x, xs ++ ys, refl)

pub part_leads :
    (s : List Arrival) (xs rest : List ℕ) (p q p1 : Packet)
    → Calm s
    → bytes_of s ≡ xs ++ rest
    → More rest
    → put_bytes xs p.pcur p ≡ some q
    → ((s' : List Arrival) → part_done q.read_state s' (with_left 0 q) ≡ some (goes_on s' p1))
    → Proceeds 1 s rest (with_left (length xs) p) p1
part_leads s xs rest p q p1 c b (x, ys, e) h v =
    subst (λ r. Proceeds 1 s r (with_left (length xs) p) p1) (sym e)
      (next_part s x ys (with_left (length xs) p) q p1
        (part_comes s xs (x ∷ ys) p q c (b ∙ ap (◌++◌ xs) e) h) v)

-- A packet with `w` in the buffer; `free` of it was free before this part.
abbrev pub packet_at : Place → ℕ → ReadState → List ℕ → ℕ → (ℕ → ℕ) → (ℕ → ℕ) → ℤ → ℤ → Packet
packet_at pc left state w free b h k t = record {
  pcur = pc;
  left = pos left;
  buffer = memcpy 0 w b;
  buffer_left = pos free;
  read_state = state;
  hdr = h;
  key_len = k;
  total_body_len = t;
}

-- Before a header.
abbrev pub ready : List ℕ → (ℕ → ℕ) → (ℕ → ℕ) → ℤ → ℤ → Packet
ready w = packet_at (in_header 0) 24 read_header w (1024 - length w)

pub put_bytes-packet :
    (n : ℕ) (state : ReadState) (w xs : List ℕ) (free : ℕ) (b h : ℕ → ℕ) (k t : ℤ)
    → length (w ++ xs) ≤ 1024
    → put_bytes xs
        (in_buffer (pos (length w)))
        (packet_at (in_buffer (pos (length w))) n state w free b h k t)
      ≡ some (packet_at (in_buffer (pos (length (w ++ xs)))) n state (w ++ xs) free b h k t)
unfolding put_bytes
put_bytes-packet n state w xs free b h k t fits =
    let e : leb (length w + length xs) 1024 ≡ true = ground (arith, length-append w xs) in
    rw (e, memcpy-append 0 w xs b, zero-add, ← length-append w xs) refl

pub put_bytes-header :
    (w xs : List ℕ) (free : ℕ) (b h : ℕ → ℕ) (k t : ℤ)
    → length xs ≡ 24
    → put_bytes xs (in_header 0) (packet_at (in_header 0) 24 read_header w free b h k t)
      ≡ some (packet_at (in_header 24) 24 read_header w free b (memcpy 0 xs h) k t)
unfolding put_bytes
put_bytes-header w xs free b h k t e = rw (zero-add, e) refl

-- The test that the buffer has room.
pub header_done_lem :
    (s : List Arrival) (w : List ℕ) (m n : ℕ) (b h : ℕ → ℕ)
    → 0 < n
    → n < 2147483645
    → length w + n + 3 < 1024
    → header_done s (packet_at (in_header 24) 0 read_header w (1024 - length w) b h (pos m) (pos n))
      ≡ some (
          goes_on s (
            packet_at
              (in_buffer (pos (length w)))
              m
              read_key
              w
              (1024 - length w)
              b
              h
              (pos m)
              (pos n)))
unfolding header_done
header_done_lem s w m zero b h p q r = absurd (omega arith)
header_done_lem s w m (suc n) b h p q r =
    let e : 1024 - (1024 - length w) ≡ length w = omega arith in
    rw (pos-sub 1024 (1024 - length w) (omega arith), e, pos-add (suc n) 3) (ground arith)

-- A byte goes behind a key or a value, and the counts follow.
pub key_done_lem :
    (s : List Arrival) (w : List ℕ) (free m n : ℕ) (b h : ℕ → ℕ)
    → length w < 1024
    → m < free
    → m ≤ n
    → key_done s (packet_at (in_buffer (pos (length w))) 0 read_key w free b h (pos m) (pos n))
      ≡ some (
          goes_on s (
            packet_at
              (in_buffer (pos (length (w ++ b'=' ∷ []))))
              (n - m)
              read_value
              (w ++ b'=' ∷ [])
              (free - (m + 1))
              b
              h
              (pos m)
              (pos n)))
unfolding key_done
key_done_lem s w free m n b h p q r =
    rw
      (
        put_bytes-packet 0 read_key w (b'=' ∷ []) free b h (pos m) (pos n)
            (omega (arith, length-append w (b'=' ∷ []))),
        pos-add m 1,
        pos-sub free (m + 1) (omega arith),
        pos-sub n m r,
      )
      refl

pub value_done_lem :
    (s : List Arrival) (w : List ℕ) (free m n : ℕ) (b h : ℕ → ℕ)
    → length w < 1024
    → n - m < free
    → m ≤ n
    → value_done s (packet_at (in_buffer (pos (length w))) 0 read_value w free b h (pos m) (pos n))
      ≡ some (
          goes_on s (
            packet_at
              (in_header 0)
              24
              read_header
              (w ++ b' ' ∷ [])
              (free - (n - m + 1))
              b
              h
              (pos m)
              (pos n)))
unfolding value_done
value_done_lem s w free m n b h p q r =
    rw
      (
        put_bytes-packet 0 read_value w (b' ' ∷ []) free b h (pos m) (pos n)
            (omega (arith, length-append w (b' ' ∷ []))),
        pos-sub n m r,
        pos-add (n - m) 1,
        pos-sub free (n - m + 1) (omega arith),
      )
      refl
