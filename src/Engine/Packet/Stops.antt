-- ===== src/Engine/Packet/Stops.antt =====
-- The end of an answer: the query is over, with the text complete or without space for more.
use native.Mathlib.Nat.{zero-add}
use store_monitor.Common.{
  ℕ, zero, suc, ◌+◌, ◌-◌, ◌≤◌, ◌<◌, ◌≡◌, refl, ap, subst, ◌∙◌, arith, true, leb, some, List, [],
  ◌∷◌, ◌++◌, length, ℤ, pos, negsuc, pos-sub, pos-add, memcpy, memcpy-append,
}
use store_monitor.Engine.Packet.{
  Arrival, in_header, read_header, Packet, put_bytes, Turn, done, header_done, part_done,
  read_stats_response,
}
use store_monitor.Engine.Packet.Bytes.{with_left}
use store_monitor.Engine.Packet.Filling.{Calm, bytes_of, pauses, continue, Completes, part_comes}
use store_monitor.Engine.Packet.Wire.{
  Item, HeaderRest, header_bytes, item_bytes, items_bytes, length-header_bytes, key_len_of-header,
  total_body_len_of-header,
}
use store_monitor.Engine.Packet.Steps.{Proceeds, More, packet_at, ready, put_bytes-header}

-- The query is over after at most `n` more calls, and one for each pause.
unfoldable pub Stops : ℕ → List Arrival → Packet → Turn → Type 0
Stops n s p o = (fuel : ℕ) → n + pauses s ≤ fuel → continue fuel (read_stats_response s p) ≡ some o

pub Stops-part :
    (s : List Arrival) (rest : List ℕ) (p q r : Packet) (e : ℤ)
    → Completes s rest p q
    → ((s' : List Arrival) → part_done q.read_state s' (with_left 0 q) ≡ some (done e r))
    → Stops 0 s p (done e r)
unfolding Stops Completes
Stops-part s rest p q r e (s', c, b, k, n, f) v fuel le =
    let m : k + (fuel - k) ≡ fuel = omega (arith, n) in
    subst (λ z. continue z (read_stats_response s p) ≡ some (done e r)) m
      (f (fuel - k) ∙ ap (continue (fuel - k)) (v s'))

pub Stops-more : (n : ℕ) (s : List Arrival) (p : Packet) (o : Turn) → Stops 0 s p o → Stops n s p o
unfolding Stops
Stops-more n s p o f fuel le = f fuel (omega arith)

pub Stops-then :
    (m n : ℕ) (s : List Arrival) (rest : List ℕ) (p p1 : Packet) (o : Turn)
    → Proceeds m s rest p p1
    → ((s' : List Arrival) → Calm s' → bytes_of s' ≡ rest → Stops n s' p1 o)
    → Stops (m + n) s p o
unfolding Stops Proceeds
Stops-then m n s rest p p1 o (s', c, b, k, e, f) v fuel le =
    let z : k + (fuel - k) ≡ fuel = omega (arith, e) in
    subst (λ z. continue z (read_stats_response s p) ≡ some o) z
      (f (fuel - k) ∙ v s' c b (fuel - k) (omega (arith, e)))

pub More-header : (m n : ℕ) (r : HeaderRest) (rest : List ℕ) → More (header_bytes m n r ++ rest)
unfolding header_bytes
More-header m n r rest = (_, _, refl)

pub More-items :
    (is : List Item) (m : ℕ) (r : HeaderRest) → More (items_bytes is ++ header_bytes m 0 r)
unfolding item_bytes header_bytes
More-items [] m r = (_, _, refl)
More-items (i ∷ is) m r = (_, _, refl)

-- A header that is complete: the lengths are read from it.
pub header_comes :
    (s : List Arrival) (w rest : List ℕ) (b h : ℕ → ℕ) (k t e : ℤ) (m n : ℕ) (r : HeaderRest)
    (q : Packet)
    → Calm s
    → bytes_of s ≡ header_bytes m n r ++ rest
    → m < 32768
    → n < 2147483648
    → length r.opaque_cas ≡ 12
    → ((s' : List Arrival)
        → header_done s' (
            packet_at
              (in_header 24)
              0
              read_header
              w
              (1024 - length w)
              b
              (memcpy 0 (header_bytes m n r) h)
              (pos m)
              (pos n))
          ≡ some (done e q))
    → Stops 0 s (ready w b h k t) (done e q)
unfolding part_done
header_comes s w rest b h k t e m n r q c x short fits tail v =
    let l = length-header_bytes m n r tail in
    subst (λ l. Stops 0 s (with_left l (ready w b h k t)) (done e q)) l
      (Stops-part s rest _ _ q e
        (part_comes s (header_bytes m n r) rest (ready w b h k t)
          (packet_at (in_header 24) 24 read_header w (1024 - length w) b
            (memcpy 0 (header_bytes m n r) h) k t)
          c x (put_bytes-header w (header_bytes m n r) (1024 - length w) b h k t l))
        λ s'. rw (key_len_of-header m n r h short, total_body_len_of-header m n r h fits) (v s'))

-- The last packet: the text and a NUL.
abbrev pub closed_packet : List ℕ → (ℕ → ℕ) → (ℕ → ℕ) → ℕ → Packet
closed_packet w b h m =
    record (packet_at (in_header 24) 0 read_header w (1024 - length w) b h (pos m) (pos 0)) {
      buffer = memcpy 0 (w ++ 0 ∷ []) b;
    }

pub header_done-end :
    (s : List Arrival) (w : List ℕ) (m : ℕ) (b h : ℕ → ℕ)
    → length w ≤ 1022
    → header_done s (packet_at (in_header 24) 0 read_header w (1024 - length w) b h (pos m) (pos 0))
      ≡ some (done (pos 0) (closed_packet w b h m))
unfolding header_done put_bytes
header_done-end s w m b h le =
    let e : 1024 - (1024 - length w) ≡ length w = omega arith in
    let f : leb (length w + 1) 1024 ≡ true = ground arith in
    rw (pos-sub 1024 (1024 - length w) (omega arith), e, f, memcpy-append 0 w (0 ∷ []) b, zero-add)
      refl

pub header_done-full :
    (s : List Arrival) (w : List ℕ) (m n : ℕ) (b h : ℕ → ℕ)
    → 0 < n
    → n < 2147483645
    → 1024 ≤ length w + n + 3
    → length w ≤ 1022
    → header_done s (packet_at (in_header 24) 0 read_header w (1024 - length w) b h (pos m) (pos n))
      ≡ some (
          done
            (negsuc 0)
            (packet_at (in_header 24) 0 read_header w (1024 - length w) b h (pos m) (pos n)))
unfolding header_done
header_done-full s w m zero b h p q r u = absurd (omega arith)
header_done-full s w m (suc n) b h p q r u = rw (pos-add (suc n) 3) (ground arith)
