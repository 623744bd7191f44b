-- ===== src/Engine/Packet/Response.antt =====
-- The whole answer to `STATS`: whatever the socket makes of it, the buffer gets the statistics as
-- text, or the answer is refused where the buffer is too small.
use store_monitor.Common.{
  ℕ, zero, suc, ◌+◌, ◌-◌, ◌*◌, ◌≤◌, ◌<◌, ◌≡◌, sym, ap, subst, ◌∙◌, arith, leb, Bool-cases, inl, inr,
  if◌then◌else◌, some, List, [], ◌∷◌, ◌++◌, append_assoc, append-nil, length, length-append, All, ℤ,
  pos, negsuc, memcpy, bytes_at, bytes_at-memcpy,
}
use store_monitor.Engine.Packet.{
  Arrival, in_header, read_header, Packet, fresh_packet, Turn, done, read_loop,
}
use store_monitor.Engine.Packet.Filling.{Calm, bytes_of, pauses, read_loop-suc}
use store_monitor.Engine.Packet.Wire.{
  Item, IsItem, HeaderRest, header_bytes, item_bytes, items_bytes, item_text, items_text, body_len,
  length-item_text,
}
use store_monitor.Engine.Packet.Steps.{More, More-append, packet_at, ready}
use store_monitor.Engine.Packet.Parts.{item_part}
use store_monitor.Engine.Packet.Stops.{
  Stops, Stops-more, Stops-then, More-items, header_comes, closed_packet, header_done-end,
  header_done-full,
}

-- The header's memory after the headers of some statistics.
abbrev hdr_after : List Item → (ℕ → ℕ) → ℕ → ℕ
hdr_after [] h = h
hdr_after (i ∷ is) h = hdr_after is (memcpy 0 (header_bytes (length i.key) (body_len i) i.rest) h)

full_packet : (ℕ → ℕ) → List ℕ → (ℕ → ℕ) → Item → Packet
full_packet b w h i =
    packet_at (in_header 24) 0 read_header w (1024 - length w) b
      (memcpy 0 (header_bytes (length i.key) (body_len i) i.rest) h) (pos (length i.key))
      (pos (body_len i))

-- The packet at the first statistic that does not fit behind `w`.
refused_packet : (ℕ → ℕ) → List Item → List ℕ → (ℕ → ℕ) → Packet
unfolding full_packet
refused_packet b [] w h = ready w b h (pos 0) (pos 0)
refused_packet b (i ∷ is) w h =
    let rest =
      refused_packet b is (w ++ item_text i)
        (memcpy 0 (header_bytes (length i.key) (body_len i) i.rest) h) in
    if leb (length (w ++ item_text i)) 1022 then rest else full_packet b w h i

module _ (b : ℕ → ℕ) where
  module _ (m : ℕ) (r : HeaderRest) (short : m < 32768) (tail : length r.opaque_cas ≡ 12) where
    -- All statistics fit.
    items_stored :
        (is : List Item) (s : List Arrival) (w : List ℕ) (h : ℕ → ℕ) (k t : ℤ)
        → All IsItem is
        → Calm s
        → bytes_of s ≡ items_bytes is ++ header_bytes m 0 r
        → length (w ++ items_text is) ≤ 1022
        → Stops (3 * length is) s (ready w b h k t) (
            done (pos 0) (
              closed_packet
                (w ++ items_text is)
                b
                (memcpy 0 (header_bytes m 0 r) (hdr_after is h))
                m))
    items_stored [] s w h k t v c e fits = rw append-nil (
        header_comes s w [] b h k t (pos 0) m 0 r _ c (e ∙ sym (append-nil _)) short (omega arith)
          tail
          (λ s'.
            header_done-end s' w m b (memcpy 0 (header_bytes m 0 r) h)
              (omega (arith, length-append w []))))
    items_stored (i ∷ is) s w h k t v c e fits =
        let a = append_assoc w (item_text i) (items_text is) in
        let n : length (w ++ (item_text i ++ items_text is))
            ≡ length (w ++ item_text i) + length (items_text is) =
          ap length (sym a) ∙ length-append (w ++ item_text i) (items_text is) in
        let stop : (z : List ℕ) → Turn = λ z.
          done (pos 0)
            (closed_packet z b (memcpy 0 (header_bytes m 0 r) (hdr_after (i ∷ is) h)) m) in
        subst (λ z. Stops (3 * suc (length is)) s (ready w b h k t) (stop z)) a
          (subst (λ z. Stops z s (ready w b h k t) (stop ((w ++ item_text i) ++ items_text is)))
            (let d : 3 + 3 * length is ≡ 3 * suc (length is) = omega arith in d)
            (Stops-then 3 (3 * length is) s _ _ _ _
              (item_part i v.0 b h k t s w (items_bytes is ++ header_bytes m 0 r) c
                (e ∙ append_assoc (item_bytes i) (items_bytes is) (header_bytes m 0 r))
                (More-items is m r) (omega (arith, n)))
              λ s' c' e'.
                items_stored is s' (w ++ item_text i) _ _ _ v.1 c' e'
                  (subst (λ z. length z ≤ 1022) (sym a) fits)))

  item_refused :
      (i : Item) (s : List Arrival) (w rest : List ℕ) (h : ℕ → ℕ) (k t : ℤ)
      → IsItem i
      → Calm s
      → bytes_of s ≡ item_bytes i ++ rest
      → length w ≤ 1022
      → 1022 < length w + (body_len i + 2)
      → Stops 0 s (ready w b h k t) (done (negsuc 0) (full_packet b w h i))
  unfolding item_bytes full_packet
  item_refused i s w rest h k t v c e low high =
      header_comes s w ((i.key ++ i.value) ++ rest) b h k t (negsuc 0) (length i.key) (body_len i)
        i.rest _ c
        (e ∙ append_assoc (header_bytes (length i.key) (body_len i) i.rest) (i.key ++ i.value) rest)
        v.short_key (omega (arith, v.short_body)) v.tail
        (λ s'.
          header_done-full s' w (length i.key) (body_len i) b _ v.not_empty v.short_body
            (omega arith) low)

  -- One of them does not fit.
  items_refused :
      (is : List Item) (s : List Arrival) (w rest : List ℕ) (h : ℕ → ℕ) (k t : ℤ)
      → All IsItem is
      → More rest
      → Calm s
      → bytes_of s ≡ items_bytes is ++ rest
      → length w ≤ 1022
      → 1022 < length (w ++ items_text is)
      → Stops (3 * length is) s (ready w b h k t) (done (negsuc 0) (refused_packet b is w h))
  unfolding refused_packet
  items_refused [] s w rest h k t v m c e low high = absurd (omega (arith, length-append w []))
  items_refused (i ∷ is) s w rest h k t v m c e low high =
      let n : length (w ++ item_text i) ≡ length w + (body_len i + 2) =
        omega (arith, length-append w (item_text i), length-item_text i) in
      let e1 = e ∙ append_assoc (item_bytes i) (items_bytes is) rest in
      elim (Bool-cases (leb (length (w ++ item_text i)) 1022)) [
        | inl fits ↦ rw fits (
            subst
              (λ z. Stops z s (ready w b h k t) (
                done (negsuc 0) (
                  refused_packet b is (w ++ item_text i)
                    (memcpy 0 (header_bytes (length i.key) (body_len i) i.rest) h))))
              (let d : 3 + 3 * length is ≡ 3 * suc (length is) = omega arith in d)
              (Stops-then 3 (3 * length is) s _ _ _ _
                (item_part i v.0 b h k t s w (items_bytes is ++ rest) c e1
                  (More-append (items_bytes is) rest m) (ground arith))
                λ s' c' e'.
                  items_refused is s' (w ++ item_text i) rest _ _ _ v.1 m c' e' (ground arith) (
                    subst (λ z. 1022 < length z)
                      (sym (append_assoc w (item_text i) (items_text is))) high)))
        | inr long ↦ rw long (
            Stops-more (3 * suc (length is)) s _ _
              (item_refused i s w (items_bytes is ++ rest) h k t v.0 c e1 low (ground (arith, n))))
      ]

-- The first call after the command was sent.
from_the_start :
    (n fuel : ℕ) (s : List Arrival) (o : Turn)
    → More (bytes_of s)
    → Stops n s fresh_packet o
    → n + pauses s < fuel
    → read_loop fuel s fresh_packet ≡ some o
unfolding Stops
from_the_start n zero s o m f le = absurd (omega arith)
from_the_start n (suc fuel) [] o (x, xs, e) f le = cc
from_the_start n (suc fuel) (a ∷ s) o m f le =
    read_loop-suc fuel a s fresh_packet ∙ f fuel (omega arith)

-- A well-formed answer whose text leaves two bytes of the buffer free is read to its end, without
-- an error, however the socket cuts it, as long as the connection neither fails nor ends: the
-- buffer then holds `key=value ` of every statistic in order, and a NUL. Three calls for each
-- statistic, one for the end and one for each time that nothing was there are enough.
pub read_loop-text :
    (is : List Item) (m : ℕ) (r : HeaderRest) (s : List Arrival) (fuel : ℕ)
    → All IsItem is
    → m < 32768
    → length r.opaque_cas ≡ 12
    → Calm s
    → bytes_of s ≡ items_bytes is ++ header_bytes m 0 r
    → length (items_text is) ≤ 1022
    → 3 * length is + pauses s < fuel
    → (q : Packet) × (read_loop fuel s fresh_packet ≡ some (done (pos 0) q))
      × (bytes_at q.buffer 0 (length (items_text is ++ 0 ∷ [])) ≡ items_text is ++ 0 ∷ [])
unfolding fresh_packet memcpy
read_loop-text is m r s fuel v short tail c e fits le = (
  closed_packet (items_text is) (λ _. 0) _ m,
  from_the_start (3 * length is) fuel s _ (subst More (sym e) (More-items is m r))
      (items_stored (λ _. 0) m r short tail is s [] _ (pos 0) (pos 0) v c e fits) le,
  bytes_at-memcpy 0 (items_text is ++ 0 ∷ []) (λ _. 0),
)

-- A well-formed answer whose text is longer is refused, with `rac->err` -1, and nothing is written
-- outside the buffer.
pub read_loop-refuses :
    (is : List Item) (rest : List ℕ) (s : List Arrival) (fuel : ℕ)
    → All IsItem is
    → More rest
    → Calm s
    → bytes_of s ≡ items_bytes is ++ rest
    → 1022 < length (items_text is)
    → 3 * length is + pauses s < fuel
    → (q : Packet) × (read_loop fuel s fresh_packet ≡ some (done (negsuc 0) q))
unfolding fresh_packet memcpy
read_loop-refuses is rest s fuel v m c e long le = (
  _,
  from_the_start (3 * length is) fuel s _ (subst More (sym e) (More-append (items_bytes is) rest m))
      (items_refused (λ _. 0) is s [] rest _ (pos 0) (pos 0) v m c e (omega arith) long) le,
)
