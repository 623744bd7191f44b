-- ===== src/Engine/Packet/Parts.antt =====
-- The three parts of a statistic: header, key and value.
use store_monitor.Common.{
  ℕ, ◌+◌, ◌-◌, ◌≤◌, ◌<◌, ◌≡◌, refl, sym, subst, ◌∙◌, arith, List, [], ◌∷◌, ◌++◌, append_assoc,
  length, length-append, ℤ, pos, memcpy,
}
use store_monitor.Engine.Packet.{
  Arrival, Place, in_header, in_buffer, ReadState, read_header, read_key, read_value, Packet,
  part_done,
}
use store_monitor.Engine.Packet.Bytes.{with_left}
use store_monitor.Engine.Packet.Filling.{Calm, bytes_of}
use store_monitor.Engine.Packet.Wire.{
  Item, IsItem, item_bytes, item_text, length-item_text, header_bytes, body_len,
  length-header_bytes, key_len_of-header, total_body_len_of-header,
}
use store_monitor.Engine.Packet.Steps.{
  Proceeds, Proceeds-then, More, More-append, part_leads, packet_at, ready, put_bytes-packet,
  put_bytes-header, header_done_lem, key_done_lem, value_done_lem,
}

module _ (i : Item) (v : IsItem i) (b h : ℕ → ℕ) (k t : ℤ) where
  abbrev hb : List ℕ
  hb = header_bytes (length i.key) (body_len i) i.rest

  -- The packet while the item is read: its header is there.
  abbrev at_item : Place → ℕ → ReadState → List ℕ → ℕ → Packet
  at_item pc left state w free =
      packet_at pc left state w free b (memcpy 0 hb h) (pos (length i.key)) (pos (body_len i))

  -- The header of a statistic that fits.
  header_part :
      (s : List Arrival) (w rest : List ℕ)
      → Calm s
      → bytes_of s ≡ hb ++ rest
      → More rest
      → length w + body_len i + 3 < 1024
      → Proceeds 1 s rest
          (ready w b h k t)
          (at_item (in_buffer (pos (length w))) (length i.key) read_key w (1024 - length w))
  unfolding part_done
  header_part s w rest c e m fits =
      let n : length hb ≡ 24 = length-header_bytes (length i.key) (body_len i) i.rest v.tail in
      subst
        (λ l.
          Proceeds 1 s rest (with_left l (ready w b h k t))
            (at_item (in_buffer (pos (length w))) (length i.key) read_key w (1024 - length w)))
        n
        (part_leads s hb rest (ready w b h k t)
          (packet_at (in_header 24) 24 read_header w (1024 - length w) b (memcpy 0 hb h) k t) _ c e
          m (put_bytes-header w hb (1024 - length w) b h k t n)
          λ s'.
            rw
              (
                key_len_of-header (length i.key) (body_len i) i.rest h v.short_key,
                total_body_len_of-header (length i.key) (body_len i) i.rest h
                    (omega (arith, v.short_body)),
              )
              (header_done_lem s' w (length i.key) (body_len i) b (memcpy 0 hb h) v.not_empty
                v.short_body fits))

  -- The key, and the `=` behind it.
  key_part :
      (s : List Arrival) (w rest : List ℕ)
      → Calm s
      → bytes_of s ≡ i.key ++ rest
      → More rest
      → length w + length i.key + 1 < 1024
      → Proceeds 1 s rest
          (at_item (in_buffer (pos (length w))) (length i.key) read_key w (1024 - length w))
          (at_item
            (in_buffer (pos (length ((w ++ i.key) ++ b'=' ∷ []))))
            (body_len i - length i.key)
            read_value
            ((w ++ i.key) ++ b'=' ∷ [])
            (1024 - length w - (length i.key + 1)))
  unfolding part_done
  key_part s w rest c e m fits =
      part_leads s i.key rest
        (at_item (in_buffer (pos (length w))) (length i.key) read_key w (1024 - length w))
        (at_item (in_buffer (pos (length (w ++ i.key)))) (length i.key) read_key (w ++ i.key)
          (1024 - length w))
        _ c e m
        (put_bytes-packet (length i.key) read_key w i.key (1024 - length w) b (memcpy 0 hb h)
          (pos (length i.key)) (pos (body_len i)) (omega (arith, length-append w i.key)))
        λ s'.
          key_done_lem s' (w ++ i.key) (1024 - length w) (length i.key) (body_len i) b
            (memcpy 0 hb h) (omega (arith, length-append w i.key)) (omega arith) (omega arith)

  -- The value, and the space behind it.
  value_part :
      (s : List Arrival) (w rest : List ℕ) (left free : ℕ)
      → left ≡ length i.value
      → Calm s
      → bytes_of s ≡ i.value ++ rest
      → More rest
      → length w + length i.value < 1024
      → length i.value < free
      → Proceeds 1 s rest (at_item (in_buffer (pos (length w))) left read_value w free) (
          at_item
            (in_header 0)
            24
            read_header
            ((w ++ i.value) ++ b' ' ∷ [])
            (free - (body_len i - length i.key + 1)))
  unfolding part_done
  value_part s w rest left free l c e m fits more =
      subst
        (λ n. Proceeds 1 s rest (at_item (in_buffer (pos (length w))) n read_value w free) (
          at_item (in_header 0) 24 read_header ((w ++ i.value) ++ b' ' ∷ [])
            (free - (body_len i - length i.key + 1))))
        (sym l)
        (part_leads s i.value rest
          (at_item (in_buffer (pos (length w))) (length i.value) read_value w free)
          (at_item (in_buffer (pos (length (w ++ i.value)))) (length i.value) read_value
            (w ++ i.value) free)
          _ c e m
          (put_bytes-packet (length i.value) read_value w i.value free b (memcpy 0 hb h)
            (pos (length i.key)) (pos (body_len i)) (omega (arith, length-append w i.value)))
          λ s'.
            value_done_lem s' (w ++ i.value) free (length i.key) (body_len i) b (memcpy 0 hb h)
              (omega (arith, length-append w i.value)) (omega arith) (omega arith))

  item_text_lem :
      (w : List ℕ) → (((w ++ i.key) ++ b'=' ∷ []) ++ i.value) ++ b' ' ∷ [] ≡ w ++ item_text i
  unfolding item_text
  item_text_lem w =
      append_assoc ((w ++ i.key) ++ b'=' ∷ []) i.value (b' ' ∷ [])
      ∙ append_assoc (w ++ i.key) (b'=' ∷ []) (i.value ++ b' ' ∷ [])
      ∙ append_assoc w i.key (b'=' ∷ (i.value ++ b' ' ∷ []))

  -- A statistic that fits goes to the buffer as `key=value `.
  pub item_part :
      (s : List Arrival) (w rest : List ℕ)
      → Calm s
      → bytes_of s ≡ item_bytes i ++ rest
      → More rest
      → length (w ++ item_text i) ≤ 1022
      → Proceeds 3 s rest
          (ready w b h k t)
          (ready (w ++ item_text i) b (memcpy 0 hb h) (pos (length i.key)) (pos (body_len i)))
  unfolding item_bytes
  item_part s w rest c e m fits =
      let n : length (w ++ item_text i) ≡ length w + (body_len i + 2) =
        omega (arith, length-append w (item_text i), length-item_text i) in
      let n' : length ((w ++ i.key) ++ b'=' ∷ []) ≡ length w + length i.key + 1 =
        omega (arith, length-append w i.key, length-append (w ++ i.key) (b'=' ∷ [])) in
      let f : 1024 - length w - (length i.key + 1) - (body_len i - length i.key + 1)
          ≡ 1024 - length (w ++ item_text i) =
        omega (arith, n) in
      subst
        (λ z.
          Proceeds 3 s rest (ready w b h k t)
            (at_item (in_header 0) 24 read_header z (1024 - length (w ++ item_text i))))
        (item_text_lem w)
        (subst
          (λ z. Proceeds 3 s rest (ready w b h k t) (
            at_item (in_header 0) 24 read_header
              ((((w ++ i.key) ++ b'=' ∷ []) ++ i.value) ++ b' ' ∷ []) z))
          f
          (Proceeds-then 1 2 s _ rest _ _ _
            (header_part s w (i.key ++ (i.value ++ rest)) c
              (e ∙ rw (append_assoc, append_assoc) refl)
              (More-append i.key (i.value ++ rest) (More-append i.value rest m)) (omega (arith, n)))
            λ s1 c1 e1.
              Proceeds-then 1 1 s1 _ rest _ _ _
                (key_part s1 w (i.value ++ rest) c1 e1 (More-append i.value rest m)
                  (omega (arith, n)))
                λ s2 c2 e2.
                  value_part s2 ((w ++ i.key) ++ b'=' ∷ []) rest (body_len i - length i.key)
                    (1024 - length w - (length i.key + 1)) (omega arith) c2 e2 m
                    (omega (arith, n, n')) (omega (arith, n))))
