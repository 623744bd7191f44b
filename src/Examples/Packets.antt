-- ===== src/Examples/Packets.antt =====
-- Two answers to `STATS`: a short one in three pieces, and one that is too long for the buffer.
use store_monitor.Common.{
  ℕ, ◌≡◌, refl, arith, some, List, [], ◌∷◌, ◌++◌, length, codes, is_space, bytes_at, pos, negsuc,
}
use store_monitor.Engine.Packet.{
  Arrival, arrived, again, interrupted, Packet, fresh_packet, done, read_loop,
}
use store_monitor.Engine.Packet.Filling.{bytes_of}
use store_monitor.Engine.Packet.Wire.{
  Item, IsItem, HeaderRest, header_bytes, item_bytes, items_bytes, item_text, items_text,
}
use store_monitor.Engine.Packet.Response.{read_loop-text, read_loop-refuses}
use store_monitor.Engine.Stats.{MonitorInfo, log_monitor_info}
use store_monitor.Engine.Stats.Recorded.{IsRecorded, Kept}
use store_monitor.Engine.Stats.RoundTrip.{IsPlain, read_loop-IsRecorded}

abbrev zeros : List ℕ
zeros = 0 ∷ 0 ∷ 0 ∷ 0 ∷ 0 ∷ 0 ∷ 0 ∷ 0 ∷ 0 ∷ 0 ∷ 0 ∷ 0 ∷ []

abbrev rest : HeaderRest
rest = record {
  magic = 129;
  opcode = 16;
  extra_len = 0;
  data_type = 0;
  status0 = 0;
  status1 = 0;
  opaque_cas = zeros;
}

abbrev time : Item
time = record { rest = rest; key = codes "time"; value = codes "100" }

time-IsItem : IsItem time
time-IsItem = record {
  tail = refl;
  short_key = omega arith;
  not_empty = omega arith;
  short_body = omega arith;
}

time-IsPlain : IsPlain time
unfolding is_space
time-IsPlain = record {
  key_is = (refl, (refl, (refl, (refl, tt))));
  key_text = (refl, (refl, (refl, (refl, tt))));
  value_is = (refl, (refl, (refl, tt)));
  value_text = (refl, (refl, (refl, tt)));
  first = b'1';
  others = codes "00";
  starts = refl;
  no_space = refl;
}

-- The header is cut behind its fourth byte, and the value behind its first.
abbrev socket : List Arrival
socket =
    arrived 129 (16 ∷ 0 ∷ 4 ∷ [])
    ∷ again
    ∷ arrived 0 (0 ∷ 0 ∷ 0 ∷ 0 ∷ 0 ∷ 0 ∷ 7 ∷ zeros ++ codes "time1")
    ∷ interrupted
    ∷ arrived b'0' (b'0' ∷ 129 ∷ 16 ∷ 0 ∷ 0 ∷ 0 ∷ 0 ∷ 0 ∷ 0 ∷ 0 ∷ 0 ∷ 0 ∷ 0 ∷ zeros)
    ∷ []

socket_bytes : bytes_of socket ≡ items_bytes (time ∷ []) ++ header_bytes 0 0 rest
unfolding item_bytes header_bytes
socket_bytes = refl

text_len : length (items_text (time ∷ [])) ≡ 9
unfolding item_text
text_len = refl

read_loop-text_example :
    (q : Packet) × (read_loop 5 socket fresh_packet ≡ some (done (pos 0) q))
    × (bytes_at q.buffer 0 (length (items_text (time ∷ []) ++ 0 ∷ []))
        ≡ items_text (time ∷ []) ++ 0 ∷ [])
read_loop-text_example =
    read_loop-text (time ∷ []) 0 rest socket 5 (time-IsItem, tt) (omega arith) refl tt socket_bytes
      (omega (arith, text_len)) (omega arith)

abbrev none_yet : MonitorInfo
none_yet = record { time = pos 0; counters = λ _. pos 0; rusage = λ _. [] }

read_loop-IsRecorded_example :
    (q : Packet) × (read_loop 5 socket fresh_packet ≡ some (done (pos 0) q))
    × (new : MonitorInfo) × IsRecorded (time ∷ []) none_yet new
    × Kept none_yet new (log_monitor_info q.buffer none_yet none_yet)
read_loop-IsRecorded_example =
    read_loop-IsRecorded (time ∷ []) 0 rest socket 5 none_yet none_yet (time-IsItem, tt)
      (time-IsPlain, tt) (omega arith) refl tt socket_bytes (omega (arith, text_len)) (omega arith)

-- A value of 1,030 bytes.
abbrev long : Item
long = record { rest = rest; key = codes "k"; value = bytes_at (λ _. b'1') 0 1030 }

long_value : length long.value ≡ 1030
unfolding bytes_at
long_value = refl

long-IsItem : IsItem long
long-IsItem = record {
  tail = refl;
  short_key = omega arith;
  not_empty = omega arith;
  short_body = omega (arith, long_value);
}

abbrev long_socket : List Arrival
long_socket =
    arrived 129 (16 ∷ 0 ∷ 1 ∷ 0 ∷ 0 ∷ 0 ∷ 0 ∷ 0 ∷ 0 ∷ 4 ∷ 7 ∷ zeros ++ b'k' ∷ long.value)
    ∷ arrived 129 []
    ∷ []

long_bytes : bytes_of long_socket ≡ items_bytes (long ∷ []) ++ 129 ∷ []
unfolding item_bytes header_bytes bytes_at
long_bytes = refl

long_text : length (items_text (long ∷ [])) ≡ 1033
unfolding item_text bytes_at
long_text = refl

read_loop-refuses_example :
    (q : Packet) × (read_loop 4 long_socket fresh_packet ≡ some (done (negsuc 0) q))
read_loop-refuses_example =
    read_loop-refuses (long ∷ []) (129 ∷ []) long_socket 4 (long-IsItem, tt) (129, [], refl) tt
      long_bytes (omega (arith, long_text)) (omega arith)
