-- ===== src/Examples/Rings.antt =====
-- The ring theorems on a buffer of eight bytes whose unread bytes pass its end.
use store_monitor.Common.{◌+◌, ◌-◌, ◌<◌, ◌≡◌, arith, [], ◌∷◌, ◌++◌, length}
use store_monitor.Log.Ring.{Ring, put_line, drain}
use store_monitor.Log.Ring.Bounds.{
  InRange, unread, pending, shortened, put_line-unread, drain-unread,
}

abbrev ring : Ring
ring = record { bytes = λ i. i; write_offset = 2; read_offset = 6 }

ring-InRange : InRange 8 ring
ring-InRange = record { writes = omega arith; reads = omega arith }

put_line-unread_example :
    InRange 8 (put_line 8 ring (65 ∷ 66 ∷ 10 ∷ []))
    × (unread 8 (put_line 8 ring (65 ∷ 66 ∷ 10 ∷ []))
        ≡ unread 8 ring ++ shortened 8 (8 - pending 8 ring - 1) (65 ∷ 66 ∷ 10 ∷ []))
    × (pending 8 ring + length (shortened 8 (8 - pending 8 ring - 1) (65 ∷ 66 ∷ 10 ∷ [])) < 8)
put_line-unread_example = put_line-unread 8 ring (65 ∷ 66 ∷ 10 ∷ []) ring-InRange

drain-unread_example :
    ((drain 8 ring).0 ≡ unread 8 ring)
    × (unread 8 (drain 8 ring).1 ≡ [])
    × InRange 8 (drain 8 ring).1
drain-unread_example = drain-unread 8 ring ring-InRange
