-- ===== src/Engine/Packet.antt =====
-- engine/memcached.c: the response to `STATS`, read from a socket that does not block.
pub mod Bytes
pub mod Filling
pub mod Wire
pub mod Steps
pub mod Parts
pub mod Stops
pub mod Response
use store_monitor.Common.{
  ℕ, zero, suc, ◌+◌, ◌*◌, ◌-◌, ◌%◌, ◌/◌, leb, ◌==◌, if◌then◌else◌, ◌>>=◌, Bool, true, false, Option,
  none, some, List, [], ◌∷◌, take, drop, length, ℤ, pos, negsuc, ◌+ℤ◌, ◌-ℤ◌, leb_ℤ, to_i16, to_i32,
  memcpy,
}

-- `BUF_LEN`, and the size of `stMemcachedCommandHeader`.
abbrev pub buf_len : ℕ
buf_len = 1024

abbrev pub header_len : ℕ
header_len = 24

-- What the next call of `read` finds: bytes, at least one; `EAGAIN`; `EINTR`; another error, as
-- `errno - 1`; or the end of the stream. After the last of them the socket has no byte yet.
pub data Arrival : Type 0 where
  arrived : ℕ → List ℕ → Arrival
  again interrupted closed : Arrival
  failed : ℕ → Arrival

-- `pcur`: an address in `hdr`, or one in `buffer`, where it may also lie outside.
pub data Place : Type 0 where
  in_header : ℕ → Place
  in_buffer : ℤ → Place

pub data ReadState : Type 0 where
  read_header read_key read_value : ReadState

-- `stMemcachedPacket`. The code turns `keyLen` and `totalBodyLen` to host order in place; here the
-- header keeps its bytes, and the two numbers stand beside it.
pub record Packet : Type 0 where
  pub pcur : Place
  pub left : ℤ
  pub buffer : ℕ → ℕ
  pub buffer_left : ℤ
  pub read_state : ReadState
  pub hdr : ℕ → ℕ
  pub key_len : ℤ
  pub total_body_len : ℤ

-- The packet as `memcachedSendStatsToServer` leaves it when the command is written.
unfoldable pub fresh_packet : Packet
fresh_packet = record {
  pcur = in_header 0;
  left = pos header_len;
  buffer = λ _. 0;
  buffer_left = pos buf_len;
  read_state = read_header;
  hdr = memcpy 0 (128 ∷ 16 ∷ []) (λ _. 0);
  key_len = pos 0;
  total_body_len = pos 0;
}

-- Bytes go to `pcur`, which moves on. Beyond the header or the buffer this is a fault.
unfoldable pub put_bytes : List ℕ → Place → Packet → Option Packet
put_bytes bs (in_header o) p =
    if leb (o + length bs) header_len
    then some (record p { hdr = memcpy o bs p.hdr; pcur = in_header (o + length bs) })
    else none
put_bytes bs (in_buffer (pos o)) p =
    if leb (o + length bs) buf_len
    then some (record p { buffer = memcpy o bs p.buffer; pcur = in_buffer (pos (o + length bs)) })
    else none
put_bytes bs (in_buffer (negsuc o)) p = none

abbrev is_zero : ℤ → Bool
is_zero (pos zero) = true
is_zero _ = false

-- What `read` takes of the bytes that are there, and what it leaves; a negative `left` is converted
-- to `size_t`, and takes all.
abbrev pub taken : ℤ → List ℕ → List ℕ
taken (pos n) bs = take n bs
taken (negsuc n) bs = bs

abbrev pub kept : ℤ → List ℕ → List ℕ
kept (pos n) bs = drop n bs
kept (negsuc n) bs = []

unfoldable pub receive : List ℕ → Packet → Option Packet
unfolding put_bytes
receive bs p = put_bytes bs p.pcur (record p { left = p.left -ℤ pos (length bs) })

-- How the loop ends: `left` is 0; `EAGAIN`; or with `rac->err`.
pub data Filled : Type 0 where
  full waiting : List Arrival → Packet → Filled
  broken : ℤ → Packet → Filled

-- Bytes that `read` left are there for the next call, and then `left` is 0.
go_on : List ℕ → List Arrival → Packet → Option Filled → Option Filled
go_on [] s p rest = rest
go_on (c ∷ cs) s p rest = some (full (arrived c cs ∷ s) p)

-- The loop `while (res->left)` of `memcachedReadStatsResponse`.
unfoldable pub fill : List Arrival → Packet → Option Filled
unfolding receive go_on
fill [] p = some (if is_zero p.left then full [] p else waiting [] p)
fill (arrived b bs ∷ s) p =
    if is_zero p.left
    then some (full (arrived b bs ∷ s) p)
    else (do p' ← receive (taken p.left (b ∷ bs)) p; go_on (kept p.left (b ∷ bs)) s p' (fill s p'))
fill (again ∷ s) p = some (if is_zero p.left then full (again ∷ s) p else waiting s p)
fill (interrupted ∷ s) p = if is_zero p.left then some (full (interrupted ∷ s) p) else fill s p
fill (failed e ∷ s) p =
    some (if is_zero p.left then full (failed e ∷ s) p else broken (pos (suc e)) p)
fill (closed ∷ s) p = some (if is_zero p.left then full (closed ∷ s) p else broken (negsuc 0) p)

-- `ntohs(hdr->keyLen)` and `ntohl(hdr->totalBodyLen)`.
unfoldable pub key_len_of : (ℕ → ℕ) → ℤ
unfolding to_i16
key_len_of h = to_i16 (h 2 * 256 + h 3)

unfoldable pub total_body_len_of : (ℕ → ℕ) → ℤ
unfolding to_i32
total_body_len_of h = to_i32 (((h 8 * 256 + h 9) * 256 + h 10) * 256 + h 11)

-- A call of `memcachedReadStatsResponse`: the packet waits for more, or the query is over, with
-- `rac->err`, which is 0 when the buffer holds the whole answer.
pub data Turn : Type 0 where
  goes_on : List Arrival → Packet → Turn
  done : ℤ → Packet → Turn

-- `&res->buffer[BUF_LEN - res->bufferLeft]`.
abbrev pub buffer_end : Packet → Place
buffer_end p = in_buffer (pos buf_len -ℤ p.buffer_left)

-- A header is complete. `totalBodyLen + 3` beyond the range of an `int` is a fault.
unfoldable pub header_done : List Arrival → Packet → Option Turn
unfolding put_bytes
header_done s p =
    if is_zero p.total_body_len
    then put_bytes (0 ∷ []) (buffer_end p) p
      >>= (λ p'. some (done (pos 0) (record p' { pcur = p.pcur })))
    else (if leb_ℤ (pos 2147483645) p.total_body_len
        then none
        else some (
            if leb_ℤ p.buffer_left (p.total_body_len +ℤ pos 3)
            then done (negsuc 0) p
            else goes_on s
                (record p { left = p.key_len; pcur = buffer_end p; read_state = read_key })))

-- A key is complete.
unfoldable pub key_done : List Arrival → Packet → Option Turn
unfolding put_bytes
key_done s p = do
  p' ← put_bytes (b'=' ∷ []) p.pcur p
  some (
      goes_on s (record p' {
        buffer_left = p.buffer_left -ℤ (p.key_len +ℤ pos 1);
        left = p.total_body_len -ℤ p.key_len;
        read_state = read_value;
      }))

-- A value is complete.
unfoldable pub value_done : List Arrival → Packet → Option Turn
unfolding put_bytes
value_done s p = do
  p' ← put_bytes (b' ' ∷ []) p.pcur p
  some (
      goes_on s (record p' {
        pcur = in_header 0;
        buffer_left = p.buffer_left -ℤ (p.total_body_len -ℤ p.key_len +ℤ pos 1);
        left = pos header_len;
        read_state = read_header;
      }))

-- The `switch` on `readState`.
unfoldable pub part_done : ReadState → List Arrival → Packet → Option Turn
unfolding header_done key_done value_done
part_done read_header s p =
    header_done s
      (record p { key_len = key_len_of p.hdr; total_body_len = total_body_len_of p.hdr })
part_done read_key s p = key_done s p
part_done read_value s p = value_done s p

unfoldable pub after_fill : Filled → Option Turn
unfolding part_done
after_fill (full s p) = part_done p.read_state s p
after_fill (waiting s p) = some (goes_on s p)
after_fill (broken e p) = some (done e p)

-- `memcachedReadStatsResponse`.
unfoldable pub read_stats_response : List Arrival → Packet → Option Turn
unfolding fill after_fill
read_stats_response s p = fill s p >>= after_fill

-- The event loop calls it as long as something arrives.
unfoldable pub read_loop : ℕ → List Arrival → Packet → Option Turn
unfolding read_stats_response
read_loop zero s p = some (goes_on s p)
read_loop (suc fuel) [] p = some (goes_on [] p)
read_loop (suc fuel) (a ∷ s) p = elim (read_stats_response (a ∷ s) p) [
  | none ↦ none
  | some (goes_on s' p') ↦ read_loop fuel s' p'
  | some (done e p') ↦ some (done e p')
]
