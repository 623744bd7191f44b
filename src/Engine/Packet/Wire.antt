-- ===== src/Engine/Packet/Wire.antt =====
-- The memcached protocol as far as the answer to `STATS` goes: its headers, its items, and the text
-- that they make.
use store_monitor.Common.{
  ℕ, ◌+◌, ◌/◌, ◌%◌, ◌<◌, ◌≡◌, arith, List, [], ◌∷◌, ◌++◌, length, length-append, pos, memcpy,
  memcpy-other, to_i16, to_i32,
}
use store_monitor.Engine.Packet.{key_len_of, total_body_len_of}

-- What a header holds beside the two lengths; `opaque_cas` is 12 bytes.
pub record HeaderRest : Type 0 where
  pub magic : ℕ
  pub opcode : ℕ
  pub extra_len : ℕ
  pub data_type : ℕ
  pub status0 : ℕ
  pub status1 : ℕ
  pub opaque_cas : List ℕ

-- A header on the wire, its lengths in network order.
unfoldable pub header_bytes : ℕ → ℕ → HeaderRest → List ℕ
header_bytes key_len total r =
    r.magic
    ∷ r.opcode
    ∷ key_len / 256
    ∷ key_len % 256
    ∷ r.extra_len
    ∷ r.data_type
    ∷ r.status0
    ∷ r.status1
    ∷ total / 16777216
    ∷ total / 65536 % 256
    ∷ total / 256 % 256
    ∷ total % 256
    ∷ r.opaque_cas

-- One statistic.
pub record Item : Type 0 where
  pub rest : HeaderRest
  pub key : List ℕ
  pub value : List ℕ

abbrev pub body_len : Item → ℕ
body_len i = length i.key + length i.value

-- A key or a value is there, and the lengths fit their fields; `totalBodyLen` stays 3 below the
-- largest `int`.
pub record IsItem (i : Item) : Type 0 where
  pub tail : length i.rest.opaque_cas ≡ 12
  pub short_key : length i.key < 32768
  pub not_empty : 0 < body_len i
  pub short_body : body_len i < 2147483645

unfoldable pub item_bytes : Item → List ℕ
item_bytes i = header_bytes (length i.key) (body_len i) i.rest ++ (i.key ++ i.value)

abbrev pub items_bytes : List Item → List ℕ
items_bytes [] = []
items_bytes (i ∷ is) = item_bytes i ++ items_bytes is

unfoldable pub item_text : Item → List ℕ
item_text i = i.key ++ b'=' ∷ (i.value ++ b' ' ∷ [])

-- `key=value key=value `.
abbrev pub items_text : List Item → List ℕ
items_text [] = []
items_text (i ∷ is) = item_text i ++ items_text is

pub length-header_bytes :
    (k t : ℕ) (r : HeaderRest) → length r.opaque_cas ≡ 12 → length (header_bytes k t r) ≡ 24
unfolding header_bytes
length-header_bytes k t r h = omega (arith, h)

pub length-item_text : (i : Item) → length (item_text i) ≡ body_len i + 2
unfolding item_text
length-item_text i =
    let e : length (i.key ++ b'=' ∷ (i.value ++ b' ' ∷ [])) ≡ body_len i + 2 = omega (
      arith,
      length-append i.key (b'=' ∷ (i.value ++ b' ' ∷ [])),
      length-append i.value (b' ' ∷ []),
    ) in
    e

-- The code finds the lengths that the header states.
pub key_len_of-header :
    (k t : ℕ) (r : HeaderRest) (h : ℕ → ℕ)
    → k < 32768
    → key_len_of (memcpy 0 (header_bytes k t r) h) ≡ pos k
unfolding header_bytes key_len_of to_i16 memcpy
key_len_of-header k t r h small =
    rw
      (
        memcpy-other 12 r.opaque_cas _ 2 (λ le. absurd (omega arith)),
        memcpy-other 12 r.opaque_cas _ 3 (λ le. absurd (omega arith)),
      )
      (ground arith)

pub total_body_len_of-header :
    (k t : ℕ) (r : HeaderRest) (h : ℕ → ℕ)
    → t < 2147483648
    → total_body_len_of (memcpy 0 (header_bytes k t r) h) ≡ pos t
unfolding header_bytes total_body_len_of to_i32 memcpy
total_body_len_of-header k t r h small =
    rw
      (
        memcpy-other 12 r.opaque_cas _ 8 (λ le. absurd (omega arith)),
        memcpy-other 12 r.opaque_cas _ 9 (λ le. absurd (omega arith)),
        memcpy-other 12 r.opaque_cas _ 10 (λ le. absurd (omega arith)),
        memcpy-other 12 r.opaque_cas _ 11 (λ le. absurd (omega arith)),
      )
      (ground arith)
