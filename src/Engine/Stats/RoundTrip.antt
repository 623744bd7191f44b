-- ===== src/Engine/Stats/RoundTrip.antt =====
-- The text that the packet machine makes of the statistics is read back as those statistics.
use store_monitor.Common.{
  ℕ, zero, suc, ◌+◌, ◌-◌, ◌*◌, ◌≤◌, ◌<◌, ◌≡◌, refl, sym, ap, ◌∙◌, arith, true, false, some, List,
  [], ◌∷◌, ◌++◌, append_assoc, length, length-append, All, Str, is_space, atoi, atoi-stop, pos,
  bytes_at, bytes_at-add,
}
use store_monitor.Common.Text.Search.{strchr, strchr-found, Lacks, Lacks-append}
use store_monitor.Engine.Packet.{buf_len, fresh_packet, Packet, done, read_loop, Arrival}
use store_monitor.Engine.Packet.Filling.{Calm, bytes_of, pauses}
use store_monitor.Engine.Packet.Wire.{
  Item, IsItem, HeaderRest, header_bytes, items_bytes, item_text, items_text, length-item_text,
}
use store_monitor.Engine.Packet.Response.{read_loop-text}
use store_monitor.Engine.Stats.Recorded.{
  apply_items, IsRecorded, apply_items-IsRecorded, Kept, exchanged,
}
use store_monitor.Engine.Stats.{
  Stats, MonitorInfo, set_stat, read_stats, c_string, no_reported, log_monitor_info,
}

-- A statistic that the text can carry: no `=` in the key, no space in the value, which does not
-- start with white space either, and no NUL.
pub record IsPlain (i : Item) : Type 0 where
  pub key_is : Lacks b'=' i.key
  pub key_text : Lacks 0 i.key
  pub value_is : Lacks b' ' i.value
  pub value_text : Lacks 0 i.value
  pub first : ℕ
  pub others : Str
  pub starts : i.value ≡ first ∷ others
  pub no_space : is_space first ≡ false

item_text-append :
    (i : Item) (rest : Str) → item_text i ++ rest ≡ i.key ++ b'=' ∷ (i.value ++ b' ' ∷ rest)
unfolding item_text
item_text-append i rest =
    append_assoc i.key (b'=' ∷ (i.value ++ b' ' ∷ [])) rest
    ∙ ap (λ z. i.key ++ b'=' ∷ z) (append_assoc i.value (b' ' ∷ []) rest)

atoi-value : (i : Item) (rest : Str) → IsPlain i → atoi (i.value ++ b' ' ∷ rest) ≡ atoi i.value
atoi-value i rest v = rw v.starts (atoi-stop v.first v.others rest v.no_space)

read_stats-step :
    (fuel : ℕ) (s key behind value rest : Str) (t : Stats)
    → strchr b'=' s ≡ some (key, behind)
    → strchr b' ' behind ≡ some (value, rest)
    → read_stats (suc fuel) s t ≡ read_stats fuel rest (set_stat key value (atoi behind) t)
unfolding read_stats
read_stats-step fuel s key behind value rest t e f = rw (read_stats, e, f) refl

read_stats-item :
    (fuel : ℕ) (i : Item) (rest : Str) (t : Stats)
    → IsPlain i
    → read_stats (suc fuel) (item_text i ++ rest) t
      ≡ read_stats fuel rest (set_stat i.key i.value (atoi i.value) t)
read_stats-item fuel i rest t v =
    ap (λ z. read_stats (suc fuel) z t) (item_text-append i rest)
    ∙ read_stats-step fuel _ i.key (i.value ++ b' ' ∷ rest) i.value rest t
        (strchr-found b'=' i.key (i.value ++ b' ' ∷ rest) v.key_is)
        (strchr-found b' ' i.value rest v.value_is)
    ∙ ap (λ n. read_stats fuel rest (set_stat i.key i.value n t)) (atoi-value i rest v)

read_stats-items :
    (is : List Item) (fuel : ℕ) (t : Stats)
    → All IsPlain is
    → length (items_text is) < fuel
    → read_stats fuel (items_text is) t ≡ (true, apply_items is t)
unfolding apply_items read_stats strchr
read_stats-items is zero t v le = absurd (omega arith)
read_stats-items [] (suc fuel) t v le = refl
read_stats-items (i ∷ is) (suc fuel) t v le =
    read_stats-item fuel i (items_text is) t v.0
    ∙ read_stats-items is fuel (set_stat i.key i.value (atoi i.value) t) v.1
        (omega (arith, length-append (item_text i) (items_text is), length-item_text i))

items_text-Lacks : (is : List Item) → All IsPlain is → Lacks 0 (items_text is)
unfolding item_text
items_text-Lacks [] v = tt
items_text-Lacks (i ∷ is) v =
    Lacks-append 0 (item_text i) (items_text is)
      (Lacks-append 0 i.key (b'=' ∷ (i.value ++ b' ' ∷ [])) v.0.key_text
        (refl, Lacks-append 0 i.value (b' ' ∷ []) v.0.value_text (refl, tt)))
      (items_text-Lacks is v.1)

c_string-text : (xs ys : Str) → Lacks 0 xs → c_string (xs ++ 0 ∷ ys) ≡ xs
unfolding c_string
c_string-text [] ys v = refl
c_string-text (x ∷ xs) ys v = rw v.0 (ap (◌∷◌ x) (c_string-text xs ys v.1))

-- The bytes of a NUL-terminated text at the start of a buffer.
c_string-buffer :
    (buf : ℕ → ℕ) (xs : Str)
    → Lacks 0 xs
    → length xs < buf_len
    → bytes_at buf 0 (length (xs ++ 0 ∷ [])) ≡ xs ++ 0 ∷ []
    → c_string (bytes_at buf 0 buf_len) ≡ xs
c_string-buffer buf xs v le e =
    let n : length (xs ++ 0 ∷ []) + (buf_len - length (xs ++ 0 ∷ [])) ≡ buf_len =
      omega (arith, length-append xs (0 ∷ [])) in
    let ys = bytes_at buf (0 + length (xs ++ 0 ∷ [])) (buf_len - length (xs ++ 0 ∷ [])) in
    ap (λ z. c_string (bytes_at buf 0 z)) (sym n)
    ∙ ap c_string (
        bytes_at-add buf 0 (length (xs ++ 0 ∷ [])) (buf_len - length (xs ++ 0 ∷ []))
        ∙ ap (λ z. z ++ ys) e
        ∙ append_assoc xs (0 ∷ []) ys)
    ∙ c_string-text xs ys v

-- The records behind `now` and `last`, from the text of the statistics.
log_monitor_info-items :
    (is : List Item) (buf : ℕ → ℕ) (now last : MonitorInfo)
    → All IsPlain is
    → length (items_text is) ≤ 1022
    → bytes_at buf 0 (length (items_text is ++ 0 ∷ [])) ≡ items_text is ++ 0 ∷ []
    → (m : MonitorInfo) × IsRecorded is now m × Kept last m (log_monitor_info buf now last)
unfolding log_monitor_info
log_monitor_info-items is buf now last v le e =
    let t : Stats = record { now = now; reported = no_reported } in
    (
      (apply_items is t).now,
      apply_items-IsRecorded is t,
      rw
          (
            c_string-buffer buf (items_text is) (items_text-Lacks is v) (omega arith) e,
            read_stats-items is (suc (length (items_text is))) t v (omega arith),
          )
          (exchanged last (apply_items is t).now),
    )

-- What a memcached server says is what is recorded: the answer goes through the socket, in any
-- pieces, and through the text in the buffer. This is for a well-formed answer whose text leaves two
-- bytes of the buffer free, where no key has a `=` and no value has a space or begins with white
-- space, as long as the connection neither fails nor ends and there is a call for each step. Each
-- field of the record behind `now` then has the number, as `atoi` or `atoll` reads it, or the text
-- of the last statistic under its key, or is as it was where there is none. The two records are
-- exchanged unless the time went back.
pub read_loop-IsRecorded :
    (is : List Item) (m : ℕ) (r : HeaderRest) (s : List Arrival) (fuel : ℕ) (now last : MonitorInfo)
    → All IsItem is
    → All IsPlain is
    → m < 32768
    → length r.opaque_cas ≡ 12
    → Calm s
    → bytes_of s ≡ items_bytes is ++ header_bytes m 0 r
    → length (items_text is) ≤ 1022
    → 3 * length is + pauses s < fuel
    → (q : Packet) × (read_loop fuel s fresh_packet ≡ some (done (pos 0) q))
      × (new : MonitorInfo) × IsRecorded is now new
      × Kept last new (log_monitor_info q.buffer now last)
read_loop-IsRecorded is m r s fuel now last v plain short tail c e fits le =
    let (q, runs, text) = read_loop-text is m r s fuel v short tail c e fits le in
    let (new, fields, kept) = log_monitor_info-items is q.buffer now last plain fits text in
    (q, runs, new, fields, kept)
