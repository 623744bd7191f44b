-- ===== src/Log/Ring.antt =====
-- log.c: one of the two buffers of `LOG_BUF_SIZE` bytes, `log_buf` or `logwf_buf`, with its offsets.
pub mod Bounds
use store_monitor.Common.{
  memcpy, bytes_at, ℕ, zero, suc, ◌+◌, ◌-◌, ◌*◌, ◌%◌, ltb, leb, if◌then◌else◌, ◌==◌, Bool, true,
  false, List, [], ◌∷◌, ◌++◌, take, drop, length,
}

-- `LOG_BUF_SIZE`.
abbrev pub log_buf_size : ℕ
log_buf_size = 16 * 1024 * 1024

-- A buffer of `size` bytes as a function of the index.
pub record Ring : Type 0 where
  pub bytes : ℕ → ℕ
  pub write_offset : ℕ
  pub read_offset : ℕ

-- The last byte of a cut line becomes a newline.
unfoldable pub end_line : List ℕ → List ℕ
end_line [] = []
end_line (c ∷ []) = 10 ∷ []
end_line (c ∷ d ∷ cs) = c ∷ end_line (d ∷ cs)

module _ (size : ℕ) where
  -- `buf_left_size`.
  abbrev pub left_size : Ring → ℕ
  left_size r = size - (r.write_offset + size - r.read_offset) % size

  -- The part of a line that fits: all of it, or as much as leaves one byte free.
  unfoldable pub fitting : Ring → List ℕ → List ℕ
  unfolding end_line
  fitting r line =
      if leb (length line) (left_size r - 1)
      then line
      else (if ltb 0 (left_size r - 1) then end_line (take (left_size r - 1) line) else [])

  -- The copy, in two pieces where it passes the end of the buffer.
  unfoldable pub copy_in : Ring → List ℕ → Ring
  unfolding memcpy
  copy_in r cs = record r {
    bytes =
        if ltb (r.write_offset + length cs) size
        then memcpy r.write_offset cs r.bytes
        else memcpy 0 (drop (size - r.write_offset) cs)
            (memcpy r.write_offset (take (size - r.write_offset) cs) r.bytes);
    write_offset = (r.write_offset + length cs) % size;
  }

  -- The end of `log_printf`: a finished line goes to the buffer.
  unfoldable pub put_line : Ring → List ℕ → Ring
  unfolding fitting copy_in
  put_line r line = copy_in r (fitting r line)

  -- The loop body of `log_thread_loop` for one buffer, where `fwrite` writes all that it is given:
  -- what goes to the file, and the buffer afterwards. It is one step here: no line is put while it
  -- runs.
  unfoldable pub drain : Ring → List ℕ × Ring
  unfolding bytes_at
  drain r =
      if r.write_offset == r.read_offset
      then ([], r)
      else (if ltb r.read_offset r.write_offset
          then (
            bytes_at r.bytes r.read_offset (r.write_offset - r.read_offset),
            record r { read_offset = r.write_offset % size },
          )
          else (
            bytes_at r.bytes r.read_offset (size - r.read_offset)
                ++ bytes_at r.bytes 0 r.write_offset,
            record r { read_offset = r.write_offset % size },
          ))
