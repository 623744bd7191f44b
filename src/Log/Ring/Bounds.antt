-- ===== src/Log/Ring/Bounds.antt =====
-- The ring buffer is a queue of bytes: a line goes in behind what is unread, and the log thread
-- takes out all of it.
use native.Mathlib.Nat.{mod-eq_of_lt, mod-eq-sub-mod, mod-lt, zero-add}
use store_monitor.Common.{
  memcpy, bytes_at, bytes_at-none, bytes_at-add, bytes_at-same, bytes_at-memcpy, memcpy-other,
  length-take, length-drop, take-append-drop, ℕ, zero, suc, ◌+◌, ◌-◌, ◌%◌, ◌≤◌, ◌<◌, ◌≡◌, inl, inr,
  refl, ap, subst, ◌∙◌, List, [], ◌∷◌, ◌++◌, take, drop, length, arith, true, false, leb, ltb,
  if◌then◌else◌, append_assoc, Bool-cases,
}
use store_monitor.Log.Ring.{Ring, left_size, fitting, copy_in, put_line, drain, end_line}

module _ (size : ℕ) where
  -- The offsets lie in the buffer.
  pub record InRange (r : Ring) : Type 0 where
    pub writes : r.write_offset < size
    pub reads : r.read_offset < size

  -- The bytes that the log thread has not written yet.
  pub unread : Ring → List ℕ
  unread r =
      if leb r.read_offset r.write_offset
      then bytes_at r.bytes r.read_offset (r.write_offset - r.read_offset)
      else bytes_at r.bytes r.read_offset (size - r.read_offset)
        ++ bytes_at r.bytes 0 r.write_offset

  -- How many they are.
  pub pending : Ring → ℕ
  pending r =
      if leb r.read_offset r.write_offset
      then r.write_offset - r.read_offset
      else r.write_offset + size - r.read_offset

  length-end_line : (cs : List ℕ) → length (end_line cs) ≡ length cs
  unfolding end_line
  length-end_line [] = refl
  length-end_line (c ∷ []) = refl
  length-end_line (c ∷ d ∷ cs) = ap suc (length-end_line (d ∷ cs))

  -- `(w - r + size) % size`, the way the code computes it.
  pending_lem : (r : Ring) → InRange r → (r.write_offset + size - r.read_offset) % size ≡ pending r
  unfolding pending
  pending_lem r v = ground (
    arith,
    mod-eq-sub-mod {n = r.write_offset + size - r.read_offset} {m = size},
    mod-eq_of_lt {n = r.write_offset + size - r.read_offset - size} {m = size},
    mod-eq_of_lt {n = r.write_offset + size - r.read_offset} {m = size},
  )

  pending-lt : (r : Ring) → InRange r → pending r < size
  unfolding pending
  pending-lt r v = ground arith

  fitting-le :
      (r : Ring) (line : List ℕ) → InRange r → pending r + length (fitting size r line) < size
  unfolding fitting
  fitting-le r line v = ground (
    arith,
    pending_lem r v,
    pending-lt r v,
    length-end_line (take (left_size size r - 1) line),
    length-take (left_size size r - 1) line,
  )

  -- As much of a line as fits into `room` bytes.
  pub shortened : ℕ → List ℕ → List ℕ
  shortened zero line = if leb (length line) 0 then line else []
  shortened (suc room) line =
      if leb (length line) (suc room) then line else take room line ++ 10 ∷ []

  end_line-take :
      (n : ℕ) (line : List ℕ)
      → n < length line
      → end_line (take (suc n) line) ≡ take n line ++ 10 ∷ []
  unfolding end_line
  end_line-take n [] h = absurd (omega arith)
  end_line-take zero (c ∷ cs) h = refl
  end_line-take (suc n) (c ∷ []) h = absurd (omega arith)
  end_line-take (suc n) (c ∷ d ∷ cs) h = ap (◌∷◌ c) (end_line-take n (d ∷ cs) (omega arith))

  fitting-shortened :
      (r : Ring) (line : List ℕ) (room : ℕ)
      → left_size size r - 1 ≡ room
      → fitting size r line ≡ shortened room line
  unfolding fitting shortened
  fitting-shortened r line zero e = rw e refl
  fitting-shortened r line (suc room) e = elim (Bool-cases (leb (length line) (suc room))) [
    | inl short ↦ rw (e, short) refl
    | inr long ↦
        let some_room : ltb 0 (suc room) ≡ true = ground arith in
        rw (e, long, some_room) (end_line-take room line (ground arith))
  ]

  -- The two ways in which the new offset wraps.
  wrapped : (n : ℕ) → n < size + size → size ≤ n → n % size ≡ n - size
  wrapped n h k = mod-eq-sub-mod k ∙ mod-eq_of_lt (omega arith)

  module _ (buf : ℕ → ℕ) (w r : ℕ) (cs : List ℕ) where
    -- The copied bytes do not reach the run from `r` to `w`.
    keeps_before :
        (cs' : List ℕ) → r ≤ w → bytes_at (memcpy w cs' buf) r (w - r) ≡ bytes_at buf r (w - r)
    keeps_before cs' h =
        bytes_at-same buf _ r (w - r)
          λ i low high. memcpy-other w cs' buf i (λ k. absurd (omega arith))

    straight :
        r ≤ w → bytes_at (memcpy w cs buf) r (w + length cs - r) ≡ bytes_at buf r (w - r) ++ cs
    straight h =
        subst (λ n. bytes_at (memcpy w cs buf) r n ≡ bytes_at buf r (w - r) ++ cs)
          (let e : (w - r) + length cs ≡ w + length cs - r = omega arith in e)
          (bytes_at-add (memcpy w cs buf) r (w - r) (length cs)
            ∙ rw (keeps_before cs h)
                (let e : r + (w - r) ≡ w = omega arith in rw (e, bytes_at-memcpy w cs buf)))

    straight_from_0 : bytes_at (memcpy w cs buf) 0 (w + length cs) ≡ bytes_at buf 0 w ++ cs
    straight_from_0 =
        bytes_at-add (memcpy w cs buf) 0 w (length cs)
        ∙ rw
            (
              bytes_at-same buf (memcpy w cs buf) 0 w
                  (λ i low high. memcpy-other w cs buf i (λ k. absurd (omega arith))),
              zero-add,
            )
            (ap (◌++◌ (bytes_at buf 0 w)) (bytes_at-memcpy w cs buf))

    beyond : (n : ℕ) → w + length cs ≤ r → bytes_at (memcpy w cs buf) r n ≡ bytes_at buf r n
    beyond n h =
        bytes_at-same buf (memcpy w cs buf) r n
          λ i low high. memcpy-other w cs buf i (λ k. omega arith)

  module _ (buf : ℕ → ℕ) (w r : ℕ) (cs : List ℕ) (in_size : w < size) (long : size ≤ w + length cs)
      (room : w + length cs < size + r) (le : r ≤ w) where
    a : List ℕ
    a = take (size - w) cs

    b : List ℕ
    b = drop (size - w) cs

    length-a : length a ≡ size - w
    unfolding a
    length-a = length-take (size - w) cs (omega arith)

    length-b : length b ≡ w + length cs - size
    unfolding b
    length-b = omega (arith, length-drop (size - w) cs)

    around :
        bytes_at (memcpy 0 b (memcpy w a buf)) r (size - r)
          ++ bytes_at (memcpy 0 b (memcpy w a buf)) 0 (w + length cs - size)
        ≡ bytes_at buf r (w - r) ++ cs
    around =
        rw
          (
            beyond (memcpy w a buf) 0 r b (size - r) (omega (arith, length-b)),
            ← length-b,
            bytes_at-memcpy 0 b (memcpy w a buf),
          )
          (let e : w + length a - r ≡ size - r = omega (arith, length-a) in
            subst (λ n. bytes_at (memcpy w a buf) r n ++ b ≡ bytes_at buf r (w - r) ++ cs) e
              (rw (straight buf w r a le, append_assoc) (ap (◌++◌ (bytes_at buf r (w - r))) whole)))
      where
        whole : a ++ b ≡ cs
        whole = unfold a b in take-append-drop (size - w) cs

  -- Offsets in the buffer stay there.
  pub copy-InRange :
      (r : Ring) (cs : List ℕ)
      → InRange r
      → pending r + length cs < size
      → InRange (copy_in size r cs)
  unfolding copy_in
  copy-InRange r cs v room = record { writes = mod-lt _ (omega (arith, v.writes)); reads = v.reads }

  copy-unread :
      (r : Ring) (cs : List ℕ)
      → InRange r
      → pending r + length cs < size
      → unread (copy_in size r cs) ≡ unread r ++ cs
  unfolding copy_in unread pending
  copy-unread r cs v room = elim (Bool-cases (leb r.read_offset r.write_offset)) [
    | inl le ↦ elim (Bool-cases (ltb (r.write_offset + length cs) size)) [
      | inl short ↦
          let fits : r.write_offset + length cs < size = ground arith in
          let after : leb r.read_offset (r.write_offset + length cs) ≡ true = ground arith in
          rw (short, mod-eq_of_lt fits, after, le)
            (straight r.bytes r.write_offset r.read_offset cs (ground arith))
      | inr long ↦
          let over : size ≤ r.write_offset + length cs = ground arith in
          let free : r.write_offset + length cs < size + r.read_offset = ground arith in
          let after : leb r.read_offset (r.write_offset + length cs - size) ≡ false =
            ground arith in
          rw (long, wrapped (r.write_offset + length cs) (ground arith) over, after, le)
            (unfold a b in
              around r.bytes r.write_offset r.read_offset cs v.writes over free (ground arith))
    ]
    | inr gt ↦
        let fits : r.write_offset + length cs < r.read_offset = ground arith in
        let short : ltb (r.write_offset + length cs) size ≡ true = ground arith in
        let in_size : r.write_offset + length cs < size = ground arith in
        let after : leb r.read_offset (r.write_offset + length cs) ≡ false = ground arith in
        rw (short, mod-eq_of_lt in_size, after, gt)
          (rw (
            beyond r.bytes r.write_offset r.read_offset cs (size - r.read_offset) (omega arith),
            straight_from_0 r.bytes r.write_offset r.read_offset cs,
            append_assoc,
          ))
  ]

  -- Writing a line keeps both offsets in the buffer. What the log thread still has to write is then
  -- what it was, followed by as much of the line as fits while one byte of the buffer stays free:
  -- all of the line, or the longest prefix that leaves room for a newline, with a newline behind it,
  -- or nothing where there is no room at all.
  pub put_line-unread :
      (r : Ring) (line : List ℕ)
      → InRange r
      → InRange (put_line size r line)
        × (unread (put_line size r line) ≡ unread r ++ shortened (size - pending r - 1) line)
        × (pending r + length (shortened (size - pending r - 1) line) < size)
  unfolding put_line
  put_line-unread r line v =
      let room = fitting-le r line v in
      let e : fitting size r line ≡ shortened (size - pending r - 1) line =
        fitting-shortened r line (size - pending r - 1)
          (ap (λ n. size - n - 1) (pending_lem r v)) in
      (
        copy-InRange r (fitting size r line) v room,
        copy-unread r (fitting size r line) v room ∙ ap (◌++◌ (unread r)) e,
        subst (λ cs. pending r + length cs < size) e room,
      )

  -- The log thread writes exactly the unread bytes to the file, in order, and leaves none.
  pub drain-unread :
      (r : Ring)
      → InRange r
      → ((drain size r).0 ≡ unread r) × (unread (drain size r).1 ≡ []) × InRange (drain size r).1
  unfolding drain unread
  drain-unread r v = (
    ground (arith, bytes_at-none r.bytes r.read_offset (r.write_offset - r.read_offset)),
    ground (
      arith,
      mod-eq_of_lt v.writes,
      bytes_at-none r.bytes r.read_offset (r.write_offset - r.read_offset),
      bytes_at-none r.bytes r.write_offset (r.write_offset - r.write_offset),
    ),
    ground (arith, mod-lt r.write_offset {m = size}),
  )
