-- ===== src/Engine/Packet/Filling.antt =====
-- A part of the answer that comes in pieces: however the socket cuts it, the calls of
-- `memcachedReadStatsResponse` store the same bytes, and then turn to the next part.
use store_monitor.Common.{
  ℕ, suc, ◌+◌, ◌-◌, ◌≡◌, inl, inr, refl, sym, ap, subst, ◌∙◌, arith, Option, none, some, ◌>>=◌,
  List, [], ◌∷◌, ◌++◌, take, drop, length, length-append, pos-sub, bind-some,
}
use store_monitor.Engine.Packet.{
  Arrival, arrived, again, interrupted, failed, closed, Packet, put_bytes, receive, go_on, full,
  fill, Turn, goes_on, done, part_done, after_fill, read_stats_response, read_loop,
}
use native.Mathlib.Nat.{add-zero, zero-add, suc-add}
use store_monitor.Engine.Packet.Bytes.{
  with_left, put_bytes-append, put_bytes-nil, put_bytes-left, two_cuts, take-length, drop-length,
  take-short, drop-short,
}

-- The connection neither fails nor ends.
abbrev pub Calm : List Arrival → Type 0
Calm [] = Unit
Calm (arrived b bs ∷ s) = Calm s
Calm (again ∷ s) = Calm s
Calm (interrupted ∷ s) = Calm s
Calm (failed e ∷ s) = ⊥
Calm (closed ∷ s) = ⊥

-- The bytes that arrive.
abbrev pub bytes_of : List Arrival → List ℕ
bytes_of [] = []
bytes_of (arrived b bs ∷ s) = b ∷ bs ++ bytes_of s
bytes_of (_ ∷ s) = bytes_of s

-- How often the socket has nothing yet.
abbrev pub pauses : List Arrival → ℕ
pauses [] = 0
pauses (again ∷ s) = suc (pauses s)
pauses (_ ∷ s) = pauses s

-- The calls that follow a call of `memcachedReadStatsResponse`.
abbrev pub continue : ℕ → Option Turn → Option Turn
continue fuel none = none
continue fuel (some (goes_on s p)) = read_loop fuel s p
continue fuel (some (done e p)) = some (done e p)

pub read_loop-suc :
    (fuel : ℕ) (a : Arrival) (s : List Arrival) (p : Packet)
    → read_loop (suc fuel) (a ∷ s) p ≡ continue fuel (read_stats_response (a ∷ s) p)
unfolding read_loop
read_loop-suc fuel a s p = elim (read_stats_response (a ∷ s) p) [
  | none ↦ refl
  | some (goes_on s' p') ↦ refl
  | some (done e p') ↦ refl
]

receive-part :
    (n : ℕ) (xs : List ℕ) (p q : Packet)
    → put_bytes xs p.pcur p ≡ some q
    → receive xs (with_left (length xs + n) p) ≡ some (with_left n q)
unfolding receive
receive-part n xs p q h =
    let e : length xs + n - length xs ≡ n = omega arith in
    rw (pos-sub (length xs + n) (length xs) (omega arith), e) (put_bytes-left n xs p.pcur p q h)

-- Nothing is to be read.
fill-nothing :
    (s : List Arrival) (p : Packet) → fill s (with_left 0 p) ≡ some (full s (with_left 0 p))
unfolding fill
fill-nothing [] p = refl
fill-nothing (arrived b bs ∷ s) p = refl
fill-nothing (again ∷ s) p = refl
fill-nothing (interrupted ∷ s) p = refl
fill-nothing (failed e ∷ s) p = refl
fill-nothing (closed ∷ s) p = refl

fill-arrived :
    (n b : ℕ) (bs ts ks : List ℕ) (s : List Arrival) (p q : Packet)
    → take (suc n) (b ∷ bs) ≡ ts
    → drop (suc n) (b ∷ bs) ≡ ks
    → receive ts (with_left (suc n) p) ≡ some q
    → fill (arrived b bs ∷ s) (with_left (suc n) p) ≡ go_on ks s q (fill s q)
unfolding fill
fill-arrived n b bs ts ks s p q e f h =
    bind-some (receive (take (suc n) (b ∷ bs)) (with_left (suc n) p)) q _
      (ap (λ xs. receive xs (with_left (suc n) p)) e ∙ h)
    ∙ ap (λ k. go_on k s q (fill s q)) f

-- The bytes that are there are all stored.
fill-piece :
    (b : ℕ) (bs ys : List ℕ) (s : List Arrival) (p q : Packet)
    → put_bytes (b ∷ bs) p.pcur p ≡ some q
    → fill (arrived b bs ∷ s) (with_left (length (b ∷ bs ++ ys)) p)
      ≡ fill s (with_left (length ys) q)
unfolding go_on
fill-piece b bs ys s p q h =
    fill-arrived (length (bs ++ ys)) b bs (b ∷ bs) [] s p (with_left (length ys) q)
      (take-short (b ∷ bs) ys) (drop-short (b ∷ bs) ys)
      (rw (length-append bs ys, ← suc-add) (receive-part (length ys) (b ∷ bs) p q h))

-- More bytes are there than are wanted.
fill-enough :
    (xs : List ℕ) (x b c : ℕ) (bs cs : List ℕ) (s : List Arrival) (p q : Packet)
    → b ∷ bs ≡ x ∷ xs ++ c ∷ cs
    → put_bytes (x ∷ xs) p.pcur p ≡ some q
    → fill (arrived b bs ∷ s) (with_left (length (x ∷ xs)) p)
      ≡ some (full (arrived c cs ∷ s) (with_left 0 q))
unfolding go_on
fill-enough xs x b c bs cs s p q e h =
    fill-arrived (length xs) b bs (x ∷ xs) (c ∷ cs) s p (with_left 0 q)
      (ap (take (suc (length xs))) e ∙ take-length (x ∷ xs) (c ∷ cs))
      (ap (drop (suc (length xs))) e ∙ drop-length (x ∷ xs) (c ∷ cs))
      (subst (λ n. receive (x ∷ xs) (with_left n p) ≡ some (with_left 0 q))
        (add-zero (length (x ∷ xs))) (receive-part 0 (x ∷ xs) p q h))

-- A part comes in: some calls store it, and the last of them turns to the next part.
unfoldable pub Completes : List Arrival → List ℕ → Packet → Packet → Type 0
Completes s rest p q =
    (s' : List Arrival) × Calm s'
    × (bytes_of s' ≡ rest)
    × (k : ℕ) × (pauses s ≡ k + pauses s')
    × ((fuel : ℕ)
        → continue (k + fuel) (read_stats_response s p)
          ≡ continue fuel (part_done q.read_state s' (with_left 0 q)))

-- The same read from the loop's place in the code.
Completes-same :
    (s s1 : List Arrival) (rest : List ℕ) (p p1 q : Packet)
    → fill s p ≡ fill s1 p1
    → pauses s ≡ pauses s1
    → Completes s1 rest p1 q
    → Completes s rest p q
unfolding Completes read_stats_response
Completes-same s s1 rest p p1 q e n (s', c, b, k, m, step) =
    (s', c, b, k, n ∙ m, λ f. ap (λ o. continue (k + f) (o >>= after_fill)) e ∙ step f)

Completes-full :
    (s s' : List Arrival) (p q : Packet)
    → fill s p ≡ some (full s' (with_left 0 q))
    → Calm s'
    → pauses s ≡ pauses s'
    → Completes s (bytes_of s') p q
unfolding Completes read_stats_response after_fill
Completes-full s s' p q e c n = (
  s',
  c,
  refl,
  0,
  n ∙ sym (zero-add _),
  λ f. rw zero-add (ap (λ o. continue f (o >>= after_fill)) e),
)

-- The socket has nothing for now.
Completes-again :
    (s : List Arrival) (rest : List ℕ) (n x : ℕ) (xs : List ℕ) (p q : Packet)
    → bytes_of s ≡ x ∷ xs
    → Completes s rest (with_left (suc n) p) q
    → Completes (again ∷ s) rest (with_left (suc n) p) q
unfolding Completes read_stats_response fill after_fill
Completes-again [] rest n x xs p q e v = cc
Completes-again (a ∷ s) rest n x xs p q e (s', c, b, k, m, step) = (
  s',
  c,
  b,
  suc k,
  ap suc m ∙ sym (suc-add _ _),
  λ f. rw suc-add (read_loop-suc (k + f) a s (with_left (suc n) p) ∙ step f),
)

pub part_comes :
    (s : List Arrival) (xs rest : List ℕ) (p q : Packet)
    → Calm s
    → bytes_of s ≡ xs ++ rest
    → put_bytes xs p.pcur p ≡ some q
    → Completes s rest (with_left (length xs) p) q
part_comes s [] rest p q c e h =
    subst (λ r. Completes s rest (with_left 0 p) r) (sym (put_bytes-nil p.pcur p q refl h))
      (subst (λ r. Completes s r (with_left 0 p) p) e
        (Completes-full s s (with_left 0 p) p (fill-nothing s p) c refl))
part_comes [] (x ∷ xs) rest p q c e h = cc
part_comes (arrived b bs ∷ s) (x ∷ xs) rest p q c e h =
    elim (two_cuts (x ∷ xs) rest (b ∷ bs) (bytes_of s) (sym e)) [
      | inl (ys, f, g) ↦
          let (p1, h1, h2) =
            put_bytes-append (b ∷ bs) ys p.pcur p q (ap (λ z. put_bytes z p.pcur p) (sym f) ∙ h) in
          subst (λ z. Completes (arrived b bs ∷ s) rest (with_left (length z) p) q) (sym f)
            (Completes-same (arrived b bs ∷ s) s rest (with_left (length (b ∷ bs ++ ys)) p)
              (with_left (length ys) p1) q (fill-piece b bs ys s p p1 h1) refl
              (part_comes s ys rest p1 q c g h2))
      | inr (d, ds, f, g) ↦
          subst (λ z. Completes (arrived b bs ∷ s) z (with_left (length (x ∷ xs)) p) q) (sym g)
            (Completes-full (arrived b bs ∷ s) (arrived d ds ∷ s) (with_left (length (x ∷ xs)) p) q
              (fill-enough xs x b d bs ds s p q f h) c refl)
    ]
part_comes (again ∷ s) (x ∷ xs) rest p q c e h =
    Completes-again s rest (length xs) x (xs ++ rest) p q e (part_comes s (x ∷ xs) rest p q c e h)
part_comes (interrupted ∷ s) (x ∷ xs) rest p q c e h =
    Completes-same (interrupted ∷ s) s rest (with_left (suc (length xs)) p)
      (with_left (suc (length xs)) p) q (unfold fill in refl) refl
      (part_comes s (x ∷ xs) rest p q c e h)
part_comes (failed f ∷ s) (x ∷ xs) rest p q c e h = absurd c
part_comes (closed ∷ s) (x ∷ xs) rest p q c e h = absurd c
