-- ===== src/Common/Memory.antt =====
-- C memory as a function of the index: runs of bytes, and what `memcpy` does to them.
use Prim.Native.Nat.{ℕ, zero, suc, ◌+◌, ◌-◌, ◌≤◌, ◌<◌}
use native.Mathlib.Nat.{add-zero, zero-add, add-suc, suc-add}
use mathlib.Core.Path.{◌≡◌, refl, ap, ◌∙◌}
use mathlib.Core.List.{List, [], ◌∷◌, ◌++◌}
use native.Mathlib.Omega.{arith}
use store_monitor.Common.Tests.{◌==◌, if◌then◌else◌}
use store_monitor.Common.Lists.{length, take, drop}

-- `memcpy(buf + at, src, n)`, with the `n` bytes as a list.
unfoldable pub memcpy : ℕ → List ℕ → (ℕ → ℕ) → ℕ → ℕ
memcpy at [] buf = buf
memcpy at (c ∷ cs) buf = memcpy (suc at) cs (λ i. if at == i then c else buf i)

-- The `n` bytes from `buf + at` on.
unfoldable pub bytes_at : (ℕ → ℕ) → ℕ → ℕ → List ℕ
bytes_at buf at zero = []
bytes_at buf at (suc n) = buf at ∷ bytes_at buf (suc at) n

pub bytes_at-none : (buf : ℕ → ℕ) (at n : ℕ) → n ≡ 0 → bytes_at buf at n ≡ []
unfolding bytes_at
bytes_at-none buf at zero e = refl
bytes_at-none buf at (suc n) e = absurd (omega arith)

pub bytes_at-add :
    (buf : ℕ → ℕ) (at m n : ℕ)
    → bytes_at buf at (m + n) ≡ bytes_at buf at m ++ bytes_at buf (at + m) n
unfolding bytes_at
bytes_at-add buf at zero n = rw (zero-add, add-zero)
bytes_at-add buf at (suc m) n =
    rw suc-add (ap (◌∷◌ (buf at)) (bytes_at-add buf (suc at) m n ∙ rw (add-suc, suc-add)))

-- Runs that do not meet the copied bytes stay.
pub memcpy-other :
    (at : ℕ) (cs : List ℕ) (buf : ℕ → ℕ) (i : ℕ)
    → (at ≤ i → at + length cs ≤ i)
    → memcpy at cs buf i ≡ buf i
unfolding memcpy
memcpy-other at [] buf i out = refl
memcpy-other at (c ∷ cs) buf i out =
    memcpy-other (suc at) cs _ i (λ h. omega (arith, out (omega arith))) ∙ ground (arith, out)

pub bytes_at-same :
    (buf buf' : ℕ → ℕ) (at n : ℕ)
    → ((i : ℕ) → at ≤ i → i < at + n → buf' i ≡ buf i)
    → bytes_at buf' at n ≡ bytes_at buf at n
unfolding bytes_at
bytes_at-same buf buf' at zero same = refl
bytes_at-same buf buf' at (suc n) same = rw (same at (omega arith) (omega arith)) (
    ap (◌∷◌ (buf at))
      (bytes_at-same buf buf' (suc at) n (λ i h k. same i (omega arith) (omega arith))))

pub bytes_at-memcpy :
    (at : ℕ) (cs : List ℕ) (buf : ℕ → ℕ) → bytes_at (memcpy at cs buf) at (length cs) ≡ cs
unfolding bytes_at memcpy
bytes_at-memcpy at [] buf = refl
bytes_at-memcpy at (c ∷ cs) buf =
    let buf' = λ (i : ℕ). if at == i then c else buf i in
    rw (bytes_at-memcpy (suc at) cs buf') (
      ap (λ x. x ∷ cs)
        (memcpy-other (suc at) cs buf' at (λ h. absurd (omega arith)) ∙ ground arith))

pub length-take : (n : ℕ) (cs : List ℕ) → n ≤ length cs → length (take n cs) ≡ n
length-take zero cs h = refl
length-take (suc n) [] h = absurd (omega arith)
length-take (suc n) (c ∷ cs) h = ap suc (length-take n cs (omega arith))

pub length-drop : (n : ℕ) (cs : List ℕ) → length (drop n cs) ≡ length cs - n
length-drop zero cs = omega arith
length-drop (suc n) [] = omega arith
length-drop (suc n) (c ∷ cs) = omega (arith, length-drop n cs)

pub take-append-drop : (n : ℕ) (cs : List ℕ) → take n cs ++ drop n cs ≡ cs
take-append-drop zero cs = refl
take-append-drop (suc n) [] = refl
take-append-drop (suc n) (c ∷ cs) = ap (◌∷◌ c) (take-append-drop n cs)

-- Two copies, the second behind the first.
pub memcpy-append :
    (at : ℕ) (xs ys : List ℕ) (buf : ℕ → ℕ)
    → memcpy at (xs ++ ys) buf ≡ memcpy (at + length xs) ys (memcpy at xs buf)
unfolding memcpy
memcpy-append at [] ys buf = rw add-zero refl
memcpy-append at (x ∷ xs) ys buf = rw (add-suc, ← suc-add) (memcpy-append (suc at) xs ys _)
