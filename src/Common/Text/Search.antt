-- ===== src/Common/Text/Search.antt =====
-- `strchr`, and texts that lack a byte.
use Prim.Native.Nat.{ℕ}
use mathlib.Core.Path.{◌≡◌, refl}
use mathlib.Core.Bool.{false}
use mathlib.Core.Option.{Option, none, some}
use mathlib.Core.List.{[], ◌∷◌, ◌++◌}
use native.Mathlib.Omega.{arith}
use store_monitor.Common.Lists.{All}
use store_monitor.Common.Maybe.{◌>>=◌}
use store_monitor.Common.Tests.{◌==◌, if◌then◌else◌}
use store_monitor.Common.Text.{Str}

-- `strchr`: the text before the byte and the text behind it.
unfoldable pub strchr : ℕ → Str → Option (Str × Str)
strchr c [] = none
strchr c (x ∷ s) =
    if x == c then some ([], s) else (do (before, behind) ← strchr c s; some (x ∷ before, behind))

abbrev pub Lacks : ℕ → Str → Type 0
Lacks c = All (λ x. (x == c) ≡ false)

pub strchr-found : (c : ℕ) (xs ys : Str) → Lacks c xs → strchr c (xs ++ c ∷ ys) ≡ some (xs, ys)
unfolding strchr
strchr-found c [] ys v = ground arith
strchr-found c (x ∷ xs) ys v = rw (v.0, strchr-found c xs ys v.1) refl

pub Lacks-append : (c : ℕ) (xs ys : Str) → Lacks c xs → Lacks c ys → Lacks c (xs ++ ys)
Lacks-append c [] ys v w = w
Lacks-append c (x ∷ xs) ys v w = (v.0, Lacks-append c xs ys v.1 w)
