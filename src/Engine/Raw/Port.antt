-- ===== src/Engine/Raw/Port.antt =====
-- The port of a raw connection goes through a `short`, and an error of one address is kept when the
-- next one works.
use store_monitor.Common.{
  ℕ, suc, ◌-◌, ◌≤◌, ◌<◌, ltb, ◌≡◌, refl, arith, Bool, true, false, Option, some, none, List, [],
  ◌∷◌, ◌++◌, Str, decimal, signed_decimal, length, pos, negsuc, to_i16,
}
use store_monitor.Common.Text.Decimal.{decimal-short, decimal-long}
use store_monitor.Engine.Raw.{
  Attempt, no_socket, no_option, unreachable, refused, under_way, port_text, try_addresses,
  raw_async_connect,
}

-- A port that a `short` can hold is asked for as it stands. One above it, up to 55536, is negative
-- with five digits: `rawAsyncConnect` takes it for invalid, whatever addresses there are, and no
-- connection is tried.
pub raw_async_connect-port :
    (resolve : Str → Option (List Attempt)) (port : ℕ)
    → (port < 32768 → port_text port ≡ some (decimal port))
      × (32768 ≤ port → port ≤ 55536 → raw_async_connect resolve port ≡ (negsuc 0, false))
unfolding raw_async_connect port_text signed_decimal to_i16
raw_async_connect-port resolve port = (
  λ h.
      let small : ltb port 32768 ≡ true = ground arith in
      let short : ltb (length (decimal port)) 6 ≡ true =
        ground (arith, decimal-short port 4 (omega arith)) in
      rw (small, short) refl,
  λ h k.
      let large : ltb port 32768 ≡ false = ground arith in
      let long : ltb (suc (length (decimal (suc (65535 - port))))) 6 ≡ false =
        ground (arith, decimal-long (suc (65535 - port)) 4 (omega arith) (omega arith)) in
      let none_is : port_text port ≡ none = rw (large, long) refl in
      rw (raw_async_connect, none_is) refl,
)

-- An address without a route, or without a socket.
abbrev pub Passed : List Attempt → Type 0
Passed [] = Unit
Passed (no_socket e ∷ rest) = Passed rest
Passed (unreachable e ∷ rest) = Passed rest
Passed (_ ∷ rest) = ⊥

stale :
    (before after : List Attempt) (e : ℕ) (is_open : Bool)
    → Passed before
    → (n : ℕ) × (try_addresses (before ++ under_way ∷ after) (pos (suc e)) is_open
        ≡ (pos (suc n), true))
unfolding try_addresses
stale [] after e is_open v = (e, refl)
stale (no_socket f ∷ before) after e is_open v = stale before after f false v
stale (no_option f ∷ before) after e is_open v = absurd v
stale (unreachable f ∷ before) after e is_open v = stale before after f false v
stale (refused f ∷ before) after e is_open v = absurd v
stale (under_way ∷ before) after e is_open v = absurd v

-- When a connection is under way at an address behind one that was passed over, the error of that
-- one is still set: there is an open socket, and the caller is told that the connect failed.
pub try_addresses-stale :
    (a : Attempt) (before after : List Attempt)
    → Passed (a ∷ before)
    → (n : ℕ) × (try_addresses (a ∷ before ++ under_way ∷ after) (pos 0) true ≡ (pos (suc n), true))
unfolding try_addresses
try_addresses-stale (no_socket f) before after v = stale before after f false v
try_addresses-stale (no_option f) before after v = absurd v
try_addresses-stale (unreachable f) before after v = stale before after f false v
try_addresses-stale (refused f) before after v = absurd v
try_addresses-stale under_way before after v = absurd v
