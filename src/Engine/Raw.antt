-- ===== src/Engine/Raw.antt =====
-- engine/rawAsyncClient.h, rawAsyncClient.c: a connection with one callback for each direction. What
-- the calls of the operating system return is handed to the functions.
pub mod Port
use store_monitor.Common.{
  ℕ, zero, suc, ltb, ◌==◌, if◌then◌else◌, Bool, true, false, Option, none, some, List, [], ◌∷◌, Str,
  codes, signed_decimal, length, ℤ, pos, negsuc, to_i16,
}

-- The functions that the program hands to `rawAsyncEventAdd`.
pub data RawCallback : Type 0 where
  send_stats read_response : RawCallback

pub data Event : Type 0 where
  ev_read ev_write : Event

-- `stRawAsyncContext`, without the text of the error; `is_open` is `fd != -1`.
pub record RawContext (D : Type 0) : Type 0 where
  pub is_open : Bool
  pub connected : Bool
  pub rev_active : Bool
  pub wev_active : Bool
  pub rac_data : D
  pub err : ℤ
  pub read_callback : Option RawCallback
  pub write_callback : Option RawCallback

abbrev pub no_error : ℤ → Bool
no_error (pos zero) = true
no_error _ = false

-- `snprintf(_port, 6, "%d", port)` with the port as a `short`: the text, unless it is cut.
unfoldable pub port_text : ℕ → Option Str
unfolding signed_decimal to_i16
port_text port = let t = signed_decimal (to_i16 port) in if ltb (length t) 6 then some t else none

-- What happens with one address: `socket`, `setsockopt`, `fcntl` or `connect` fails, with an error
-- that is not 0, or the connection is made or under way. `unreachable` is `EHOSTUNREACH`.
pub data Attempt : Type 0 where
  no_socket no_option unreachable refused : ℕ → Attempt
  under_way : Attempt

-- The loop over the addresses: `err` and whether there is a socket.
unfoldable pub try_addresses : List Attempt → ℤ → Bool → ℤ × Bool
try_addresses [] err is_open = (err, is_open)
try_addresses (no_socket e ∷ rest) err is_open = try_addresses rest (pos (suc e)) false
try_addresses (no_option e ∷ rest) err is_open = (pos (suc e), false)
try_addresses (unreachable e ∷ rest) err is_open = try_addresses rest (pos (suc e)) false
try_addresses (refused e ∷ rest) err is_open = (pos (suc e), false)
try_addresses (under_way ∷ rest) err is_open = (err, true)

-- `rawAsyncConnect` when memory is there: `err` and whether there is a socket. `resolve` is
-- `getaddrinfo` with what becomes of the addresses, none where it fails. `calloc` leaves `fd` 0,
-- which is closed on an error before the first socket.
unfoldable pub raw_async_connect : (Str → Option (List Attempt)) → ℕ → ℤ × Bool
unfolding port_text try_addresses
raw_async_connect resolve port = elim (port_text port) [
  | none ↦ (negsuc 0, false)
  | some t ↦ elim (resolve t) [
    | none ↦ (negsuc 0, false)
    | some rest ↦ try_addresses rest (pos 0) true
  ]
]

module _ {D : Type 0} where
  -- `rawAsyncLibevAttach` on a new context.
  unfoldable pub raw_async_libev_attach : Bool → ℤ → D → RawContext D
  raw_async_libev_attach is_open err d = record {
    is_open = is_open;
    connected = false;
    rev_active = false;
    wev_active = true;
    rac_data = d;
    err = err;
    read_callback = none;
    write_callback = none;
  }

  unfoldable pub raw_async_event_add : Event → RawCallback → RawContext D → RawContext D
  raw_async_event_add ev_read cb c = record c {
    err = pos 0;
    read_callback = some cb;
    rev_active = true;
  }
  raw_async_event_add ev_write cb c = record c {
    err = pos 0;
    write_callback = some cb;
    wev_active = true;
  }

  unfoldable pub raw_async_event_delete : Event → RawContext D → RawContext D
  raw_async_event_delete ev_read c = record c {
    err = pos 0;
    read_callback = none;
    rev_active = false;
  }
  raw_async_event_delete ev_write c = record c {
    err = pos 0;
    write_callback = none;
    wev_active = false;
  }
