-- ===== src/Action/DownList/Keys.antt =====
-- The key that `createServerInfo` makes is taken apart again by `addServerToDownList`.
use store_monitor.Common.{
  ℕ, zero, suc, ◌≤◌, ◌<◌, ◌≡◌, refl, ap, ◌∙◌, arith, true, false, none, some, List, [], ◌∷◌, take,
  length, All, Str, join, decimal, is_digit, atoi, to_u16,
}
use store_monitor.Common.Text.Decimal.{atoi-decimal, decimal-digits}
use store_monitor.Common.Text.Search.{Lacks}
use store_monitor.Common.Hash.{UtHash}
use native.Mathlib.Nat.{mod-eq_of_lt}
use store_monitor.Connection.Pool.{id_key}
use store_monitor.Action.Data.{Action, DownServer, exchange, no_property, put}
use store_monitor.Action.DownList.{new_down_server, add_server_to_down_list}

take-all : (n : ℕ) (s : Str) → length s ≤ n → take n s ≡ s
take-all zero [] h = refl
take-all zero (c ∷ s) h = absurd (omega arith)
take-all (suc n) [] h = refl
take-all (suc n) (c ∷ s) h = ap (◌∷◌ c) (take-all n s (omega arith))

digits-Lacks : (s : Str) → All (λ c. is_digit c ≡ true) s → Lacks b'_' s
unfolding is_digit
digits-Lacks [] v = tt
digits-Lacks (c ∷ s) v = (ground (arith, v.0), digits-Lacks s v.1)

-- `sdssplitlen` with the separator `_`, on a text of three parts that lack it.
abbrev pub SplitsKeys : (Str → List Str) → Type 0
SplitsKeys split =
    (a b c : Str)
    → Lacks b'_' a
    → Lacks b'_' b
    → Lacks b'_' c
    → split (join b'_' (a ∷ b ∷ c ∷ [])) ≡ a ∷ b ∷ c ∷ []

port_read : (port : ℕ) → port < 65536 → to_u16 (atoi (decimal port)) ≡ port
unfolding to_u16
port_read port h = rw (atoi-decimal port (omega arith)) (mod-eq_of_lt h)

module _ (H : UtHash) (split : Str → List Str) (splits : SplitsKeys split) where
  open H use {Table, find_str}

  key_parts :
      (ip : Str) (port : ℕ) (type : Str)
      → Lacks b'_' ip
      → Lacks b'_' type
      → length (join b'_' (ip ∷ decimal port ∷ type ∷ [])) ≤ 255
      → split (id_key ip port type) ≡ ip ∷ decimal port ∷ type ∷ []
  unfolding id_key
  key_parts ip port type i t n =
      ap split (take-all 255 (join b'_' (ip ∷ decimal port ∷ type ∷ [])) n)
      ∙ splits ip (decimal port) type i (digits-Lacks (decimal port) (decimal-digits port)) t

  read_record : Str → Str → Str → Str → DownServer
  read_record key ip port type = record {
    ip_port_type = key;
    ip = some ip;
    port = to_u16 (atoi port);
    type = some type;
    exchange_state = record { phase = exchange; to_be_updated = true };
    is_no_use = false;
    server_property = no_property;
  }

  added :
      (key ip port type : Str) (a : Action Table)
      → find_str key a.down_server_list ≡ none
      → split key ≡ ip ∷ port ∷ type ∷ []
      → ((add_server_to_down_list H split key a).0 ≡ true)
        × ((add_server_to_down_list H split key a).1.servers a.fresh
            ≡ some (read_record key ip port type))
  unfolding add_server_to_down_list new_down_server put read_record
  added key ip port type a absent k = (
    rw (add_server_to_down_list, absent, k) refl,
    rw (add_server_to_down_list, absent, k) (ground arith),
  )

  -- A server is put on the list of down servers under the key that `createServerInfo` made for it:
  -- the record there has the address, the port and the type that the key was made of, if address
  -- and type have no `_` and the key fits its buffer.
  pub add_server-id_key :
      (ip : Str) (port : ℕ) (type : Str) (a : Action Table)
      → Lacks b'_' ip
      → Lacks b'_' type
      → port < 65536
      → length (join b'_' (ip ∷ decimal port ∷ type ∷ [])) ≤ 255
      → find_str (id_key ip port type) a.down_server_list ≡ none
      → (s : DownServer) × ((add_server_to_down_list H split (id_key ip port type) a).0 ≡ true)
        × ((add_server_to_down_list H split (id_key ip port type) a).1.servers a.fresh ≡ some s)
        × (s.ip_port_type ≡ id_key ip port type)
        × (s.ip ≡ some ip)
        × (s.port ≡ port)
        × (s.type ≡ some type)
  unfolding read_record
  add_server-id_key ip port type a i t p n absent =
      let (ok, stored) =
        added (id_key ip port type) ip (decimal port) type a absent
          (key_parts ip port type i t n) in
      (
        read_record (id_key ip port type) ip (decimal port) type,
        ok,
        stored,
        refl,
        refl,
        port_read port p,
        refl,
      )
