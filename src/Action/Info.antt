-- ===== src/Action/Info.antt =====
-- `updateDownServerInfo` of action.c: what a meta server says about a down server.
pub mod Laws
use store_monitor.Common.{
  ℕ, if◌then◌else◌, ◌>>=◌, Bool, true, false, Option, none, some, List, [], ◌∷◌, Str, codes, str_eq,
  atoi, to_u16,
}
use store_monitor.Connection.Data.{Ptr}
use store_monitor.Hiredis.{Element, ReplyType, nil, error, status, integer, string, array, other}
use store_monitor.Action.Data.{
  DownServer, DownServerRole, master, slave, backup, ServerProperty, set_to_be_updated,
}

-- The search for a field of the `HGETALL` reply, which steps over the array by two. `bad` is a read
-- outside the array or through NULL.
pub data Scan : Type 0 where
  bad absent : Scan
  found : Element → Scan

more : List Element → Scan → Scan
more [] r = absent
more (e ∷ es) r = r

unfoldable pub scan_key : Str → List Element → Scan
unfolding more
scan_key key [] = bad
scan_key key (k ∷ []) = elim k.str [
  | none ↦ bad
  | some name ↦ if str_eq key name then bad else absent
]
scan_key key (k ∷ v ∷ rest) = elim k.str [
  | none ↦ bad
  | some name ↦ if str_eq key name then found v else more rest (scan_key key rest)
]

-- A step of the function: a fault, or the return value (false is -1) with the record as it then is.
abbrev pub Outcome : Type 0
Outcome = Option (Bool × DownServer)

abbrev pub is_string : ReplyType → Bool
is_string string = true
is_string _ = false

-- `sdsnew(element->str)`, which takes NULL for an empty text.
abbrev pub text_of : Element → Str
text_of e = elim e.str [ none ↦ [] | some t ↦ t ]

-- A field that must be there, as a string.
required : Scan → (Str → Outcome) → DownServer → Outcome
required bad k s = none
required absent k s = some (false, s)
required (found e) k s = if is_string e.type then k (text_of e) else some (false, s)

-- `cluster`, which may be left out.
optional : Scan → (Option Str → Outcome) → DownServer → Outcome
optional bad k s = none
optional absent k s = k none
optional (found e) k s = if is_string e.type then k (some (text_of e)) else some (false, s)

abbrev set_property : (ServerProperty → ServerProperty) → DownServer → DownServer
set_property f s = record s { server_property = f s.server_property }

abbrev with_pid : Str → DownServer → DownServer
with_pid v = set_property λ p. record p { pid = some v }

abbrev with_cluster : Option Str → DownServer → DownServer
with_cluster none s = s
with_cluster (some v) s = set_property (λ p. record p { cluster = some v }) s

abbrev with_role : DownServerRole → DownServer → DownServer
with_role v = set_property λ p. record p { role = v }

unfoldable pub role_of : Str → Option DownServerRole
role_of v =
    if str_eq (codes "master") v
    then some master
    else (if str_eq (codes "slave") v then some slave else none)

unfoldable pub is_master : DownServerRole → Bool
is_master master = true
is_master slave = false
is_master backup = false

abbrev with_backup : Str → Str → Str → DownServer → DownServer
with_backup ip port type =
    set_property λ p. record p {
      backup_ip = some ip;
      backup_port = to_u16 (atoi port);
      backup_type = some type;
    }

set_backup : List Str → DownServer → Outcome
set_backup (ip ∷ port ∷ type ∷ []) s =
    some (true, set_to_be_updated false (with_backup ip port type s))
set_backup _ s = some (false, s)

-- `find` is `HASH_FIND_STR` in the list of down servers. `split` is the call of `sdssplitlen` with
-- `sdslen` of a text that hiredis allocated, which is no `sds`: what it returns is not known.
module _ (find : Str → Option Ptr) (split : Str → List Str) where
  take_backup : Str → DownServer → Outcome
  unfolding set_backup
  take_backup machine s = elim (find machine) [
    | some _ ↦ some (false, s)
    | none ↦ set_backup (split machine) s
  ]

  by_role : List Element → DownServer → Outcome
  unfolding required scan_key take_backup is_master
  by_role es s =
      if is_master s.server_property.role
      then required (scan_key (codes "backup_machine") es) (λ m. take_backup m s) s
      else some (true, set_to_be_updated false s)

  take_role : List Element → Str → DownServer → Outcome
  unfolding by_role role_of
  take_role es v s = elim (role_of v) [
    | none ↦ some (false, s)
    | some r ↦ by_role es (with_role r s)
  ]

  take_cluster : List Element → Option Str → DownServer → Outcome
  unfolding take_role required scan_key
  take_cluster es v s =
      let s' = with_cluster v s in required (scan_key (codes "role") es) (λ r. take_role es r s') s'

  take_pid : List Element → Str → DownServer → Outcome
  unfolding take_cluster optional scan_key
  take_pid es v s =
      let s' = with_pid v s in
      optional (scan_key (codes "cluster") es) (λ c. take_cluster es c s') s'

  unfoldable pub update_down_server_info : List Element → DownServer → Outcome
  unfolding take_pid required scan_key
  update_down_server_info es s =
      if s.exchange_state.to_be_updated
      then required (scan_key (codes "pid") es) (λ v. take_pid es v s) s
      else some (true, s)
