-- ===== src/Action/Data.antt =====
-- action.h: the state of the action module.
use store_monitor.Common.{ℕ, Bool, Option, none, some, List, Str, ◌==◌, if◌then◌else◌}
use store_monitor.Connection.Data.{Ptr}
use store_monitor.Hiredis.{Client}

-- `EXCHANGE_STATE_…`; the program stores no other value.
pub data ExchangePhase : Type 0 where
  exchange exchanging exchanged : ExchangePhase

pub data DownServerRole : Type 0 where
  master slave backup : DownServerRole

pub data CheckOption : Type 0 where
  check checking checked : CheckOption

pub record ExchangeState : Type 0 where
  pub phase : ExchangePhase
  pub to_be_updated : Bool

pub record ServerProperty : Type 0 where
  pub role : DownServerRole
  pub backup_ip : Option Str
  pub backup_port : ℕ
  pub backup_type : Option Str
  pub pid : Option Str
  pub cluster : Option Str

-- `stDownServer`. A text is `none` where the pointer is NULL.
pub record DownServer : Type 0 where
  pub ip_port_type : Str
  pub ip : Option Str
  pub port : ℕ
  pub type : Option Str
  pub exchange_state : ExchangeState
  pub is_no_use : Bool
  pub server_property : ServerProperty

abbrev pub set_phase : ExchangePhase → DownServer → DownServer
set_phase x s = record s { exchange_state = record (s.exchange_state) { phase = x } }

abbrev pub set_to_be_updated : Bool → DownServer → DownServer
set_to_be_updated b s = record s {
  exchange_state = record (s.exchange_state) { to_be_updated = b };
}

-- What `calloc` leaves: the role with number 0 is the master's.
abbrev pub no_property : ServerProperty
no_property = record {
  role = master;
  backup_ip = none;
  backup_port = 0;
  backup_type = none;
  pid = none;
  cluster = none;
}

-- `stAction` with the heap of down servers and the exchange threads that have not ended. `fresh` is
-- the address that `calloc` returns next; a freed address is not used again, so that a dangling
-- pointer shows.
pub record Action (T : Type 0) : Type 0 where
  pub servers : Ptr → Option DownServer
  pub fresh : Ptr
  pub down_server_list : T
  pub action_enable : Bool
  pub check_action_enable_option : CheckOption
  pub running : List Ptr

-- The state that the functions of action.c work on.
pub record World (T : Type 0) : Type 0 where
  pub client : Client
  pub action : Action T

unfoldable pub put : (Ptr → Option DownServer) → Ptr → Option DownServer → Ptr → Option DownServer
put h p c q = if p == q then c else h q

-- `server->field = …` on the heap.
unfoldable pub modify :
    {T : Type 0} → Ptr → (DownServer → DownServer) → Action T → Option (Action T)
modify p f a = elim (a.servers p) [
  | none ↦ none
  | some s ↦ some (record a { servers = put a.servers p (some (f s)) })
]
