-- ===== src/Config/Load.antt =====
-- config.c, `loadConfig`: the lines of the configuration file, and the servers that they declare.
pub mod Servers
pub mod Queued
use store_monitor.Common.{
  ℕ, zero, suc, ◌==◌, ◌&&◌, leb, if◌then◌else◌, ◌+◌, ◌>>=◌, Bool, true, false, Option, none, some,
  List, [], ◌∷◌, map, Str, codes, str_eq, atoi, to_u16, pos_part, length,
}
use store_monitor.Config.{Config}
use store_monitor.Connection.Data.{Ptr, Server, ServerRole, Pool, unconnected_servers}
use store_monitor.Connection.Pool.{update, add_to, create_server_info}
use store_monitor.Meta.{readonly, readwrite}

-- What the function changes; `fresh` is the address that `calloc` returns next.
pub record Loading : Type 0 where
  pub config : Config
  pub pool : Pool
  pub fresh : Ptr

-- A server that a line declares.
pub record Declared : Type 0 where
  pub role : ServerRole
  pub queue_id : ℕ
  pub can_write : Bool
  pub ip : Str
  pub port : Str

-- A fault, or whether the line was taken (false is the label `loaderr`) with the state.
abbrev pub Loaded : Type 0
Loaded = Option (Bool × Loading)

-- `strcasecmp(a, b) == 0`.
lower : ℕ → ℕ
lower c = if leb b'A' c && leb c b'Z' then c + 32 else c

unfoldable pub strcasecmp : Str → Str → Bool
unfolding lower
strcasecmp a b = str_eq (map lower a) (map lower b)

-- The server is created and put among the unconnected. Its port is an `unsigned short`, so the test
-- of its range never fails.
unfoldable pub add_declared : Declared → Loading → Option Loading
unfolding create_server_info update add_to
add_declared d st = do
  let c = create_server_info st.fresh d.ip (to_u16 (atoi d.port)) (codes "redis") st.pool
  c ←
      update st.fresh
        (λ s. record s { queue_id = d.queue_id; can_write = d.can_write; server_role = d.role }) c
  c ← add_to unconnected_servers st.fresh c
  some (record st { pool = c; fresh = suc st.fresh })

unfoldable pub add_all : List Declared → Loading → Option Loading
unfolding add_declared
add_all [] st = some st
add_all (d ∷ ds) st = do st ← add_declared d st; add_all ds st

-- The arguments in pairs of an address and a port; an odd one is left over.
unfoldable pub pairs : (ℕ → Str → Str → Declared) → ℕ → List Str → List Declared
pairs f i (ip ∷ port ∷ args) = f i ip port ∷ pairs f (suc i) args
pairs f i _ = []

unfoldable pub is_even : ℕ → Bool
is_even zero = true
is_even (suc n) = if is_even n then false else true

unfoldable pub meta_server_w : ℕ → Str → Str → Declared
meta_server_w i ip port = record {
  role = ServerRole.meta;
  queue_id = readwrite;
  can_write = true;
  ip = ip;
  port = port;
}

unfoldable pub meta_server_r : ℕ → Str → Str → Declared
meta_server_r i ip port = record {
  role = ServerRole.meta;
  queue_id = readonly;
  can_write = false;
  ip = ip;
  port = port;
}

unfoldable pub store_server : ℕ → Str → Str → Declared
store_server i ip port = record {
  role = ServerRole.store;
  queue_id = i;
  can_write = true;
  ip = ip;
  port = port;
}

declare : List Declared → Loading → Loaded
unfolding add_all
declare ds st = do st ← add_all ds st; some (true, st)

-- A directive with one argument.
set_one : (Str → Config → Config) → List Str → Loading → Loaded
set_one f (v ∷ []) st = some (true, record st { config = f v st.config })
set_one f _ st = some (false, st)

set_type : List Str → Loading → Loaded
set_type [] st = some (false, st)
set_type args st = some (true, record st { config = record (st.config) { type_str = args } })

load_meta_w : List Str → Loading → Loaded
unfolding declare pairs meta_server_w
load_meta_w (ip ∷ port ∷ []) st = declare (pairs meta_server_w 0 (ip ∷ port ∷ [])) st
load_meta_w _ st = some (false, st)

load_meta_r : List Str → Loading → Loaded
unfolding declare pairs meta_server_r is_even
load_meta_r [] st = some (false, st)
load_meta_r args st =
    if is_even (length args) then declare (pairs meta_server_r 0 args) st else some (false, st)

load_store : List Str → Loading → Loaded
unfolding declare pairs store_server
load_store (ip ∷ port ∷ args) st =
    let ds = pairs store_server 0 (ip ∷ port ∷ args) in
    declare ds (record st { pool = record (st.pool) { store_server_num = length ds } })
load_store _ st = some (false, st)

-- `ms` is `atof`, in milliseconds.
module _ (ms : Str → ℕ) where
  text_setter : Str → Option (Str → Config → Config)
  unfolding strcasecmp
  text_setter name =
      if strcasecmp name (codes "lib-dir")
      then some (λ v c. record c { lib_dir = v })
      else (if strcasecmp name (codes "scripts-dir")
          then some (λ v c. record c { scripts_dir = v })
          else (if strcasecmp name (codes "exchange-script-file")
              then some (λ v c. record c { exchange_script_file = v })
              else (if strcasecmp name (codes "monitor-group")
                  then some (λ v c. record c { monitor_group = v })
                  else none)))

  later_setter : Str → Option (Str → Config → Config)
  unfolding strcasecmp text_setter
  later_setter name =
      if strcasecmp name (codes "rw-timeout")
      then some (λ v c. record c { rw_timeout_ms = ms v })
      else (if strcasecmp name (codes "server-state-expire-time")
          then some (λ v c. record c { server_state_expire_time = atoi v })
          else (if strcasecmp name (codes "server-down-quota")
              then some (λ v c. record c { server_down_quota = pos_part (atoi v) })
              else text_setter name))

  -- The directives with one argument; none where the name is another.
  setter : Str → Option (Str → Config → Config)
  unfolding strcasecmp later_setter
  setter name =
      if strcasecmp name (codes "loglevel")
      then some (λ v c. record c { log_level = atoi v })
      else (if strcasecmp name (codes "port")
          then some (λ v c. record c { port = to_u16 (atoi v) })
          else (if strcasecmp name (codes "meta-update-interval")
              then some (λ v c. record c { meta_update_interval = atoi v })
              else (if strcasecmp name (codes "monitor-interval")
                  then some (λ v c. record c { monitor_interval_ms = ms v })
                  else (if strcasecmp name (codes "gather-interval")
                      then some (λ v c. record c { gather_interval = atoi v })
                      else (if strcasecmp name (codes "action-check-interval")
                          then some (λ v c. record c { action_check_interval = atoi v })
                          else later_setter name)))))

  -- The chain of tests on the directive.
  unfoldable pub directive : Str → List Str → Loading → Loaded
  unfolding strcasecmp setter set_one set_type load_meta_w load_meta_r load_store
  directive name args st =
      if strcasecmp name (codes "type")
      then set_type args st
      else (if strcasecmp name (codes "meta-server-w")
          then load_meta_w args st
          else (if strcasecmp name (codes "meta-server-r")
              then load_meta_r args st
              else (if strcasecmp name (codes "store-server")
                  then load_store args st
                  else elim (setter name) [
                    | none ↦ some (false, st)
                    | some f ↦ set_one f args st
                  ])))

  -- `trim` is `sdstrim` of white space, `split_args` is `sdssplitargs`, none where it returns NULL,
  -- and `to_lower` is `sdstolower`.
  module _ (trim : Str → Str) (split_args : Str → Option (List Str)) (to_lower : Str → Str) where
    load_args : Option (List Str) → Loading → Loaded
    unfolding directive
    load_args none st = none
    load_args (some []) st = none
    load_args (some (name ∷ args)) st = directive (to_lower name) args st

    -- Comments and blank lines are left out.
    load_text : Str → Loading → Loaded
    unfolding load_args
    load_text [] st = some (true, st)
    load_text (c ∷ cs) st =
        if c == b'#' then some (true, st) else load_args (split_args (c ∷ cs)) st

    -- The body of the loop for one line.
    unfoldable pub load_line : Str → Loading → Loaded
    unfolding load_text
    load_line line st = load_text (trim line) st

    -- `loadConfig` on an open file, with what `fgets` returns in turn; false is the exit.
    unfoldable pub load_config : List Str → Loading → Loaded
    unfolding load_line
    load_config [] st = some (true, st)
    load_config (line ∷ lines) st = do
      (taken, st) ← load_line line st
      if taken then load_config lines st else some (false, st)
