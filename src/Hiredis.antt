-- ===== src/Hiredis.antt =====
-- The calls of the hiredis client: what a reply holds, and the commands that are handed over. Which
-- commands hiredis accepts, and when and with what reply it runs a callback, is up to the
-- environment.
use store_monitor.Common.{ℤ, Bool, true, false, Option, List, [], ◌∷◌, ◌++◌, Str, if◌then◌else◌}
use store_monitor.Connection.Data.{Ptr, Pool}

pub data ReplyType : Type 0 where
  nil error status integer string array other : ReplyType

-- `redisReply` as an element of an array; `str` is `none` where the pointer is NULL.
pub record Element : Type 0 where
  pub type : ReplyType
  pub str : Option Str
  pub value : ℤ

-- `redisReply`. What an array inside an array holds is never read.
pub record Reply : Type 0 where
  pub type : ReplyType
  pub str : Option Str
  pub value : ℤ
  pub elements : List Element

-- The functions that the program hands to hiredis as callbacks.
pub data Callback : Type 0 where
  update_local_meta check_action_enable_option_done update_exchange_state_done : Callback
  update_exchanged_state_trans_start update_exchanged_state_in_trans : Callback
  update_exchanged_state_done gather_target_state_done : Callback
  update_server_state_in_store_done redis_query_state_done : Callback

-- A command that waits for its reply.
pub record Sent : Type 0 where
  pub to : Ptr
  pub callback : Callback
  pub priv_data : Ptr
  pub argv : List Str

-- The pool, and the commands sent, oldest first.
pub record Client : Type 0 where
  pub pool : Pool
  pub sent : List Sent

-- Whether hiredis takes a command (`REDIS_OK`).
abbrev pub Accepts : Type 0
Accepts = Sent → Bool

-- `redisAsyncCommand`.
unfoldable pub redis_async_command : Accepts → Sent → Client → Bool × Client
redis_async_command accepts m c =
    if accepts m then (true, record c { sent = c.sent ++ m ∷ [] }) else (false, c)
