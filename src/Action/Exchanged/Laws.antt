-- ===== src/Action/Exchanged/Laws.antt =====
-- The transaction that moves an exchanged server to the list of exchanged servers, and its reply.
use store_monitor.Common.{
  ℕ, ℤ, pos, ◌==◌, ◌≡◌, ◌≢◌, ◌⊎◌, ◌↔◌, inl, inr, refl, sym, ◌∙◌, ◌&&◌, arith, Bool, true, false,
  Bool-cases, some, List, [], ◌∷◌, ◌++◌, Str, codes,
}
use store_monitor.Connection.Data.{Ptr, null, Pool}
use store_monitor.Config.{Config}
use store_monitor.Hiredis.{
  Element, ReplyType, integer, Accepts, Client, Sent, redis_async_command,
  update_exchanged_state_trans_start, update_exchanged_state_in_trans, update_exchanged_state_done,
}
use store_monitor.Meta.{fetch_meta_server_for_write}
use store_monitor.Action.Data.{DownServer, set_to_be_updated, put, modify, World}
use store_monitor.Action.Exchanged.{
  zero_or_one, moved, check_update_exchanged_state_result, update_exchanged_state, transaction,
}

-- The three commands.
abbrev pub multi : Ptr → Ptr → Sent
multi m p = record {
  to = m;
  callback = update_exchanged_state_trans_start;
  priv_data = p;
  argv = codes "MULTI" ∷ [];
}

abbrev pub smove : Str → Ptr → Ptr → Str → Sent
smove group m p key = record {
  to = m;
  callback = update_exchanged_state_in_trans;
  priv_data = p;
  argv =
      codes "SMOVE"
      ∷ (group ++ codes "_monitor_server_list")
      ∷ (group ++ codes "_exchanged_server_list")
      ∷ key
      ∷ [];
}

abbrev pub exec : Ptr → Ptr → Sent
exec m p = record {
  to = m;
  callback = update_exchanged_state_done;
  priv_data = p;
  argv = codes "EXEC" ∷ [];
}

three :
    {A : Type 0} (xs : List A) (a b c : A)
    → ((xs ++ a ∷ []) ++ b ∷ []) ++ c ∷ [] ≡ xs ++ a ∷ b ∷ c ∷ []
three [] a b c = refl
three (x ∷ xs) a b c = cc (three xs a b c)

module _ (accepts : Accepts) (group : Str) (m p : Ptr) (key : Str) (c : Client) where
  transaction-all :
      (transaction accepts group m p key c).0 ≡ true
      → (transaction accepts group m p key c).1.sent
        ≡ c.sent ++ multi m p ∷ smove group m p key ∷ exec m p ∷ []
  unfolding transaction redis_async_command
  transaction-all = elim (Bool-cases (accepts (multi m p))) [
    | inr refuse ↦ rw refuse (λ e. cc)
    | inl take ↦ rw take (elim (Bool-cases (accepts (smove group m p key))) [
      | inr refuse ↦ rw refuse (λ e. cc)
      | inl also ↦ rw also (elim (Bool-cases (accepts (exec m p))) [
        | inr refuse ↦ rw refuse (λ e. cc)
        | inl all ↦ rw all (λ e. three c.sent (multi m p) (smove group m p key) (exec m p))
      ])
    ])
  ]

module _ {T : Type 0} (accepts : Accepts) (fuel : ℕ) (config : Config) (p : Ptr) (w : World T) where
  -- The state with the pool that the search for a meta server leaves.
  abbrev searched : Pool → Client
  searched pool = record (w.client) { pool = pool }

  -- Whether hiredis takes all three commands.
  abbrev pub takes_three : DownServer → Ptr → Bool
  takes_three s m =
      accepts (multi m p)
      && accepts (smove config.monitor_group m p s.ip_port_type)
      && accepts (exec m p)

  -- What `updateExchangedState` does when the search has found `m`.
  pub data Told (s : DownServer) (m : Ptr) (pool : Pool) : World T → Type 0 where
    nobody : m ≡ null → Told s m pool (record w { client = searched pool })
    untold :
        {v : World T}
        → m ≢ null
        → takes_three s m ≡ false
        → v.action ≡ w.action
        → v.client.pool ≡ pool
        → Told s m pool v
    told :
        {v : World T}
        → m ≢ null
        → takes_three s m ≡ true
        → v.action.servers ≡ put w.action.servers p (some (set_to_be_updated false s))
        → v.client.pool ≡ pool
        → v.client.sent
          ≡ w.client.sent
            ++ multi m p ∷ smove config.monitor_group m p s.ip_port_type ∷ exec m p ∷ []
        → Told s m pool v

  transaction-takes :
      (m : Ptr) (s : DownServer) (c : Client)
      → (transaction accepts config.monitor_group m p s.ip_port_type c).0 ≡ takes_three s m
  unfolding transaction redis_async_command
  transaction-takes m s c = ground arith

  transaction-pool :
      (m : Ptr) (key : Str) (c : Client)
      → (transaction accepts config.monitor_group m p key c).1.pool ≡ c.pool
  unfolding transaction redis_async_command
  transaction-pool m key c = ground arith

  -- Once a meta server has been searched for, `updateExchangedState` does not fault. Where none is
  -- there or hiredis refuses a command, the down servers stay as they are; else MULTI, SMOVE from
  -- the monitored to the exchanged servers, and EXEC are handed over to that meta server, in this
  -- order, and the server is marked as told.
  pub update-Told :
      {s : DownServer} {m : Ptr} {pool : Pool}
      → w.action.servers p ≡ some s
      → fetch_meta_server_for_write fuel w.client.pool ≡ some (m, pool)
      → (v : World T) × (update_exchanged_state accepts fuel config p w ≡ some v) × Told s m pool v
  unfolding update_exchanged_state modify
  update-Told {s} {m} {pool} held found =
      rw (held, found)
        (elim (Bool-cases (m == null)) [
          | inl none_there ↦
              rw none_there (record w { client = searched pool }, refl, nobody (ground arith))
          | inr there ↦
              rw there
                (elim (Bool-cases
                  (transaction accepts config.monitor_group m p s.ip_port_type (searched pool)).0) [
                    | inr refuse ↦ rw refuse (
                      _,
                      refl,
                      untold (ground arith) (sym (transaction-takes m s (searched pool)) ∙ refuse)
                          refl (transaction-pool m s.ip_port_type (searched pool)),
                    )
                    | inl all ↦
                        rw (all, held, modify)
                          (
                            _,
                            refl,
                            told (ground arith) (sym (transaction-takes m s (searched pool)) ∙ all)
                                refl (transaction-pool m s.ip_port_type (searched pool))
                                (transaction-all accepts config.monitor_group m p s.ip_port_type
                                  (searched pool) all),
                          )
                  ])
        ])

zero_or_one-cases : (x : ℤ) → zero_or_one x ≡ true → (x ≡ pos 0) ⊎ (x ≡ pos 1)
zero_or_one-cases (pos n) h = elim (Bool-cases (n == 0)) [
  | inl z ↦ inl (let e : n ≡ 0 = ground arith in cc)
  | inr z ↦ inr (let e : n ≡ 1 = ground arith in cc)
]
zero_or_one-cases (ℤ.negsuc n) h = cc

-- The reply of `EXEC` that counts as success: one integer, 0 or 1.
abbrev pub IsMoved : Element → Type 0
IsMoved e = (e.type ≡ integer) × ((e.value ≡ pos 0) ⊎ (e.value ≡ pos 1))

moved-IsMoved : (e : Element) → moved e ≡ true → IsMoved e
unfolding moved
moved-IsMoved e h = by_type e.type refl h
  where
    by_type :
        (x : ReplyType)
        → e.type ≡ x
        → elim x [ integer ↦ zero_or_one e.value | _ ↦ false ] ≡ true
        → IsMoved e
    by_type ReplyType.nil k h = cc
    by_type ReplyType.error k h = cc
    by_type ReplyType.status k h = cc
    by_type integer k h = (k, zero_or_one-cases e.value h)
    by_type ReplyType.string k h = cc
    by_type ReplyType.array k h = cc
    by_type ReplyType.other k h = cc

IsMoved-moved : (e : Element) → IsMoved e → moved e ≡ true
unfolding moved
IsMoved-moved e (k, inl z) = rw (k, z) refl
IsMoved-moved e (k, inr z) = rw (k, z) refl

-- `checkUpdateExchangedStateResult` returns 0 exactly on an array of one element, an integer that is
-- 0 or 1.
pub result_iff :
    (es : List Element)
    → (check_update_exchanged_state_result es ≡ true) ↔ ((e : Element) × (es ≡ e ∷ []) × IsMoved e)
unfolding check_update_exchanged_state_result
result_iff [] = (λ h. cc, λ h. let k = h.1 in cc)
result_iff (e ∷ []) = (
  λ h. (e, refl, moved-IsMoved e h),
  λ h. let k : e ≡ h.0 = (let q = h.1 in cc) in rw k (IsMoved-moved h.0 h.2),
)
result_iff (e ∷ f ∷ es) = (λ h. cc, λ h. let k = h.1 in cc)
