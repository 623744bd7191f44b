-- ===== src/Action/DownList/Laws.antt =====
-- The list of down servers stays well-formed, and what `addServerToDownList` and
-- `rmServerFromDownList` do on each branch.
use store_monitor.Common.{
  suc, ◌≤◌, ◌<◌, ◌≡◌, ◌≢◌, refl, sym, subst, ◌∙◌, Bool, true, false, ◌==◌, Bool-cases, Option-cases,
  Option, none, some, List, [], ◌∷◌, ◌++◌, ◌⊎◌, inl, inr, arith, Str, str_eq, length, atoi, to_u16,
  ap,
}
use store_monitor.Common.Hash.{UtHash, Entry, lookup, has_key, drop_item, DistinctKeys, has_item}
use store_monitor.Common.Hash.Laws.{
  lookup-none, DistinctKeys-snoc, has_item-snoc, has_item-drop_item, DistinctKeys-drop_item,
  lookup-has_key,
}
use store_monitor.Connection.Data.{Ptr}
use store_monitor.Action.Data.{
  Action, DownServer, ExchangePhase, exchange, exchanging, exchanged, put, no_property,
}
use store_monitor.Action.DownList.{
  removable, new_down_server, add_server_to_down_list, rm_server_from_down_list,
}

-- Each entry's address holds a server under the entry's key, allocated before `fresh`, and no
-- address stands twice.
abbrev pub Items : (Ptr → Option DownServer) → Ptr → List Entry → Type 0
Items h n [] = Unit
Items h n ((k, p) ∷ es) =
    (s : DownServer) × (h p ≡ some s)
    × (s.ip_port_type ≡ k)
    × (p < n)
    × (has_item p es ≡ false)
    × Items h n es

Items-same :
    {h g : Ptr → Option DownServer} {n m : Ptr} (es : List Entry)
    → n ≤ m
    → ((p : Ptr) → has_item p es ≡ true → g p ≡ h p)
    → Items h n es
    → Items g m es
unfolding has_item
Items-same [] le same v = tt
Items-same ((k, p) ∷ es) le same v = (
  v.0,
  rw (same p (ground arith)) v.1,
  v.2,
  omega arith,
  v.4,
  Items-same es le (λ q i. same q (ground arith)) v.5,
)

Items-drop :
    {h g : Ptr → Option DownServer} (n p : Ptr) (es : List Entry)
    → ((q : Ptr) → q ≢ p → g q ≡ h q)
    → Items h n es
    → Items g n (drop_item p es)
unfolding drop_item
Items-drop n p [] same v = tt
Items-drop n p ((k, q) ∷ es) same v = elim (Bool-cases (p == q)) [
  | inl hit ↦ rw hit (Items-drop n p es same v.5)
  | inr miss ↦ rw miss (
    v.0,
    rw (same q (ground arith)) v.1,
    v.2,
    v.3,
    has_item-drop_item q p es v.4,
    Items-drop n p es same v.5,
  )
]

has_item-below :
    (h : Ptr → Option DownServer) (n p : Ptr) (es : List Entry)
    → Items h n es
    → has_item p es ≡ true
    → p < n
unfolding has_item
has_item-below h n p [] v i = cc
has_item-below h n p ((k, q) ∷ es) v i = ground (arith, v.3, has_item-below h n p es v.5)

Items-snoc :
    (h : Ptr → Option DownServer) (n : Ptr) (k : Str) (s : DownServer) (es : List Entry)
    → s.ip_port_type ≡ k
    → Items h n es
    → Items (put h n (some s)) (suc n) (es ++ (k, n) ∷ [])
unfolding put has_item
Items-snoc h n k s [] e v = (s, ground arith, e, omega arith, refl, tt)
Items-snoc h n k s ((j, q) ∷ es) e v = (
  v.0,
  ground (arith, v.1, v.3),
  v.2,
  omega (arith, v.3),
  has_item-snoc q n k es v.4 (omega (arith, v.3)),
  Items-snoc h n k s es e v.5,
)

pub Items-lookup :
    (h : Ptr → Option DownServer) (n : Ptr) (k : Str) (p : Ptr) (es : List Entry)
    → Items h n es
    → lookup k es ≡ some p
    → (s : DownServer) × (h p ≡ some s)
unfolding lookup
Items-lookup h n k p [] w e = cc
Items-lookup h n k p ((j, q) ∷ es) w e = elim (Bool-cases (str_eq j k)) [
  | inl hit ↦ (w.0, ground (arith, w.1))
  | inr miss ↦ Items-lookup h n k p es w.5 (ground arith)
]

-- A record is replaced by one under the same key.
pub Items-put :
    (h : Ptr → Option DownServer) (n p : Ptr) (s t : DownServer) (es : List Entry)
    → h p ≡ some s
    → t.ip_port_type ≡ s.ip_port_type
    → Items h n es
    → Items (put h p (some t)) n es
unfolding put
Items-put h n p s t [] held key v = tt
Items-put h n p s t ((k, q) ∷ es) held key v = elim (Bool-cases (p == q)) [
  | inl hit ↦ (t, rw hit, ground (arith, v.1, v.2), v.3, v.4, Items-put h n p s t es held key v.5)
  | inr miss ↦ (v.0, rw miss v.1, v.2, v.3, v.4, Items-put h n p s t es held key v.5)
]

phase-cases : (x : ExchangePhase) → (x ≡ exchange) ⊎ ((removable x ≡ false) × (x ≢ exchange))
unfolding removable
phase-cases exchange = inl refl
phase-cases exchanging = inr (refl, λ e. cc)
phase-cases exchanged = inr (refl, λ e. cc)

module _ (H : UtHash) (split : Str → List Str) where
  open H use {Table, find_str, add_keyptr, del, iter, iter-add, iter-del, find-iter}

  pub record IsWellFormed (a : Action Table) : Type 0 where
    pub keys : DistinctKeys (iter a.down_server_list)
    pub items : Items a.servers a.fresh (iter a.down_server_list)

  -- The key has three parts, and the record is made of them: the exchange has not started.
  abbrev pub Parsed : Str → List Str → DownServer → Type 0
  Parsed key ts s =
      (ip : Str) × (port : Str) × (type : Str) × (ts ≡ ip ∷ port ∷ type ∷ [])
      × (s ≡ record {
        ip_port_type = key;
        ip = some ip;
        port = to_u16 (atoi port);
        type = some type;
        exchange_state = record { phase = exchange; to_be_updated = true };
        is_no_use = false;
        server_property = no_property;
      })

  parsed :
      (key : Str) (ts : List Str) (s : DownServer)
      → new_down_server key ts ≡ some s
      → Parsed key ts s
  unfolding new_down_server
  parsed key [] s e = cc
  parsed key (a ∷ []) s e = cc
  parsed key (a ∷ b ∷ []) s e = cc
  parsed key (a ∷ b ∷ c ∷ []) s e = (a, b, c, refl, ground arith)
  parsed key (a ∷ b ∷ c ∷ d ∷ r) s e = cc

  not_three : (key : Str) (ts : List Str) → new_down_server key ts ≡ none → length ts ≢ 3
  unfolding new_down_server
  not_three key [] e = λ n. omega arith
  not_three key (a ∷ []) e = λ n. omega arith
  not_three key (a ∷ b ∷ []) e = λ n. omega arith
  not_three key (a ∷ b ∷ c ∷ []) e = cc
  not_three key (a ∷ b ∷ c ∷ d ∷ r) e = λ n. omega arith

  module _ (key : Str) (a : Action Table) (v : IsWellFormed a) where
    found_or_not :
        ((p : Ptr) × (find_str key a.down_server_list ≡ some p)
          × (lookup key (iter a.down_server_list) ≡ some p))
        ⊎ ((find_str key a.down_server_list ≡ none)
            × (has_key key (iter a.down_server_list) ≡ false))
    found_or_not = elim (Option-cases (find_str key a.down_server_list)) [
      | inl e ↦ inr (e, lookup-none key _ (sym (find-iter key a.down_server_list v.keys) ∙ e))
      | inr (p, e) ↦ inl (p, e, sym (find-iter key a.down_server_list v.keys) ∙ e)
    ]

    -- What `addServerToDownList` does, by whether the key is in the list and splits in three.
    pub data Added : Bool × Action Table → Type 0 where
      already : has_key key (iter a.down_server_list) ≡ true → Added (true, a)
      malformed :
          has_key key (iter a.down_server_list) ≡ false
          → length (split key) ≢ 3
          → Added (false, record a { fresh = suc a.fresh })
      added :
          {b : Action Table} {s : DownServer}
          → has_key key (iter a.down_server_list) ≡ false
          → Parsed key (split key) s
          → b.servers ≡ put a.servers a.fresh (some s)
          → b.fresh ≡ suc a.fresh
          → iter b.down_server_list ≡ iter a.down_server_list ++ (key, a.fresh) ∷ []
          → b.running ≡ a.running
          → Added (true, b)

    -- On a well-formed list `addServerToDownList` succeeds without a change if the key is there,
    -- fails without a change to the list if the key does not split in three, and else appends an
    -- entry for a new record at a fresh address; no thread starts or ends.
    pub add-Added : Added (add_server_to_down_list H split key a)
    unfolding add_server_to_down_list
    add-Added = elim found_or_not [
      | inl (p, e, f) ↦ rw (e, add_server_to_down_list) (already (lookup-has_key key p _ f))
      | inr (e, out) ↦ elim (Option-cases (new_down_server key (split key))) [
        | inl bad ↦
            rw (e, add_server_to_down_list, bad) (malformed out (not_three key (split key) bad))
        | inr (s, good) ↦
            rw (e, add_server_to_down_list, good)
              (added out (parsed key (split key) s good) refl refl (iter-add _ _ _) refl)
      ]
    ]

    pub Added-IsWellFormed : {r : Bool × Action Table} → Added r → IsWellFormed r.1
    Added-IsWellFormed (already h) = v
    Added-IsWellFormed (malformed h e) = record {
      keys = v.keys;
      items = Items-same _ (omega arith) (λ q i. refl) v.items;
    }
    Added-IsWellFormed (added {b} {s} out good hs hf hi hr) = record {
      keys = rw hi (DistinctKeys-snoc key a.fresh _ v.keys out);
      items =
          rw (hi, hs, hf)
            (Items-snoc a.servers a.fresh key s _ (ap (λ t. t.ip_port_type) good.4) v.items);
    }

    -- On a well-formed list `addServerToDownList` leaves the list well-formed, whatever it returns.
    pub add-IsWellFormed : IsWellFormed (add_server_to_down_list H split key a).1
    add-IsWellFormed = Added-IsWellFormed add-Added

    -- What `rmServerFromDownList` does, by whether the key is in the list and the exchange started.
    pub data Removed : Option (Bool × Action Table) → Type 0 where
      absent : has_key key (iter a.down_server_list) ≡ false → Removed (some (true, a))
      refused :
          {p : Ptr} {s : DownServer}
          → lookup key (iter a.down_server_list) ≡ some p
          → a.servers p ≡ some s
          → s.exchange_state.phase ≢ exchange
          → Removed (some (false, a))
      removed :
          {p : Ptr} {s : DownServer} {b : Action Table}
          → lookup key (iter a.down_server_list) ≡ some p
          → a.servers p ≡ some s
          → s.exchange_state.phase ≡ exchange
          → b.servers ≡ put a.servers p none
          → b.fresh ≡ a.fresh
          → iter b.down_server_list ≡ drop_item p (iter a.down_server_list)
          → b.running ≡ a.running
          → Removed (some (true, b))

    pub rm-Removed : Removed (rm_server_from_down_list H split key a)
    unfolding rm_server_from_down_list
    rm-Removed = elim found_or_not [
      | inr (e, out) ↦ rw (e, rm_server_from_down_list) (absent out)
      | inl (p, e, f) ↦
          let (s, held) = Items-lookup a.servers a.fresh key p _ v.items f in
          elim (phase-cases s.exchange_state.phase) [
            | inl start ↦
                rw (e, rm_server_from_down_list, held, start)
                  (removed f held start refl refl (iter-del p a.down_server_list) refl)
            | inr (stay, begun) ↦
                rw (e, rm_server_from_down_list, held, stay) (refused f held begun)
          ]
    ]

    pub Removed-IsWellFormed :
        {o : Bool} {b : Action Table} → Removed (some (o, b)) → IsWellFormed b
    Removed-IsWellFormed (absent h) = v
    Removed-IsWellFormed (refused f h n) = v
    Removed-IsWellFormed (removed {p} f h e hs hf hi hr) = record {
      keys = rw hi (DistinctKeys-drop_item p _ v.keys);
      items =
          rw (hi, hs, hf)
            (Items-drop {h = a.servers} {g = put a.servers p none} a.fresh p _
              (λ q n. unfold put in ground arith) v.items);
    }

    Removed-runs :
        {r : Option (Bool × Action Table)}
        → Removed r
        → (o : Bool) × (b : Action Table) × (r ≡ some (o, b))
    Removed-runs (absent h) = (true, a, refl)
    Removed-runs (refused f h n) = (false, a, refl)
    Removed-runs (removed {b} f h e hs hf hi hr) = (true, b, refl)

    -- On a well-formed list `rmServerFromDownList` does not fault, and leaves the list well-formed.
    pub rm-IsWellFormed :
        (o : Bool) × (b : Action Table) × (rm_server_from_down_list H split key a ≡ some (o, b))
        × IsWellFormed b
    rm-IsWellFormed =
        let (o, b, e) = Removed-runs rm-Removed in
        (o, b, e, Removed-IsWellFormed (subst Removed e rm-Removed))
