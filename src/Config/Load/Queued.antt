-- ===== src/Config/Load/Queued.antt =====
-- The servers that the configuration declares stand in the queue of unconnected servers.
use store_monitor.Common.{
  ℕ, suc, ap, ◌==◌, ◌≡◌, refl, sym, Bool, true, false, none, some, List, [], ◌∷◌, ◌++◌,
  append_assoc, append-nil, subst, ◌>>=◌, Bool-cases, Option-cases, inl, inr, length, Option,
  if◌then◌else◌, Str, codes, All,
}
use store_monitor.Connection.Data.{Ptr, ServerRole}
use store_monitor.Config.{Config}
use store_monitor.Config.Load.{
  Loading, Loaded, Declared, strcasecmp, pairs, is_even, meta_server_w, meta_server_r, store_server,
  declare, set_one, set_type, load_meta_w, load_meta_r, load_store, setter, directive, load_args,
  load_text, load_line, load_config,
}
use store_monitor.Config.Load.Servers.{add_all-Queued, IsQueued}

-- A line does not fault, and if it is taken, the servers `es` stand behind those before.
Adds : Loaded → List Declared → List Declared → Type 0
Adds o ds es =
    (taken : Bool) × (st' : Loading) × (o ≡ some (taken, st'))
    × (taken ≡ true → (qs : List Ptr) × IsQueued st' qs (ds ++ es))

module _ (st : Loading) (ps : List Ptr) (ds : List Declared) (v : IsQueued st ps ds) where
  Adds-refused : (es : List Declared) → Adds (some (false, st)) ds es
  unfolding Adds
  Adds-refused es = (false, st, refl, λ e. absurd (let k : false ≡ true = e in cc))

  Adds-nothing : (c : Config) → Adds (some (true, record st { config = c })) ds []
  unfolding Adds
  Adds-nothing c = (
    true,
    record st { config = c },
    refl,
    λ _. (
      ps,
      subst (IsQueued (record st { config = c }) ps) (sym (append-nil ds)) (record {
        queue = v.queue;
        declared = v.declared;
        below = v.below;
        some_fresh = v.some_fresh;
      }),
    ),
  )

  Adds-declare :
      (n : ℕ) (es : List Declared)
      → Adds (declare es (record st { pool = record (st.pool) { store_server_num = n } })) ds es
  unfolding Adds declare
  Adds-declare n es =
      let (st', qs, runs, w) =
        add_all-Queued es (record st { pool = record (st.pool) { store_server_num = n } }) ps ds
          (record {
            queue = v.queue;
            declared = v.declared;
            below = v.below;
            some_fresh = v.some_fresh;
          }) in
      (true, st', rw runs refl, λ _. (qs, w))

  Adds-one : (f : Str → Config → Config) (args : List Str) → Adds (set_one f args st) ds []
  unfolding set_one
  Adds-one f [] = Adds-refused []
  Adds-one f (x ∷ []) = Adds-nothing (f x st.config)
  Adds-one f (x ∷ y ∷ args) = Adds-refused []

  Adds-type : (args : List Str) → Adds (set_type args st) ds []
  unfolding set_type
  Adds-type [] = Adds-refused []
  Adds-type (x ∷ args) = Adds-nothing (record (st.config) { type_str = x ∷ args })

  Adds-meta_w : (args : List Str) → Adds (load_meta_w args st) ds (pairs meta_server_w 0 args)
  unfolding load_meta_w
  Adds-meta_w [] = Adds-refused (pairs meta_server_w 0 [])
  Adds-meta_w (a ∷ []) = Adds-refused (pairs meta_server_w 0 (a ∷ []))
  Adds-meta_w (a ∷ b ∷ []) =
      Adds-declare st.pool.store_server_num (pairs meta_server_w 0 (a ∷ b ∷ []))
  Adds-meta_w (a ∷ b ∷ c ∷ args) = Adds-refused (pairs meta_server_w 0 (a ∷ b ∷ c ∷ args))

  Adds-meta_r : (args : List Str) → Adds (load_meta_r args st) ds (pairs meta_server_r 0 args)
  unfolding load_meta_r
  Adds-meta_r [] = Adds-refused (pairs meta_server_r 0 [])
  Adds-meta_r (a ∷ args) = elim (Bool-cases (is_even (length (a ∷ args)))) [
    | inl even ↦ rw even (Adds-declare st.pool.store_server_num (pairs meta_server_r 0 (a ∷ args)))
    | inr odd ↦ rw odd (Adds-refused (pairs meta_server_r 0 (a ∷ args)))
  ]

  Adds-store : (args : List Str) → Adds (load_store args st) ds (pairs store_server 0 args)
  unfolding load_store
  Adds-store [] = Adds-refused (pairs store_server 0 [])
  Adds-store (a ∷ []) = Adds-refused (pairs store_server 0 (a ∷ []))
  Adds-store (a ∷ b ∷ args) =
      Adds-declare (length (pairs store_server 0 (a ∷ b ∷ args)))
        (pairs store_server 0 (a ∷ b ∷ args))

-- The addresses and ports among the arguments.
unfoldable pub addresses : List Str → List (Str × Str)
addresses (ip ∷ port ∷ args) = (ip, port) ∷ addresses args
addresses _ = []

-- One server for each address, the one at place `i` for the queue with the number `number i`.
unfoldable pub servers_at : ServerRole → Bool → (ℕ → ℕ) → ℕ → List (Str × Str) → List Declared
servers_at role writes number i [] = []
servers_at role writes number i (a ∷ others) =
    record { role = role; queue_id = number i; can_write = writes; ip = a.0; port = a.1 }
    ∷ servers_at role writes number (suc i) others

-- The writable meta servers are for queue 1, the others for queue 0, and each store server of a line
-- for a queue of its own.
unfoldable pub writers : List Str → List Declared
unfolding addresses servers_at
writers args = servers_at ServerRole.meta true (λ i. 1) 0 (addresses args)

unfoldable pub readers : List Str → List Declared
unfolding addresses servers_at
readers args = servers_at ServerRole.meta false (λ i. 0) 0 (addresses args)

unfoldable pub own_queues : List Str → List Declared
unfolding addresses servers_at
own_queues args = servers_at ServerRole.store true (λ i. i) 0 (addresses args)

pairs-servers_at :
    (f : ℕ → Str → Str → Declared) (role : ServerRole) (writes : Bool) (number : ℕ → ℕ)
    → ((i : ℕ) (ip port : Str)
        → f i ip port
          ≡ record { role = role; queue_id = number i; can_write = writes; ip = ip; port = port })
    → (i : ℕ) (args : List Str) → pairs f i args ≡ servers_at role writes number i (addresses args)
unfolding pairs servers_at addresses
pairs-servers_at f role writes number e i [] = refl
pairs-servers_at f role writes number e i (a ∷ []) = refl
pairs-servers_at f role writes number e i (a ∷ b ∷ args) = rw (e i a b) (
    ap (◌∷◌ (record { role = role; queue_id = number i; can_write = writes; ip = a; port = b }))
      (pairs-servers_at f role writes number e (suc i) args))

pairs-writers : (args : List Str) → pairs meta_server_w 0 args ≡ writers args
unfolding writers meta_server_w
pairs-writers args =
    pairs-servers_at meta_server_w ServerRole.meta true (λ i. 1) (λ i ip port. refl) 0 args

pairs-readers : (args : List Str) → pairs meta_server_r 0 args ≡ readers args
unfolding readers meta_server_r
pairs-readers args =
    pairs-servers_at meta_server_r ServerRole.meta false (λ i. 0) (λ i ip port. refl) 0 args

pairs-own_queues : (args : List Str) → pairs store_server 0 args ≡ own_queues args
unfolding own_queues store_server
pairs-own_queues args =
    pairs-servers_at store_server ServerRole.store true (λ i. i) (λ i ip port. refl) 0 args

-- The servers that a directive declares.
unfoldable pub declared_by : Str → List Str → List Declared
unfolding writers readers own_queues
declared_by name args =
    if strcasecmp name (codes "type")
    then []
    else (if strcasecmp name (codes "meta-server-w")
        then writers args
        else (if strcasecmp name (codes "meta-server-r")
            then readers args
            else (if strcasecmp name (codes "store-server") then own_queues args else [])))

directive-Adds :
    (ms : Str → ℕ) (name : Str) (args : List Str) (st : Loading) (ps : List Ptr)
    (ds : List Declared)
    → IsQueued st ps ds
    → Adds (directive ms name args st) ds (declared_by name args)
unfolding directive declared_by
directive-Adds ms name args st ps ds v = elim (Bool-cases (strcasecmp name (codes "type"))) [
  | inl a ↦ rw a (Adds-type st ps ds v args)
  | inr a ↦ elim (Bool-cases (strcasecmp name (codes "meta-server-w"))) [
    | inl b ↦
        rw (a, b)
          (subst (Adds (load_meta_w args st) ds) (pairs-writers args) (Adds-meta_w st ps ds v args))
    | inr b ↦ elim (Bool-cases (strcasecmp name (codes "meta-server-r"))) [
      | inl c ↦
          rw (a, b, c)
            (subst (Adds (load_meta_r args st) ds) (pairs-readers args)
              (Adds-meta_r st ps ds v args))
      | inr c ↦ elim (Bool-cases (strcasecmp name (codes "store-server"))) [
        | inl d ↦
            rw (a, b, c, d)
              (subst (Adds (load_store args st) ds) (pairs-own_queues args)
                (Adds-store st ps ds v args))
        | inr d ↦
            rw (a, b, c, d)
              (elim (Option-cases (setter ms name)) [
                | inl e ↦ rw e (Adds-refused st ps ds v [])
                | inr (f, e) ↦ rw e (Adds-one st ps ds v f args)
              ])
      ]
    ]
  ]
]

Adds-more :
    (o : Bool → Loading → Loaded) (x : Loaded) (ds es fs : List Declared)
    → ((st : Loading) → o false st ≡ some (false, st))
    → ((st : Loading) (qs : List Ptr) → IsQueued st qs (ds ++ es) → Adds (o true st) (ds ++ es) fs)
    → Adds x ds es
    → Adds (x >>= λ r. o r.0 r.1) ds (es ++ fs)
unfolding Adds
Adds-more o x ds es fs stop more (taken, st, e, v) = rw e (by_case taken v)
  where
    by_case :
        (taken : Bool)
        → (taken ≡ true → (qs : List Ptr) × IsQueued st qs (ds ++ es))
        → Adds (o taken st) ds (es ++ fs)
    by_case false v = (false, st, stop st, λ e. absurd (let k : false ≡ true = e in cc))
    by_case true v =
        let (qs, w) = v refl in
        let (taken', st', e', v') = more st qs w in
        (
          taken',
          st',
          e',
          λ t. let (rs, u) = v' t in (rs, subst (IsQueued st' rs) (append_assoc ds es fs) u),
        )

-- `sdssplitargs` finds a word.
abbrev pub HasName : Option (List Str) → Type 0
HasName none = ⊥
HasName (some []) = ⊥
HasName (some (name ∷ args)) = Unit

module _ (ms : Str → ℕ) (trim : Str → Str) (split_args : Str → Option (List Str))
    (to_lower : Str → Str) where
  HasText : Str → Type 0
  HasText [] = Unit
  HasText (c ∷ cs) = if c == b'#' then Unit else HasName (split_args (c ∷ cs))

  -- A line is blank, a comment, or has a name.
  unfoldable pub Readable : Str → Type 0
  unfolding HasText
  Readable line = HasText (trim line)

  args_declared : Option (List Str) → List Declared
  args_declared none = []
  args_declared (some []) = []
  args_declared (some (name ∷ args)) = declared_by (to_lower name) args

  text_declared : Str → List Declared
  unfolding args_declared
  text_declared [] = []
  text_declared (c ∷ cs) = if c == b'#' then [] else args_declared (split_args (c ∷ cs))

  unfoldable pub line_declared : Str → List Declared
  unfolding text_declared
  line_declared line = text_declared (trim line)

  abbrev pub lines_declared : List Str → List Declared
  lines_declared [] = []
  lines_declared (line ∷ lines) = line_declared line ++ lines_declared lines

  module _ (st : Loading) (ps : List Ptr) (ds : List Declared) (v : IsQueued st ps ds) where
    args-Adds :
        (o : Option (List Str))
        → HasName o
        → Adds (load_args ms trim split_args to_lower o st) ds (args_declared o)
    unfolding load_args args_declared
    args-Adds none h = absurd h
    args-Adds (some []) h = absurd h
    args-Adds (some (name ∷ args)) h = directive-Adds ms (to_lower name) args st ps ds v

    text-Adds :
        (t : Str)
        → HasText t
        → Adds (load_text ms trim split_args to_lower t st) ds (text_declared t)
    unfolding load_text text_declared HasText
    text-Adds [] h = Adds-nothing st ps ds v st.config
    text-Adds (c ∷ cs) h = by_test (c == b'#') h
      where
        by_test :
            (b : Bool)
            → (if b then Unit else HasName (split_args (c ∷ cs)))
            → Adds
                (if b
                  then some (true, st)
                  else load_args ms trim split_args to_lower (split_args (c ∷ cs)) st)
                ds
                (if b then [] else args_declared (split_args (c ∷ cs)))
        by_test true h = Adds-nothing st ps ds v st.config
        by_test false h = args-Adds (split_args (c ∷ cs)) h

  lines-Adds :
      (lines : List Str) (st : Loading) (ps : List Ptr) (ds : List Declared)
      → All Readable lines
      → IsQueued st ps ds
      → Adds (load_config ms trim split_args to_lower lines st) ds (lines_declared lines)
  unfolding load_config load_line line_declared Readable
  lines-Adds [] st ps ds r v = Adds-nothing st ps ds v st.config
  lines-Adds (line ∷ lines) st ps ds r v =
      Adds-more
        (λ taken st.
          if taken then load_config ms trim split_args to_lower lines st else some (false, st))
        (load_line ms trim split_args to_lower line st) ds (line_declared line)
        (lines_declared lines) (λ st. refl)
        (λ st qs w. lines-Adds lines st qs (ds ++ line_declared line) r.1 w)
        (text-Adds st ps ds v (trim line) r.0)

  -- If every line is blank, a comment or starts with a word, loading the configuration does not
  -- fault. If it does not end in an error, the queue of unconnected servers then holds the servers
  -- that it held before and behind them, in the order of the lines and of the arguments, exactly the
  -- declared ones: each with the role, the number of its queue, the address and
  -- the port of its line.
  pub load_config-IsQueued :
      (lines : List Str) (st : Loading) (ps : List Ptr) (ds : List Declared)
      → All Readable lines
      → IsQueued st ps ds
      → (taken : Bool) × (st' : Loading) × (load_config ms trim split_args to_lower lines st
          ≡ some (taken, st'))
        × (taken ≡ true → (qs : List Ptr) × IsQueued st' qs (ds ++ lines_declared lines))
  load_config-IsQueued lines st ps ds r v = unfold Adds in lines-Adds lines st ps ds r v
