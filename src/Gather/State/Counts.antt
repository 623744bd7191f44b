-- ===== src/Gather/State/Counts.antt =====
-- What a reply does to the target servers: each element that does not say up counts as one failure
-- of the server at its place in the list.
use store_monitor.Common.{
  ℕ, suc, ◌+◌, ◌==◌, ltb, leb, if◌then◌else◌, ◌≡◌, inl, inr, refl, subst, ◌∙◌, arith, true, false,
  not, ◌||◌, ◌&&◌, Bool-cases, some, List, [], ◌∷◌, Str, All, Bool, none, Option, ap, atoi, ℤ, pos,
  negsuc, length, str_eq_iff, ◌<◌, ◌≤◌,
}
use store_monitor.Common.Hash.{UtHash, has_key}
use store_monitor.Common.Hash.Laws.{has_key-snoc}
use store_monitor.Action.Data.{Action}
use store_monitor.Action.DownList.Laws.{
  IsWellFormed, Added, already, malformed, added, add-Added, add-IsWellFormed,
}
use store_monitor.Connection.Data.{Ptr}
use store_monitor.Config.{Config}
use store_monitor.Hiredis.{Element, ReplyType, nil, error, status, integer, string, array, other}
use store_monitor.Gather.Data.{TargetServer, Analysis, put, target, set_target}
use store_monitor.Gather.State.{is_one, is_up, count_failure}

number_up : ℤ → Bool
number_up (pos n) = n == 1
number_up (negsuc n) = false

text_up : ReplyType → Option Str → Bool
unfolding number_up
text_up string (some t) = number_up (atoi t)
text_up _ _ = false

-- An element says that a server is up: a string reply whose text starts with the number 1.
unfoldable pub says_up : Element → Bool
unfolding text_up
says_up e = text_up e.type e.str

number_up-is_one : (n : ℤ) → is_one n ≡ number_up n
unfolding is_one number_up
number_up-is_one (pos n) = refl
number_up-is_one (negsuc n) = refl

pub is_up-says_up : (e : Element) → is_up e ≡ says_up e
unfolding is_up says_up text_up
is_up-says_up e = by_type e.type e.str
  where
    by_type :
        (t : ReplyType) (o : Option Str)
        → is_up (record { type = t; str = o; value = e.value }) ≡ text_up t o
    by_type string none = refl
    by_type string (some t) = number_up-is_one (atoi t)
    by_type nil o = refl
    by_type error o = refl
    by_type status o = refl
    by_type integer o = refl
    by_type array o = refl
    by_type other o = refl

-- How often a reply says of a server that it is not up.
unfoldable pub tally : Ptr → List Ptr → List Element → ℕ
unfolding says_up
tally q [] es = 0
tally q (p ∷ ps) [] = 0
tally q (p ∷ ps) (e ∷ es) =
    let rest = tally q ps es in if (p == q) && not (says_up e) then suc rest else rest

-- A server that failed `n` times more: it is marked as down if that brings it to the quota.
pub record Failed (quota n : ℕ) (s t : TargetServer) : Type 0 where
  pub key : t.server_id_key ≡ s.server_id_key
  pub seq : t.gather_seq_id ≡ s.gather_seq_id
  pub count : t.fail_count ≡ s.fail_count + n
  pub down : t.server_in_down_list ≡ (s.server_in_down_list || (ltb 0 n && leb quota t.fail_count))

Failed-none : (quota : ℕ) (s : TargetServer) → Failed quota 0 s s
Failed-none quota s = record { key = refl; seq = refl; count = omega arith; down = ground arith }

Failed-trans :
    (quota m n : ℕ) (s t u : TargetServer)
    → Failed quota m s t
    → Failed quota n t u
    → Failed quota (m + n) s u
Failed-trans quota m n s t u f g = record {
  key = g.key ∙ f.key;
  seq = g.seq ∙ f.seq;
  count = omega (arith, f.count, g.count);
  down = ground (arith, f.count, f.down, g.count, g.down);
}

-- One failure, on either side of the quota.
Failed-one :
    (quota : ℕ) (s : TargetServer)
    → leb quota (suc s.fail_count) ≡ false
    → Failed quota 1 s (record s { fail_count = suc s.fail_count })
Failed-one quota s h = record { key = refl; seq = refl; count = omega arith; down = ground arith }

Failed-down :
    (quota : ℕ) (s : TargetServer)
    → leb quota (suc s.fail_count) ≡ true
    → Failed quota 1 s (record s { fail_count = suc s.fail_count; server_in_down_list = true })
Failed-down quota s h = record { key = refl; seq = refl; count = omega arith; down = ground arith }

unfoldable pub hit : Ptr → Ptr → ℕ
hit p q = if p == q then 1 else 0

-- The down servers that `addServerToDownList` leaves.
module _ (H : UtHash) (split : Str → List Str) (key : Str) (a : Action H.Table)
    (wf : IsWellFormed H split a) where
  Added-keeps :
      (j : Str) {r : Bool × Action H.Table}
      → Added H split key a wf r
      → has_key j (H.iter a.down_server_list) ≡ true
      → has_key j (H.iter r.1.down_server_list) ≡ true
  Added-keeps j (already h) e = e
  Added-keeps j (malformed h n) e = e
  Added-keeps j (added out good hs hf hi hr) e =
      rw (hi, has_key-snoc j key a.fresh (H.iter a.down_server_list), e) refl

  Added-notes :
      {r : Bool × Action H.Table}
      → Added H split key a wf r
      → length (split key) ≡ 3
      → has_key key (H.iter r.1.down_server_list) ≡ true
  Added-notes (already h) e = h
  Added-notes (malformed h n) e = absurd (n e)
  Added-notes (added out good hs hf hi hr) e =
      rw (hi, has_key-snoc key key a.fresh (H.iter a.down_server_list))
        (ground (arith, str_eq_iff key key))

module _ (H : UtHash) (split : Str → List Str) (quota : ℕ) (w : Analysis H.Table) where
  -- Every target server has failed as often as `k` says; those that thereby reach the quota are in
  -- the list of down servers, if their key splits in three, with those that were there before. The
  -- list of target servers and the connections stay.
  pub record Counted (k : Ptr → ℕ) (v : Analysis H.Table) : Type 0 where
    pub targets :
        (q : Ptr) (s : TargetServer)
        → target q w ≡ some s
        → (t : TargetServer) × (target q v ≡ some t) × Failed quota (k q) s t
    pub noted :
        (q : Ptr) (s : TargetServer)
        → target q w ≡ some s
        → 0 < k q
        → quota ≤ s.fail_count + k q
        → length (split s.server_id_key) ≡ 3
        → has_key s.server_id_key (H.iter v.action.down_server_list) ≡ true
    pub kept :
        (key : Str)
        → has_key key (H.iter w.action.down_server_list) ≡ true
        → has_key key (H.iter v.action.down_server_list) ≡ true
    pub well_formed : IsWellFormed H split v.action
    pub list : v.analyzer.gather_server_list ≡ w.analyzer.gather_server_list
    pub client : v.client ≡ w.client

  pub Counted-none : IsWellFormed H split w.action → Counted (λ q. 0) w
  Counted-none wf = record {
    targets = λ q s e. (s, e, Failed-none quota s);
    noted = λ q s e lt. absurd (omega (arith, lt));
    kept = λ key e. e;
    well_formed = wf;
    list = refl;
    client = refl;
  }

  put-Counted :
      (p : Ptr) (s t : TargetServer) (v : Analysis H.Table)
      → target p w ≡ some s
      → Failed quota 1 s t
      → v.analyzer.targets ≡ put w.analyzer.targets p (some t)
      → v.analyzer.gather_server_list ≡ w.analyzer.gather_server_list
      → v.client ≡ w.client
      → IsWellFormed H split v.action
      → ((key : Str)
          → has_key key (H.iter w.action.down_server_list) ≡ true
          → has_key key (H.iter v.action.down_server_list) ≡ true)
      → (quota ≤ s.fail_count + 1
          → length (split s.server_id_key) ≡ 3
          → has_key s.server_id_key (H.iter v.action.down_server_list) ≡ true)
      → Counted (hit p) v
  unfolding target put hit
  put-Counted p s t v held f e l c wf keep note = record {
    targets = counted;
    noted = noted;
    kept = keep;
    well_formed = wf;
    list = l;
    client = c;
  }
    where
      same_record : (q : Ptr) (u : TargetServer) → target q w ≡ some u → p ≡ q → s ≡ u
      same_record q u at g = cc

      counted :
          (q : Ptr) (u : TargetServer)
          → target q w ≡ some u
          → (x : TargetServer) × (target q v ≡ some x) × Failed quota (hit p q) u x
      counted q u at = rw e (elim (Bool-cases (p == q)) [
        | inl same ↦
            rw same (t, refl, subst (λ y. Failed quota 1 y t) (same_record q u at (ground arith)) f)
        | inr apart ↦ rw apart (u, at, Failed-none quota u)
      ])

      noted :
          (q : Ptr) (u : TargetServer)
          → target q w ≡ some u
          → 0 < hit p q
          → quota ≤ u.fail_count + hit p q
          → length (split u.server_id_key) ≡ 3
          → has_key u.server_id_key (H.iter v.action.down_server_list) ≡ true
      noted q u at lt le = elim (Bool-cases (p == q)) [
        | inl same ↦
            let g : s ≡ u = same_record q u at (ground arith) in
            subst
              (λ x.
                length (split x.server_id_key) ≡ 3
                → has_key x.server_id_key (H.iter v.action.down_server_list) ≡ true)
              g
              (note
                (let m : s.fail_count ≡ u.fail_count = ap (λ x. x.fail_count) g in ground arith))
        | inr apart ↦ absurd (ground arith)
      ]

pub Counted-trans :
    (H : UtHash) (split : Str → List Str) (quota : ℕ) (w v u : Analysis H.Table) (k l : Ptr → ℕ)
    → Counted H split quota w k v
    → Counted H split quota v l u
    → Counted H split quota w (λ q. k q + l q) u
Counted-trans H split quota w v u k l f g = record {
  targets = λ q s e.
      let (t, at, a) = f.targets q s e in
      let (x, there, b) = g.targets q t at in (x, there, Failed-trans quota (k q) (l q) s t x a b);
  noted = λ q s e lt le three.
      let (t, at, a) = f.targets q s e in
      elim (Bool-cases (ltb 0 (l q))) [
        | inl again ↦
            subst (λ key. has_key key (H.iter u.action.down_server_list) ≡ true) a.key
              (g.noted q t at (ground arith) (omega (arith, a.count, le))
                (ap (λ key. length (split key)) a.key ∙ three))
        | inr once ↦
            let z : l q ≡ 0 = ground arith in
            g.kept s.server_id_key
              (f.noted q s e (omega (arith, lt, z)) (omega (arith, le, z)) three)
      ];
  kept = λ key e. g.kept key (f.kept key e);
  well_formed = g.well_formed;
  list = g.list ∙ f.list;
  client = g.client ∙ f.client;
}

-- All servers of the list are on the heap.
abbrev pub Allocated : {T : Type 0} → Analysis T → List Ptr → Type 0
Allocated w ps = All (λ p. (s : TargetServer) × (target p w ≡ some s)) ps

module _ (H : UtHash) (split : Str → List Str) (config : Config) where
  pub count_one :
      (p : Ptr) (s : TargetServer) (w : Analysis H.Table)
      → target p w ≡ some s
      → IsWellFormed H split w.action
      → (v : Analysis H.Table) × (count_failure H split config p w ≡ some v)
        × Counted H split config.server_down_quota w (hit p) v
  unfolding count_failure set_target
  count_one p s w held wf =
      rw held (elim (Bool-cases (leb config.server_down_quota (suc s.fail_count))) [
        | inl down ↦ rw down (
          _,
          refl,
          put-Counted H split config.server_down_quota w p s _ _ held
              (Failed-down config.server_down_quota s down) refl refl refl
              (add-IsWellFormed H split s.server_id_key w.action wf)
              (λ j.
                Added-keeps H split s.server_id_key w.action wf j
                  (add-Added H split s.server_id_key w.action wf))
              (λ le.
                Added-notes H split s.server_id_key w.action wf
                  (add-Added H split s.server_id_key w.action wf)),
        )
        | inr up ↦ rw up (
          _,
          refl,
          put-Counted H split config.server_down_quota w p s _ _ held
              (Failed-one config.server_down_quota s up) refl refl refl wf (λ j e. e)
              (λ le. absurd (ground (arith, le))),
        )
      ])
