-- ===== src/Engine/Stats/Recorded.antt =====
-- What the statistics of an answer leave in `now`, field by field.
use store_monitor.Common.{
  ℕ, ◌==◌, ◌≡◌, ◌≢◌, ◌⊎◌, if◌then◌else◌, inl, inr, refl, sym, ap, ◌∙◌, arith, true, false,
  Bool-cases, List, [], ◌∷◌, All, Str, codes, str_eq, str_eq→eq, str_eq_refl, str_eq_iff, atoi, ℤ,
  pos, negsuc, ◌-ℤ◌, to_int, to_long,
}
use store_monitor.Engine.Packet.Wire.{Item}
use store_monitor.Engine.Stats.{
  Stats, MonitorInfo, counter_keys, rusage_keys, is_one_of, set_now, set_stat, is_zero, is_negative,
  advances,
}

-- What the statistics say, one after the other.
unfoldable pub apply_items : List Item → Stats → Stats
apply_items [] t = t
apply_items (i ∷ is) t = apply_items is (set_stat i.key i.value (atoi i.value) t)

-- A field that had the value `c`, behind the statistics: the last one under its key decides.
abbrev pub after : {A : Type 0} → (Str → A) → Str → List Item → A → A
after read key [] c = c
after read key (i ∷ is) c = after read key is (if str_eq i.key key then read i.value else c)

-- The fields of `stMonitorInfo` that are `long long` and `double`.
abbrev pub long_fields : List Str
long_fields =
    codes "curr_connections"
    ∷ codes "total_connections"
    ∷ codes "curr_items"
    ∷ codes "cmd_get"
    ∷ codes "cmd_set"
    ∷ codes "get_hits"
    ∷ codes "get_misses"
    ∷ codes "delete_hits"
    ∷ codes "delete_misses"
    ∷ codes "bytes_read"
    ∷ codes "bytes_written"
    ∷ codes "listen_disabled_num"
    ∷ codes "conn_yields"
    ∷ codes "expired_unfetched"
    ∷ codes "evicted_unfetched"
    ∷ codes "evictions"
    ∷ codes "reclaimed"
    ∷ codes "slabs_moved"
    ∷ []

abbrev pub double_fields : List Str
double_fields = codes "rusage_user" ∷ codes "rusage_system" ∷ []

pub record IsRecorded (is : List Item) (now m : MonitorInfo) : Type 0 where
  pub time : m.time ≡ after (λ v. to_int (to_long (atoi v))) (codes "time") is now.time
  pub counters :
      All (λ k. m.counters k ≡ after (λ v. to_long (atoi v)) k is (now.counters k)) long_fields
  pub rusage : All (λ k. m.rusage k ≡ after (λ v. v) k is (now.rusage k)) double_fields

-- Which of the two records is the one behind `now` afterwards: they are exchanged, so that `m` is
-- the one behind `last`, unless the time went back.
pub data Kept (last m : MonitorInfo) : MonitorInfo × MonitorInfo → Type 0 where
  first_time : last.time ≡ pos 0 → Kept last m (last, m)
  later : (n : ℕ) → to_int (m.time -ℤ last.time) ≡ pos n → Kept last m (last, m)
  back :
      (n : ℕ) → last.time ≢ pos 0 → to_int (m.time -ℤ last.time) ≡ negsuc n → Kept last m (m, last)

str_eq-not : (a b : Str) → str_eq a b ≡ false → str_eq b a ≡ false
str_eq-not a b e = ground (arith, str_eq_iff a b, str_eq_iff b a)

-- The branches of `set_now`.
set_now-branch :
    (P : MonitorInfo → Type 0) (key value : Str) (n : ℤ) (m : MonitorInfo)
    → (str_eq key (codes "time") ≡ true → P (record m { time = to_int (to_long n) }))
    → P (record m { counters = λ k. if str_eq k key then to_long n else m.counters k })
    → P (record m { rusage = λ k. if str_eq k key then value else m.rusage k })
    → P m
    → P (set_now key value n m)
unfolding set_now
set_now-branch P key value n m a b c d = elim (Bool-cases (str_eq key (codes "time"))) [
  | inl e ↦ rw e (a e)
  | inr e ↦ elim (Bool-cases (is_one_of key counter_keys)) [
    | inl f ↦ rw (e, f) b
    | inr f ↦ elim (Bool-cases (is_one_of key rusage_keys)) [
      | inl g ↦ rw (e, f, g) c
      | inr g ↦ rw (e, f, g) d
    ]
  ]
]

module _ (i : Item) (t : Stats) where
  one : Stats
  one = set_stat i.key i.value (atoi i.value) t

  time_one :
      one.now.time
      ≡ (if str_eq i.key (codes "time") then to_int (to_long (atoi i.value)) else t.now.time)
  unfolding one set_stat set_now
  time_one = elim (Bool-cases (str_eq i.key (codes "time"))) [
    | inl e ↦ rw e refl
    | inr e ↦
        set_now-branch (λ m. m.time ≡ t.now.time) i.key i.value (atoi i.value) t.now
          (λ f. absurd (let g : true ≡ false = sym f ∙ e in cc)) refl refl refl
        ∙ sym (ap (λ b. if b then to_int (to_long (atoi i.value)) else t.now.time) e)
  ]

  counter_one :
      (k : Str)
      → str_eq k (codes "time") ≡ false
      → is_one_of k counter_keys ≡ true
      → one.now.counters k ≡ (if str_eq i.key k then to_long (atoi i.value) else t.now.counters k)
  unfolding one set_stat set_now
  counter_one k h c = elim (Bool-cases (str_eq i.key k)) [
    | inl e ↦ let f : i.key ≡ k = str_eq→eq i.key k e in rw (f, h, c, str_eq_refl k) refl
    | inr n ↦
        let f : str_eq k i.key ≡ false = str_eq-not i.key k n in
        rw n (
          set_now-branch (λ m. m.counters k ≡ t.now.counters k) i.key i.value (atoi i.value) t.now
            (λ _. refl) (rw f refl) refl refl)
  ]

  rusage_one :
      (k : Str)
      → str_eq k (codes "time") ≡ false
      → is_one_of k counter_keys ≡ false
      → is_one_of k rusage_keys ≡ true
      → one.now.rusage k ≡ (if str_eq i.key k then i.value else t.now.rusage k)
  unfolding one set_stat set_now
  rusage_one k h c r = elim (Bool-cases (str_eq i.key k)) [
    | inl e ↦ let f : i.key ≡ k = str_eq→eq i.key k e in rw (f, h, c, r, str_eq_refl k) refl
    | inr n ↦
        let f : str_eq k i.key ≡ false = str_eq-not i.key k n in
        rw n (
          set_now-branch (λ m. m.rusage k ≡ t.now.rusage k) i.key i.value (atoi i.value) t.now
            (λ _. refl) refl (rw f refl) refl)
  ]

-- All of them, one after the other.
time_all :
    (is : List Item) (t : Stats)
    → (apply_items is t).now.time
      ≡ after (λ v. to_int (to_long (atoi v))) (codes "time") is t.now.time
unfolding apply_items one
time_all [] t = refl
time_all (i ∷ is) t =
    time_all is (one i t)
    ∙ ap (after (λ v. to_int (to_long (atoi v))) (codes "time") is) (time_one i t)

counter_all :
    (is : List Item) (t : Stats) (k : Str)
    → str_eq k (codes "time") ≡ false
    → is_one_of k counter_keys ≡ true
    → (apply_items is t).now.counters k ≡ after (λ v. to_long (atoi v)) k is (t.now.counters k)
unfolding apply_items one
counter_all [] t k h c = refl
counter_all (i ∷ is) t k h c =
    counter_all is (one i t) k h c ∙ ap (after (λ v. to_long (atoi v)) k is) (counter_one i t k h c)

rusage_all :
    (is : List Item) (t : Stats) (k : Str)
    → str_eq k (codes "time") ≡ false
    → is_one_of k counter_keys ≡ false
    → is_one_of k rusage_keys ≡ true
    → (apply_items is t).now.rusage k ≡ after (λ v. v) k is (t.now.rusage k)
unfolding apply_items one
rusage_all [] t k h c r = refl
rusage_all (i ∷ is) t k h c r =
    rusage_all is (one i t) k h c r ∙ ap (after (λ v. v) k is) (rusage_one i t k h c r)

abbrev IsCounter : Str → Type 0
IsCounter k = (str_eq k (codes "time") ≡ false) × (is_one_of k counter_keys ≡ true)

long_fields-IsCounter : All IsCounter long_fields
unfolding is_one_of str_eq
long_fields-IsCounter = (
  (refl, refl),
  (
    (refl, refl),
    (
      (refl, refl),
      (
        (refl, refl),
        (
          (refl, refl),
          (
            (refl, refl),
            (
              (refl, refl),
              (
                (refl, refl),
                (
                  (refl, refl),
                  (
                    (refl, refl),
                    (
                      (refl, refl),
                      (
                        (refl, refl),
                        (
                          (refl, refl),
                          (
                            (refl, refl),
                            ((refl, refl), ((refl, refl), ((refl, refl), ((refl, refl), tt)))),
                          ),
                        ),
                      ),
                    ),
                  ),
                ),
              ),
            ),
          ),
        ),
      ),
    ),
  ),
)

All-map : {P Q : Str → Type 0} → ((k : Str) → P k → Q k) → (ks : List Str) → All P ks → All Q ks
All-map f [] v = tt
All-map f (k ∷ ks) v = (f k v.0, All-map f ks v.1)

pub apply_items-IsRecorded :
    (is : List Item) (t : Stats) → IsRecorded is t.now (apply_items is t).now
unfolding is_one_of str_eq
apply_items-IsRecorded is t = record {
  time = time_all is t;
  counters =
      All-map {P = IsCounter} (λ k v. counter_all is t k v.0 v.1) long_fields long_fields-IsCounter;
  rusage = (
    rusage_all is t (codes "rusage_user") refl refl refl,
    (rusage_all is t (codes "rusage_system") refl refl refl, tt),
  );
}

zero-cases : (n : ℤ) → ((is_zero n ≡ true) × (n ≡ pos 0)) ⊎ ((is_zero n ≡ false) × (n ≢ pos 0))
unfolding is_zero
zero-cases (pos n) = elim (Bool-cases (n == 0)) [
  | inl e ↦ let f : n ≡ 0 = ground arith in inl (e, ap pos f)
  | inr e ↦ inr (e, λ f. let g : n ≡ 0 = (let h = f in cc) in ground arith)
]
zero-cases (negsuc n) = inr (refl, λ f. cc)

sign-cases :
    (n : ℤ)
    → ((is_negative n ≡ false) × (k : ℕ) × (n ≡ pos k))
      ⊎ ((is_negative n ≡ true) × (k : ℕ) × (n ≡ negsuc k))
unfolding is_negative
sign-cases (pos n) = inl (refl, n, refl)
sign-cases (negsuc n) = inr (refl, n, refl)

pub exchanged :
    (last m : MonitorInfo) → Kept last m (if advances m last then (last, m) else (m, last))
unfolding advances
exchanged last m = elim (zero-cases last.time) [
  | inl (z, e) ↦ rw z (first_time e)
  | inr (z, n) ↦ elim (sign-cases (to_int (m.time -ℤ last.time))) [
    | inl (s, k, e) ↦ rw (z, s) (later k e)
    | inr (s, k, e) ↦ rw (z, s) (back k n e)
  ]
]
