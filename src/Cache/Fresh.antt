-- ===== src/Cache/Fresh.antt =====
-- What Cache::get (agent/server/impl/Cache.h) promises: no value older than the time to live.
use oort_agent.Base.{
  ℕ, ◌+◌, ◌*◌, ◌≤◌, ◌≡◌, refl, inl, inr, some, List, [], ◌∷◌, Bytes, bytes_eq, bytes_eq→eq,
  bytes_eq_refl, Bool-cases, Option-cases, Outcome-cases, arith, Exception, Outcome, returns,
  throws, Ensures, lookup, All,
}
use oort_agent.Cache.{
  Cache, Entry, is_expired, keep_fresh, clean_expired, clean_if_expired, emplace, at, fill, find,
  get,
}

module _ {T : Type 0} (P : Bytes → Entry T → Type 0) where
  abbrev AllEntries : List (Bytes × Entry T) → Type 0
  AllEntries = All (λ x. P x.0 x.1)

  -- An entry found in a list has what all its entries have.
  lookup-AllEntries :
      (key : Bytes) (m : List (Bytes × Entry T)) (e : Entry T)
      → AllEntries m
      → lookup key m ≡ some e
      → P key e
  unfolding lookup
  lookup-AllEntries key [] e h found = absurd cc
  lookup-AllEntries key ((k, x) ∷ m) e h found = elim (Bool-cases (bytes_eq key k)) [
    | inl same ↦
        let ke : key ≡ k = bytes_eq→eq key k same in
        let xe : some x ≡ some e = rw (same, lookup) at found in
        rw (ke, ← some_injective x e xe) h.0
    | inr other ↦ lookup-AllEntries key m e h.1 (rw (other, lookup) at found)
  ]
    where
      some_injective : {A : Type 0} (a b : A) → some a ≡ some b → a ≡ b
      some_injective a b q = cc

  keep_fresh-AllEntries :
      {S : Type 0} (clock : S → ℕ × S) (ttl now : ℕ) (m : List (Bytes × Entry T))
      → AllEntries m
      → AllEntries (keep_fresh clock ttl now m)
  unfolding keep_fresh
  keep_fresh-AllEntries clock ttl now [] h = tt
  keep_fresh-AllEntries clock ttl now ((k, (time, v)) ∷ m) h =
      elim (Bool-cases (is_expired ttl time now)) [
        | inl old ↦ rw (old, keep_fresh) (keep_fresh-AllEntries clock ttl now m h.1)
        | inr new ↦ rw (new, keep_fresh) (h.0, keep_fresh-AllEntries clock ttl now m h.1)
      ]

-- What the cleaning leaves has not expired.
keep_fresh_recent :
    {T S : Type 0} (clock : S → ℕ × S) (ttl now : ℕ) (m : List (Bytes × Entry T))
    → AllEntries (λ k e. now ≤ e.0 + ttl * 1000000) (keep_fresh clock ttl now m)
unfolding keep_fresh
keep_fresh_recent clock ttl now [] = tt
keep_fresh_recent clock ttl now ((k, (time, v)) ∷ m) = elim (Bool-cases (is_expired ttl time now)) [
  | inl old ↦ rw (old, keep_fresh) (keep_fresh_recent clock ttl now m)
  | inr new ↦ rw (new, keep_fresh) (ground (arith, new), keep_fresh_recent clock ttl now m)
]

module _ {T S : Type 0} (clock : S → ℕ × S) (grows : (s : S) → (clock s).0 ≤ (clock (clock s).1).0)
    (fn : Bytes → S → Outcome S T) where
  -- The entry was made by `fn` for its key, no earlier than its time.
  abbrev pub IsMade : Bytes → Entry T → Type 0
  IsMade key e = (s : S) × (s' : S) × (fn key s ≡ returns e.1 s') × (e.0 ≤ (clock s).0)

  abbrev pub IsFilled : Cache T → Type 0
  IsFilled c = AllEntries IsMade c.contents

  module _ (ttl limit : ℕ) (key : Bytes) where
    -- The value was made by `fn` for the key, at most the time to live before `limit`.
    abbrev pub Fresh : T → Cache T × S → Type 0
    Fresh v p =
        ((s : S) × (s' : S) × (fn key s ≡ returns v s') × (limit ≤ (clock s).0 + ttl * 1000000))
        × IsFilled p.0

    -- The exception is one of `fn` for the key.
    abbrev pub Failed : Exception → Cache T × S → Type 0
    Failed e p = ((s : S) × (s' : S) × (fn key s ≡ throws e s')) × IsFilled p.0

    at-Ensures :
        (c : Cache T) (e : Entry T) (s : S)
        → IsFilled c
        → lookup key c.contents ≡ some e
        → limit ≤ e.0 + ttl * 1000000
        → Ensures (at clock key c s) Fresh Failed
    unfolding at
    at-Ensures c e s h found recent =
        let (s0, s1, made, later) = lookup-AllEntries IsMade key c.contents e h found in
        rw (found, at) ((s0, s1, made, omega arith), h)

    abbrev IsRecent : Cache T → Type 0
    IsRecent c = (e : Entry T) → lookup key c.contents ≡ some e → limit ≤ e.0 + ttl * 1000000

    fill-Ensures :
        (now : ℕ) (c : Cache T) (s : S)
        → IsFilled c
        → IsRecent c
        → limit ≤ now
        → now ≤ (clock s).0
        → Ensures (fill clock fn key now c s) Fresh Failed
    unfolding fill emplace lookup
    fill-Ensures now c s h recent low high = elim (Outcome-cases (fn key s)) [
      | inr (e, s', f) ↦ rw (f, fill) ((s, s', f), h)
      | inl (v, s', f) ↦ elim (Option-cases (lookup key c.contents)) [
        | inl absent ↦
            rw (f, fill, absent, emplace)
              (at-Ensures (record c { contents = (key, (now, v)) ∷ c.contents }) (now, v) s'
                ((s, s', f, high), h) (rw (bytes_eq_refl key) refl) (omega arith))
        | inr (e, found) ↦ rw (f, fill, found, emplace) (at-Ensures c e s' h found (recent e found))
      ]
    ]

    find-Ensures :
        (c : Cache T) (s : S)
        → c.ttl_ms ≡ ttl
        → IsFilled c
        → limit ≤ (clock s).0
        → Ensures (find clock fn key c s) Fresh Failed
    unfolding find clean_expired
    find-Ensures c s t h low = elim (Option-cases (lookup key c.contents)) [
      | inl absent ↦
          rw (absent, find)
            (fill-Ensures (clock s).0 c (clock s).1 h (λ e found. absurd cc) low (grows s))
      | inr (e, found) ↦ elim (Bool-cases (is_expired c.ttl_ms e.0 (clock s).0)) [
        | inr hit ↦
            rw (found, find, hit) (at-Ensures _ e _ h found (rw (← t) (ground (arith, hit))))
        | inl old ↦
            let s' = (clock s).1 in
            rw (found, find, old)
              (fill-Ensures (clock s).0 _ (clock s').1
                (keep_fresh-AllEntries IsMade clock c.ttl_ms (clock s').0 c.contents h)
                (λ e' found'.
                  let recent : (clock s').0 ≤ e'.0 + c.ttl_ms * 1000000 =
                    lookup-AllEntries (λ k x. (clock s').0 ≤ x.0 + c.ttl_ms * 1000000) key _ e'
                      (keep_fresh_recent clock c.ttl_ms (clock s').0 c.contents) found' in
                  rw (← t) (omega (arith, grows s)))
                low (omega (arith, grows s, grows s')))
      ]
    ]

  -- A value that Cache::get returns was made by the wrapped function for that key, in a state
  -- whose clock is at most the time to live behind the clock at the call; get throws only what the
  -- function throws for the key; and every entry stays one that the function made for its key.
  pub get-Fresh :
      (key : Bytes) (c : Cache T) (s : S)
      → IsFilled c
      → Ensures
          (get clock fn key c s)
          (Fresh c.ttl_ms (clock s).0 key)
          (Failed c.ttl_ms (clock s).0 key)
  unfolding get clean_if_expired clean_expired
  get-Fresh key c s h = elim (Bool-cases c.enabled) [
    | inr off ↦ elim (Outcome-cases (fn key s)) [
      | inl (v, s', f) ↦ rw (off, get, f) ((s, s', f, omega arith), h)
      | inr (e, s', f) ↦ rw (off, get, f) ((s, s', f), h)
    ]
    | inl on ↦ elim (Bool-cases (is_expired c.ttl_ms c.cache_last_cleaned_at (clock s).0)) [
      | inr kept ↦
          rw (on, get, kept) (find-Ensures c.ttl_ms (clock s).0 key _ (clock s).1 refl h (grows s))
      | inl old ↦
          let s' = (clock s).1 in
          rw (on, get, old)
            (find-Ensures c.ttl_ms (clock s).0 key _ (clock s').1 refl
              (keep_fresh-AllEntries IsMade clock c.ttl_ms (clock s').0 c.contents h)
              (omega (arith, grows s, grows s')))
    ]
  ]
