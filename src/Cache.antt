-- ===== src/Cache.antt =====
-- The class Cache of agent/server/impl/Cache.h: values with the time at which they were made,
-- which count for `ttl_ms` milliseconds. `clock` is the steady clock, in nanoseconds, and `fn` the
-- function that the cache wraps. The lock makes each operation one step.
pub mod Fresh
pub mod Keeps
use oort_agent.Base.{
  ℕ, ◌+◌, ◌*◌, ◌%◌, Bool, true, false, Option, none, some, List, [], ◌∷◌, Bytes, ltb, if◌then◌else◌,
  out_of_range, Outcome, returns, throws, lookup,
}

-- An entry: the time of its making, and the value.
abbrev pub Entry : Type 0 → Type 0
Entry T = ℕ × T

pub record Cache (T : Type 0) : Type 0 where
  pub enabled : Bool
  pub ttl_ms : ℕ
  pub cache_last_cleaned_at : ℕ
  pub contents : List (Bytes × Entry T)
  pub gets : ℕ
  pub hits : ℕ
  pub cleaned : ℕ

-- `++` on an `unsigned`.
abbrev increment : ℕ → ℕ
increment n = (n + 1) % 4294967296

-- `time < now - milliseconds(ttl_ms)`, on signed times.
abbrev pub is_expired : ℕ → ℕ → ℕ → Bool
is_expired ttl_ms time now = ltb (time + ttl_ms * 1000000) now

module _ {T S : Type 0} (clock : S → ℕ × S) where
  pub enable : Cache T → Cache T
  enable c = record c { enabled = true }

  pub disable : Cache T → Cache T
  disable c = record c { enabled = false }

  -- The constructor.
  unfoldable pub create : ℕ → S → Cache T × S
  create timeout_ms s = (
    record {
      enabled = true;
      ttl_ms = timeout_ms;
      cache_last_cleaned_at = (clock s).0;
      contents = [];
      gets = 0;
      hits = 0;
      cleaned = 0;
    },
    (clock s).1,
  )

  -- The loop of clean_expired: what is left, and the count of what was removed.
  unfoldable pub keep_fresh : ℕ → ℕ → List (Bytes × Entry T) → List (Bytes × Entry T)
  keep_fresh ttl_ms now [] = []
  keep_fresh ttl_ms now ((k, (time, v)) ∷ m) =
      let rest = keep_fresh ttl_ms now m in
      if is_expired ttl_ms time now then rest else (k, (time, v)) ∷ rest

  unfoldable pub count_cleaned : ℕ → ℕ → List (Bytes × Entry T) → ℕ → ℕ
  count_cleaned ttl_ms now [] n = n
  count_cleaned ttl_ms now ((k, (time, v)) ∷ m) n =
      count_cleaned ttl_ms now m (if is_expired ttl_ms time now then increment n else n)

  unfoldable pub clean_expired : Cache T → S → Cache T × S
  unfolding keep_fresh count_cleaned
  clean_expired c s =
      let now = (clock s).0 in
      (
        record c {
          contents = keep_fresh c.ttl_ms now c.contents;
          cleaned = count_cleaned c.ttl_ms now c.contents c.cleaned;
          cache_last_cleaned_at = now;
        },
        (clock s).1,
      )

  unfoldable pub flush : Cache T → S → Cache T × S
  flush c s = (record c { contents = []; cache_last_cleaned_at = (clock s).0 }, (clock s).1)

  -- `if (is_cache_ttl_expired()) {clean_expired();}`
  unfoldable pub clean_if_expired : Cache T → S → Cache T × S
  unfolding clean_expired
  clean_if_expired c s =
      if is_expired c.ttl_ms c.cache_last_cleaned_at (clock s).0
      then clean_expired c (clock s).1
      else (c, (clock s).1)

  -- `emplace` changes nothing if the key is there.
  unfoldable pub emplace : Bytes → Entry T → Cache T → Cache T
  unfolding lookup
  emplace key entry c = elim (lookup key c.contents) [
    | some old ↦ c
    | none ↦ record c { contents = (key, entry) ∷ c.contents }
  ]

  -- `return contents.at(key).second`
  unfoldable pub at : Bytes → Cache T → S → Outcome (Cache T × S) T
  unfolding lookup
  at key c s = elim (lookup key c.contents) [
    | none ↦ throws out_of_range (c, s)
    | some entry ↦ returns entry.1 (c, s)
  ]

  module _ (fn : Bytes → S → Outcome S T) where
    -- `contents.emplace(key, make_pair(now, fn(key)))`, and the return.
    unfoldable pub fill : Bytes → ℕ → Cache T → S → Outcome (Cache T × S) T
    unfolding emplace at
    fill key now c s = elim (fn key s) [
      | throws e s' ↦ throws e (c, s')
      | returns v s' ↦ at key (emplace key (now, v) c) s'
    ]

    -- From the search on; `now` is read behind it.
    unfoldable pub find : Bytes → Cache T → S → Outcome (Cache T × S) T
    unfolding fill clean_expired lookup
    find key c s = elim (lookup key c.contents) [
      | none ↦ fill key (clock s).0 c (clock s).1
      | some entry ↦
          if is_expired c.ttl_ms entry.0 (clock s).0
          then fill key (clock s).0 (clean_expired c (clock s).1).0 (clean_expired c (clock s).1).1
          else at key (record c { hits = increment c.hits }) (clock s).1
    ]

    unfoldable pub get : Bytes → Cache T → S → Outcome (Cache T × S) T
    unfolding find clean_if_expired
    get key c s =
        if c.enabled
        then (let counted = record c { gets = increment c.gets } in
            find key (clean_if_expired counted s).0 (clean_if_expired counted s).1)
        else elim (fn key s) [ throws e s' ↦ throws e (c, s') | returns v s' ↦ returns v (c, s') ]
