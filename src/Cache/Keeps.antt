-- ===== src/Cache/Keeps.antt =====
-- What Cache::get (agent/server/impl/Cache.h) leaves alone.
use oort_agent.Base.{
  ℕ, ◌≡◌, inl, inr, Bool-cases, Option-cases, Outcome-cases, Bytes, Exception, Outcome, returns,
  Ensures, lookup,
}
use oort_agent.Cache.{
  Cache, is_expired, clean_expired, clean_if_expired, emplace, at, fill, find, get,
}

-- What holds of the system before the call holds after a return, if reading the clock keeps
-- it and the wrapped function keeps it when it returns.
module _ {T S : Type 0} (clock : S → ℕ × S) (fn : Bytes → S → Outcome S T) (P : S → Type 0)
    (ticks : (s : S) → P s → P (clock s).1)
    (runs : (key : Bytes) (s : S) (v : T) (s' : S) → fn key s ≡ returns v s' → P s → P s') where
  abbrev pub Kept : T → Cache T × S → Type 0
  Kept v p = P p.1

  abbrev pub Any : Exception → Cache T × S → Type 0
  Any e p = Unit

  at-Kept : (key : Bytes) (c : Cache T) (s : S) → P s → Ensures (at clock key c s) Kept Any
  unfolding at
  at-Kept key c s h = elim (Option-cases (lookup key c.contents)) [
    | inl absent ↦ rw (absent, at) tt
    | inr (e, found) ↦ rw (found, at) h
  ]

  fill-Kept :
      (key : Bytes) (now : ℕ) (c : Cache T) (s : S)
      → P s
      → Ensures (fill clock fn key now c s) Kept Any
  unfolding fill
  fill-Kept key now c s h = elim (Outcome-cases (fn key s)) [
    | inr (e, s', f) ↦ rw (f, fill) tt
    | inl (v, s', f) ↦
        rw (f, fill) (at-Kept key (emplace clock key (now, v) c) s' (runs key s v s' f h))
  ]

  find-Kept : (key : Bytes) (c : Cache T) (s : S) → P s → Ensures (find clock fn key c s) Kept Any
  unfolding find clean_expired
  find-Kept key c s h = elim (Option-cases (lookup key c.contents)) [
    | inl absent ↦ rw (absent, find) (fill-Kept key (clock s).0 c (clock s).1 (ticks s h))
    | inr (e, found) ↦ elim (Bool-cases (is_expired c.ttl_ms e.0 (clock s).0)) [
      | inr hit ↦ rw (found, find, hit) (at-Kept key _ (clock s).1 (ticks s h))
      | inl old ↦
          rw (found, find, old)
            (fill-Kept key (clock s).0 _ (clock (clock s).1).1 (ticks (clock s).1 (ticks s h)))
    ]
  ]

  pub get-Kept : (key : Bytes) (c : Cache T) (s : S) → P s → Ensures (get clock fn key c s) Kept Any
  unfolding get clean_if_expired clean_expired
  get-Kept key c s h = elim (Bool-cases c.enabled) [
    | inr off ↦ elim (Outcome-cases (fn key s)) [
      | inl (v, s', f) ↦ rw (off, get, f) (runs key s v s' f h)
      | inr (e, s', f) ↦ rw (off, get, f) tt
    ]
    | inl on ↦ elim (Bool-cases (is_expired c.ttl_ms c.cache_last_cleaned_at (clock s).0)) [
      | inr kept ↦ rw (on, get, kept) (find-Kept key _ (clock s).1 (ticks s h))
      | inl old ↦
          rw (on, get, old) (find-Kept key _ (clock (clock s).1).1 (ticks (clock s).1 (ticks s h)))
    ]
  ]
