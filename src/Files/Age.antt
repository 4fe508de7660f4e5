-- ===== src/Files/Age.antt =====
-- The age test of Files::oldFiles (agent/server/impl/Files.cpp) and the width of its `int now`.
use oort_agent.Base.{
  ℕ, ◌+◌, ◌^◌, ◌≤◌, ◌<◌, ◌≡◌, ◌↔◌, true, false, arith, pos, ◌-ℤ◌, -ℤ_parts, wrap32, pos_part,
  neg_part, wrap32_fits,
}
use oort_agent.Files.{is_old}

-- For a clock and an age limit below 2^31 a file counts as old exactly when its time of
-- modification and the limit together are before now.
pub is_old_iff :
    (time age mtime : ℕ)
    → time < 2 ^ 31
    → age < 2 ^ 31
    → (is_old time (pos age) mtime ≡ true) ↔ (mtime + age < time)
unfolding is_old
is_old_iff time age mtime ht ha =
    rw (wrap32_fits (pos time) (omega arith) (omega arith), limit) (ground (arith, parts))
  where
    parts : pos_part (pos time -ℤ pos age) + age ≡ neg_part (pos time -ℤ pos age) + time
    parts = omega (arith, -ℤ_parts (pos time) (pos age))

    limit : wrap32 (pos time -ℤ pos age) ≡ pos time -ℤ pos age
    limit = wrap32_fits _ (ground (arith, parts)) (ground (arith, parts))

-- From 2038 on, while the clock has its bit 31 set, and for a limit no larger than the time since
-- then, no file counts as old.
pub is_old_wrapped :
    (time age mtime : ℕ)
    → 2 ^ 31 ≤ time
    → time < 2 ^ 32
    → age < 2 ^ 31
    → age + 2 ^ 31 ≤ time
    → is_old time (pos age) mtime ≡ false
unfolding is_old wrap32 ◌-ℤ◌
is_old_wrapped time age mtime ht hu ha hb = ground arith
