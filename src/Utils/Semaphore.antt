-- ===== src/Utils/Semaphore.antt =====
-- The classes Semaphore and sem_guard, and the synced stream, of agent/server/impl/Utils.cpp. The
-- value of a semaphore is a number; a wait at 0 blocks, which is `none`. Command has trywait, post
-- and the destructor of the guard, which release the latch.
use oort_agent.Base.{
  ℕ, zero, suc, ◌≡◌, refl, Bool, true, false, Option, none, some, Errno, codes, Result, ok, raise,
  system_error, if◌then◌else◌, ℤ, ◌==◌,
}
use oort_agent.Command.{trywait, post, release}

-- The constructor: what sem_init returns, and the value.
unfoldable pub new_semaphore : ℕ → Errno → ℕ → Result ℕ
new_semaphore ret errno n =
    if ret == 0 then ok n else raise (system_error errno (codes "initializing semaphore"))

unfoldable pub sem_wait : ℕ → Option ℕ
sem_wait zero = none
sem_wait (suc n) = some n

-- A semaphore and its guard, by `m_owned`.
unfoldable pub guard_trywait : Bool → ℕ → Bool × ℕ
unfolding trywait
guard_trywait owned n = if (trywait n).0 then (true, (trywait n).1) else (owned, n)

unfoldable pub guard_wait : Bool → ℕ → Option (Bool × ℕ)
guard_wait owned zero = none
guard_wait owned (suc n) = some (true, n)

-- A guard that is used once and destroyed leaves the value as it found it.
guard_balanced : (n : ℕ) → release (guard_trywait false n).0 (guard_trywait false n).1 ≡ n
unfolding release guard_trywait trywait post
guard_balanced zero = refl
guard_balanced (suc n) = refl

-- sync_ofilebuf::sync: what the buffer's sync and fsync return; an open file is synced to the
-- disk.
unfoldable pub sync : Bool → ℤ → ℤ → ℤ
sync is_open flushed synced = if is_open then synced else flushed

-- sync_ofstream::open: the fail bit behind it, for whether the buffer opened the file.
unfoldable pub open_stream : Bool → Bool
open_stream opened = if opened then false else true
