-- ===== src/Posix.antt =====
-- The calls of the operating system that agent/server/impl makes, as an interface: the program is
-- modelled over every system that has these calls. `Laws` states what POSIX says of them, and
-- `Memory` is a system that meets it.
pub mod Laws
pub mod Memory
use oort_agent.Base.{ℕ, ◌≡◌, refl, ◌⊎◌, inl, inr, Bool, Option, List, Bytes, Errno}

-- The fields of `struct stat` that the program reads.
pub record Stat : Type 0 where
  pub is_regular : Bool
  pub is_directory : Bool
  pub uid : ℕ
  pub owner_rwx : Bool
  pub size : ℕ
  pub ctime : ℕ
  pub mtime : ℕ

-- The fields of `struct statvfs` that the program reads.
pub record Vfs : Type 0 where
  pub frsize : ℕ
  pub blocks : ℕ
  pub bavail : ℕ
  pub bsize : ℕ

pub data Sys {ℓ} (A : Type ℓ) : Type ℓ where
  done : A → Sys A
  failed : Errno → Sys A

pub Sys-cases {ℓ} :
    {A : Type ℓ} (r : Sys A) → ((a : A) × (r ≡ done a)) ⊎ ((n : Errno) × (r ≡ failed n))
Sys-cases (done a) = inl (a, refl)
Sys-cases (failed n) = inr (n, refl)

-- `none` where a call returns 0, and otherwise the `errno`.
abbrev pub Status : Type 0
Status = Option Errno

pub record FileSystem : Type 1 where
  pub State : Type 0
  pub time : State → ℕ
  -- The steady clock, in nanoseconds. Reading it lets time pass.
  pub steady_clock : State → ℕ × State
  pub errno : State → Errno
  pub strerror : Errno → Bytes
  pub stat : Bytes → State → Sys Stat
  -- access with F_OK, R_OK and W_OK
  pub exists : Bytes → State → Bool
  pub readable : Bytes → State → Bool
  pub writable : Bytes → State → Bool
  -- What a reader of the file gets until its end; `none` if it cannot be opened.
  pub contents : Bytes → State → Option Bytes
  pub readdir : Bytes → State → Sys (List Bytes)
  pub statvfs : Bytes → State → Vfs
  pub rename : Bytes → Bytes → State → Status × State
  pub unlink : Bytes → State → Status × State
  pub mkdir : Bytes → State → Status × State
  pub rmdir : Bytes → State → Status × State
  -- The name that the call made from the template, as written back.
  pub mkdtemp : Bytes → State → Sys Bytes × State
  pub mkstemp : Bytes → State → Sys Bytes × State
  -- `write` at the end of a file that `mkstemp` opened: it may write less than it is given.
  pub write : Bytes → Bytes → State → State
  -- A new file written through an `ofstream`; false if the stream fails.
  pub save : Bytes → Bytes → State → Bool × State
