-- ===== src/Posix/Memory.antt =====
-- A small system in memory that has the calls of the interface: the assumptions can be met. Paths
-- below /ext are on a second device, and a name from `mkdtemp` or `mkstemp` is longer than all
-- others.
pub mod Lawful
use oort_agent.Base.{
  ℕ, zero, suc, ◌+◌, ◌≤◌, ◌<◌, ◌≡◌, refl, ◌∙◌, ap, ◌⊎◌, inl, inr, Bool, true, false, not, Option,
  none, some, List, [], ◌∷◌, ◌++◌, Bytes, codes, bytes_eq, bytes_eq→eq, bytes_eq_refl, length,
  length-append, take, take_all, ◌==◌, if◌then◌else◌, Errno, arith, lookup, erase, lookup-erase,
  Bool-cases, Option-cases,
}
use oort_agent.Utils.Paths.{starts_with, dirname, tailname}
use oort_agent.Utils.Hex.{zeros}
use oort_agent.Posix.{FileSystem, Sys, done, failed, Status, Stat, Vfs}
use oort_agent.Posix.Laws.{IsLawful}

pub record Disk : Type 0 where
  pub files : List (Bytes × Bytes)
  pub millis : ℕ

abbrev pub enoent : Errno
enoent = 2

abbrev pub on_ext : Bytes → Bool
on_ext = λ p. starts_with p (codes "/ext")

abbrev pub same_device : Bytes → Bytes → Bool
same_device a b = if on_ext a then on_ext b else not (on_ext b)

abbrev pub put : Bytes → Bytes → Disk → Disk
put p c s = record s { files = (p, c) ∷ erase p s.files }

abbrev pub file_rename : Bytes → Bytes → Disk → Status × Disk
file_rename a b s = elim (lookup a s.files) [
  | none ↦ (some enoent, s)
  | some c ↦
      if same_device a b
      then (none, record s { files = (b, c) ∷ erase a s.files })
      else (some 18, s)
]

abbrev pub file_unlink : Bytes → Disk → Status × Disk
file_unlink p s = elim (lookup p s.files) [
  | none ↦ (some enoent, s)
  | some c ↦ (none, record s { files = erase p s.files })
]

total : List (Bytes × Bytes) → ℕ
total [] = 0
total ((k, v) ∷ m) = length k + total m

unfoldable pub fresh : Bytes → Disk → Bytes
unfolding total zeros
fresh t s = t ++ zeros (suc (total s.files)) []

unfoldable pub file_stat : Bytes → Disk → Sys Stat
file_stat p s = elim (lookup p s.files) [
  | none ↦ failed enoent
  | some c ↦ done (record {
    is_regular = true;
    is_directory = false;
    uid = 0;
    owner_rwx = true;
    size = length c;
    ctime = 0;
    mtime = 0;
  })
]

unfoldable pub names_in : Bytes → List (Bytes × Bytes) → List Bytes
names_in dir [] = []
names_in dir ((k, v) ∷ m) =
    let rest = names_in dir m in if bytes_eq (dirname k) dir then tailname k ∷ rest else rest

abbrev pub has_file : Bytes → Disk → Bool
has_file p s = elim (lookup p s.files) [ none ↦ false | some c ↦ true ]

abbrev pub file_write : Bytes → Bytes → Disk → Disk
file_write p d s = elim (lookup p s.files) [ none ↦ s | some old ↦ put p (old ++ d) s ]

abbrev pub memory : FileSystem
memory = record {
  State = Disk;
  time = λ s. s.millis;
  steady_clock = λ s. (s.millis, record s { millis = s.millis + 1 });
  errno = λ s. enoent;
  strerror = λ n. codes "error";
  stat = file_stat;
  exists = has_file;
  readable = has_file;
  writable = λ p s. true;
  contents = λ p s. lookup p s.files;
  readdir = λ d s. done (names_in d s.files);
  statvfs = λ p s. record { frsize = 4096; blocks = 1000; bavail = 500; bsize = 4 };
  rename = file_rename;
  unlink = file_unlink;
  mkdir = λ p s. (none, s);
  rmdir = λ p s. (none, s);
  mkdtemp = λ t s. (done (fresh t s), s);
  mkstemp = λ t s. (done (fresh t s), put (fresh t s) [] s);
  write = file_write;
  save = λ p d s. (true, put p d s);
}
