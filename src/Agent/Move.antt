-- ===== src/Agent/Move.antt =====
-- Agent::move_file of agent/server/impl/Agent.cpp. Logging and `fsync` change no state of the
-- model and are left out; closing a descriptor too.
pub mod Posts
pub mod Staged
pub mod Undo
pub mod Safety
use Prim.Native.Nat.{min}
use oort_agent.Base.{
  ℕ, zero, suc, ◌+◌, Bool, true, false, not, Option, none, some, List, [], ◌∷◌, ◌++◌, Bytes, codes,
  bytes_eq, length, take, drop, ◌==◌, if◌then◌else◌, Errno, Exception, system_error, runtime_error,
  length_error, null_dereference, Result, ok, raise, Outcome, returns, throws, ◌>>=◌, ◌>>◌, pure,
  throw, lift, try_catch, call, reads, attempt, ℤ, pos, negsuc, wrap32,
}
use oort_agent.Posix.{FileSystem, Status, Sys, done, failed, Vfs}
use oort_agent.Utils.Paths.{dirname}
use oort_agent.Files.{FileInfo, file_info}
use oort_agent.Agent.Disk.{FreeLimits, check_disk_free_in}

abbrev pub eexist : Errno
eexist = 17

abbrev pub exdev : Errno
exdev = 18

abbrev pub edquot : Errno
edquot = 122

-- A member function that works on the file system.
abbrev pub Io : FileSystem → Type 0 → Type 0
Io F A = F.State → Outcome F.State A

module _ (F : FileSystem) where
  -- `while ((rcount = read(src_fd, buffer, blksize)) > 0) { write(dest_fd, buffer, rcount); }`.
  -- Each round takes a byte at least: as many rounds as there are bytes are enough.
  unfoldable pub copy_blocks : ℕ → ℕ → Bytes → Bytes → F.State → F.State
  copy_blocks zero blksize dest_tmp rest s = s
  copy_blocks (suc rounds) blksize dest_tmp rest s = elim (take blksize rest) [
    | [] ↦ s
    | c ∷ block ↦
        copy_blocks rounds blksize dest_tmp (drop blksize rest) (F.write dest_tmp (c ∷ block) s)
  ]

  -- The `catch (...)` block.
  unfoldable pub undo : Bytes → Bytes → Bytes → Exception → Io F (Unit {0})
  undo s_tmpdir s_tmpfile src e = do
    _ ← call (F.rename s_tmpfile src)
    _ ← call (F.rmdir s_tmpdir)
    throw e

module _ (F : FileSystem) (crc32 : ℕ → Bytes → ℕ) where
  -- The end of the `try` block: the copy is checked and takes the place of the destination. What
  -- the three calls return is not looked at.
  unfoldable pub commit : Bytes → Bytes → Bytes → Bytes → FileInfo → Io F (Unit {0})
  commit s_tmpdir s_tmpfile dest_tmp dest fi = do
    dest_fi ← attempt (file_info F crc32 dest_tmp)
    if bytes_eq dest_fi.crc32 fi.crc32
        then (do
          _ ← call (F.rename dest_tmp dest)
          _ ← call (F.unlink s_tmpfile)
          _ ← call (F.rmdir s_tmpdir)
          pure tt)
        else throw (runtime_error (codes "move_file: CRC Check failed on written file"))

  -- The copy, once the temporary file of the destination is there; a buffer of a negative size
  -- cannot be made.
  unfoldable pub copy_into : Bytes → Bytes → ℤ → Bytes → FileInfo → Bytes → Io F (Unit {0})
  unfolding commit copy_blocks
  copy_into s_tmpdir s_tmpfile blksize dest fi dest_tmp s = elim (F.contents s_tmpfile s) [
    | none ↦ throws (system_error (F.errno s) (codes "open error (xdev)")) s
    | some content ↦ elim blksize [
      | negsuc n ↦ throws length_error s
      | pos n ↦
          commit s_tmpdir s_tmpfile dest_tmp dest fi
            (copy_blocks F (length content) n dest_tmp content s)
    ]
  ]

  -- The `try` block.
  unfoldable pub copy_over : Bytes → Bytes → ℤ → Bytes → FileInfo → Io F (Unit {0})
  unfolding copy_into
  copy_over s_tmpdir s_tmpfile blksize dest fi = do
    made ← call (F.mkstemp (dirname dest ++ codes "/file_move_XXXXXX"))
    elim made [
      | failed n ↦ throw (system_error n (codes "mkstemp error (xdev)"))
      | done dest_tmp ↦ copy_into s_tmpdir s_tmpfile blksize dest fi dest_tmp
    ]

  -- From the rename into the temporary directory on.
  unfoldable pub stage : ℤ → Bytes → Bytes → FileInfo → Bytes → Io F (Unit {0})
  unfolding copy_over undo
  stage blksize src dest fi s_tmpdir = do
    let s_tmpfile = s_tmpdir ++ codes "/file_move"
    staged ← call (F.rename src s_tmpfile)
    elim staged [
      | some n ↦ throw (system_error n (codes "rename error (xdev)"))
      | none ↦
          try_catch (copy_over s_tmpdir s_tmpfile blksize dest fi) (undo F s_tmpdir s_tmpfile src)
    ]

  -- What follows `mkdtemp`. On failure it returns NULL, and `res[0]` reads through it.
  unfoldable pub after_mkdtemp : ℤ → Bytes → Bytes → FileInfo → Sys Bytes → Io F (Unit {0})
  unfolding stage
  after_mkdtemp blksize src dest fi (failed n) = throw null_dereference
  after_mkdtemp blksize src dest fi (done s_tmpdir) = stage blksize src dest fi s_tmpdir

module _ (F : FileSystem) (crc32 : ℕ → Bytes → ℕ) (limits : FreeLimits) where
  -- The branch for EXDEV.
  unfoldable pub move_xdev : Bytes → Bytes → FileInfo → Io F (Unit {0})
  unfolding after_mkdtemp
  move_xdev src dest fi = do
    srcvfs ← reads (F.statvfs (dirname src))
    destvfs ← reads (F.statvfs (dirname dest))
    if check_disk_free_in limits (pos fi.size) destvfs
        then (do
          res ← call (F.mkdtemp (dirname src ++ codes "/file_move_XXXXXX"))
          after_mkdtemp F crc32 (wrap32 (pos (min srcvfs.bsize destvfs.bsize))) src dest fi res)
        else throw (system_error edquot (codes "insufficient disk space for destination file"))

  -- What follows the plain rename.
  unfoldable pub after_rename : Bytes → Bytes → FileInfo → Status → Io F (Unit {0})
  unfolding move_xdev
  after_rename src dest fi none = pure tt
  after_rename src dest fi (some n) =
      if n == exdev then move_xdev src dest fi else throw (system_error n (codes "Error renaming"))

  unfoldable pub move_file : Bytes → Bytes → FileInfo → Io F (Unit {0})
  unfolding after_rename
  move_file src dest fi = do
    taken ← reads (F.exists dest)
    if taken then throw (system_error eexist (codes "move_file error - file exists")) else (do
      precheck ← attempt (file_info F crc32 src)
      if bytes_eq precheck.crc32 fi.crc32
          then (do status ← call (F.rename src dest); after_rename src dest fi status)
          else throw (runtime_error (codes "move_file: CRC Check failed on source file")))
