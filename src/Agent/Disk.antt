-- ===== src/Agent/Disk.antt =====
-- The disk space checks of agent/server/impl/Agent.cpp: diskFree, diskSize, diskFreePct and the
-- two checkDiskFree. `int` and `int64_t` wrap; the product of two `unsigned long` does too.
pub mod Limits
use oort_agent.Base.{
  ℕ, suc, Option, none, some, ◌+◌, ◌*◌, Bool, true, false, ◌&&◌, Bytes, ◌==◌, if◌then◌else◌, ℤ, pos,
  negsuc, ◌+ℤ◌, ◌*ℤ◌, ◌/ℤ◌, ltb_ℤ, leb_ℤ, wrap32, wrap64,
}
use oort_agent.Posix.{FileSystem, Vfs}

-- The members `min_free_disk` (in megabytes) and `min_free_pct`; -1 is no limit.
pub record FreeLimits : Type 0 where
  pub min_free_disk : ℤ
  pub min_free_pct : ℤ

abbrev pub no_limit : ℤ
no_limit = negsuc 0

abbrev pub default_limits : FreeLimits
default_limits = record { min_free_disk = no_limit; min_free_pct = no_limit }

unfoldable pub set_min_free_mb : ℤ → FreeLimits → FreeLimits
set_min_free_mb mb l = record l { min_free_disk = mb }

unfoldable pub set_min_free_pct : ℤ → FreeLimits → FreeLimits
set_min_free_pct pct l = record l { min_free_pct = pct }

unfoldable pub disk_free : Vfs → ℤ
disk_free vfs = wrap64 (pos (vfs.frsize * vfs.bavail))

unfoldable pub disk_size : Vfs → ℤ
disk_size vfs = wrap64 (pos (vfs.frsize * vfs.blocks))

-- diskFreePct; with no blocks the division traps. A quotient of `int64_t` is cut off at 0.
unfoldable pub disk_free_pct : Vfs → Option ℤ
unfolding disk_free disk_size
disk_free_pct vfs = elim (disk_size vfs) [
  | pos n ↦ if n == 0 then none else some (wrap32 (wrap64 (disk_free vfs *ℤ pos 100) /ℤ n))
  | negsuc n ↦ some (wrap32 (wrap64 (wrap64 (disk_free vfs *ℤ pos 100) /ℤ suc n *ℤ negsuc 0)))
]

abbrev pub max_ℤ : ℤ → ℤ → ℤ
max_ℤ a b = if ltb_ℤ a b then b else a

-- `min_free_disk * 1024*1024`, in `int`.
abbrev pub megabytes : ℤ → ℤ
megabytes mb = wrap32 (wrap32 (mb *ℤ pos 1024) *ℤ pos 1024)

-- The `free_needed` of checkDiskFree.
unfoldable pub free_needed : FreeLimits → ℤ → Vfs → ℤ
unfolding disk_size
free_needed l sz vfs =
    let of_disk =
      if ltb_ℤ (pos 0) l.min_free_disk then wrap64 (sz +ℤ megabytes l.min_free_disk) else sz in
    if ltb_ℤ (pos 0) l.min_free_pct
    then max_ℤ of_disk (wrap64 (sz +ℤ wrap64 (l.min_free_pct *ℤ disk_size vfs) /ℤ 100))
    else of_disk

-- checkDiskFree(sz, vfs)
unfoldable pub check_disk_free_in : FreeLimits → ℤ → Vfs → Bool
unfolding free_needed disk_free
check_disk_free_in l sz vfs = leb_ℤ (free_needed l sz vfs) (disk_free vfs)

abbrev is_unset : ℤ → Bool
is_unset (pos n) = false
is_unset (negsuc n) = n == 0

-- checkDiskFree(sz). The guard tests `min_free_pct` twice.
unfoldable pub check_disk_free : (F : FileSystem) → FreeLimits → Bytes → ℤ → F.State → Bool
unfolding check_disk_free_in
check_disk_free F l workdir sz s =
    if is_unset l.min_free_pct && is_unset l.min_free_pct
    then true
    else check_disk_free_in l sz (F.statvfs workdir s)
