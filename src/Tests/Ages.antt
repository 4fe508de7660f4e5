-- ===== src/Tests/Ages.antt =====
-- The file listings and the disk limits of agent/server/impl at concrete data.
use oort_agent.Base.{
  ◌+◌, ◌*◌, ◌/◌, ◌≤◌, ◌<◌, ◌≡◌, ◌↔◌, refl, true, false, List, [], ◌∷◌, Bytes, codes, bytes_eq,
  arith, lookup, Has, pos, wrap32, ◌-ℤ◌,
}
use oort_agent.Posix.{Vfs}
use oort_agent.Posix.Memory
use oort_agent.Posix.Memory.{memory, Disk}
use oort_agent.Files.{is_old, keep_old}
use oort_agent.Files.Age.{is_old_iff, is_old_wrapped}
use oort_agent.Files.Listing.{keep_old_iff, FromOld}
use oort_agent.Agent.Disk.{FreeLimits, no_limit, check_disk_free, check_disk_free_in}
use oort_agent.Agent.Disk.Limits.{check_disk_free_lem, check_disk_free_unchecked}

is_old_iff_example : (is_old 1000 (pos 300) 500 ≡ true) ↔ (500 + 300 < 1000)
is_old_iff_example = is_old_iff 1000 300 500 (omega arith) (omega arith)

is_old_wrapped_example : is_old 2147484000 (pos 300) 500 ≡ false
is_old_wrapped_example =
    is_old_wrapped 2147484000 300 500 (omega arith) (omega arith) (omega arith) (omega arith)

abbrev names : List Bytes
names = codes "a.meta" ∷ codes ".b.meta" ∷ codes "c.data" ∷ []

abbrev disk : Disk
disk = record { files = (codes "/w/a.meta", codes "{}") ∷ []; millis = 5000 }

keep_old_iff_example :
    Has (codes "/w/a.meta") (keep_old memory (codes "/w") (pos 100) names disk)
    ↔ FromOld memory (codes "/w") (pos 100) disk names (codes "/w/a.meta")
keep_old_iff_example = keep_old_iff memory (codes "/w") (pos 100) disk (codes "/w/a.meta") names

-- The one old file of the directory is listed.
old_listed : keep_old memory (codes "/w") (pos 100) names disk ≡ codes "/w/a.meta" ∷ []
unfolding keep_old is_old lookup bytes_eq Memory.file_stat wrap32 ◌-ℤ◌
old_listed = refl

abbrev vfs : Vfs
vfs = record { frsize = 4096; blocks = 1000; bavail = 500; bsize = 4 }

check_disk_free_lem_example :
    (check_disk_free_in (record { min_free_disk = pos 1; min_free_pct = pos 20 }) (pos 100) vfs
      ≡ true)
    ↔ ((100 + 1 * 1048576 ≤ 4096 * 500) × (100 + 20 * (4096 * 1000) / 100 ≤ 4096 * 500))
check_disk_free_lem_example =
    check_disk_free_lem 1 20 100 vfs (omega arith) (omega arith) (omega arith) (omega arith)
      (omega arith)

check_disk_free_unchecked_example :
    let l : FreeLimits = record { min_free_disk = pos 2; min_free_pct = no_limit } in
    (check_disk_free memory l (codes "/w") (pos 100) disk ≡ true)
    × (check_disk_free_in l (pos 100) vfs ≡ false)
check_disk_free_unchecked_example =
    check_disk_free_unchecked memory (codes "/w") disk 2 100 (omega arith) (omega arith)
      (omega arith) (omega arith) (omega arith)
