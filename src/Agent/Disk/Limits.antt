-- ===== src/Agent/Disk/Limits.antt =====
-- What the disk space checks of agent/server/impl/Agent.cpp guarantee.
use native.Mathlib.Nat.{mul-le-mul_right}
use oort_agent.Base.{
  ℕ, ◌/ℤ◌, ◌+ℤ◌, wrap64, Bool-cases, inl, inr, ltb, if◌then◌else◌, ◌/◌, ◌+◌, ◌*◌, ◌^◌, ◌≤◌, ◌<◌,
  ◌≡◌, ◌↔◌, true, false, arith, Bytes, pos, ◌*ℤ◌, wrap32, wrap32_fits, wrap64_fits, pos-*ℤ, pos-+ℤ,
  ap, refl, lt→ltb,
}
use oort_agent.Posix.{FileSystem, Vfs}
use oort_agent.Agent.Disk.{
  FreeLimits, no_limit, megabytes, max_ℤ, disk_free, disk_size, free_needed, check_disk_free_in,
  check_disk_free,
}

disk_free_fits :
    (vfs : Vfs) → vfs.frsize * vfs.bavail < 2 ^ 63 → disk_free vfs ≡ pos (vfs.frsize * vfs.bavail)
unfolding disk_free
disk_free_fits vfs h = wrap64_fits _ (omega arith) (omega arith)

megabytes_fits : (mb : ℕ) → mb < 2048 → megabytes (pos mb) ≡ pos (mb * 1048576)
megabytes_fits mb h =
    rw
      (
        pos-*ℤ mb 1024,
        wrap32_fits (pos (mb * 1024)) (omega arith) (omega arith),
        pos-*ℤ (mb * 1024) 1024,
        wrap32_fits (pos (mb * 1024 * 1024)) (omega arith) (omega arith),
      )
      (ap pos (omega arith))

-- From 2048 megabytes on the product overflows an `int`: at 4096 the limit is lost.
megabytes_overflow : megabytes (pos 4096) ≡ pos 0
unfolding wrap32 ◌*ℤ◌
megabytes_overflow = refl

module _ (sz : ℕ) (vfs : Vfs) where
  needed_mb :
      (mb : ℕ)
      → 0 < mb
      → mb < 2048
      → sz < 2 ^ 62
      → free_needed (record { min_free_disk = pos mb; min_free_pct = no_limit }) (pos sz) vfs
        ≡ pos (sz + mb * 1048576)
  unfolding free_needed
  needed_mb mb h0 h1 h2 =
      rw (lt→ltb 0 (mb + 0) (omega arith), megabytes_fits mb h1, pos-+ℤ sz (mb * 1048576))
        (wrap64_fits _ (omega arith) (omega arith))

-- With a limit of 1 to 2047 megabytes and no percentage, a size below 2^62 and a free space below
-- 2^63, checkDiskFree lets a transfer through exactly when its size and the limit together are
-- available.
pub check_disk_free_mb :
    (mb sz : ℕ) (vfs : Vfs)
    → 0 < mb
    → mb < 2048
    → sz < 2 ^ 62
    → vfs.frsize * vfs.bavail < 2 ^ 63
    → (check_disk_free_in (record { min_free_disk = pos mb; min_free_pct = no_limit }) (pos sz) vfs
        ≡ true)
      ↔ (sz + mb * 1048576 ≤ vfs.frsize * vfs.bavail)
unfolding check_disk_free_in
check_disk_free_mb mb sz vfs h0 h1 h2 h3 =
    rw (needed_mb sz vfs mb h0 h1 h2, disk_free_fits vfs h3) (ground arith)

-- With a limit of 1 to 2047 megabytes, no percentage and too little space for size and limit
-- together (in 64-bit range), checkDiskFree(sz) lets the transfer through, and checkDiskFree(sz,
-- vfs) refuses it.
pub check_disk_free_unchecked :
    (F : FileSystem) (workdir : Bytes) (s : F.State) (mb sz : ℕ)
    → 0 < mb
    → mb < 2048
    → sz < 2 ^ 62
    → (F.statvfs workdir s).frsize * (F.statvfs workdir s).bavail < sz + mb * 1048576
    → (F.statvfs workdir s).frsize * (F.statvfs workdir s).bavail < 2 ^ 63
    → let l : FreeLimits = record { min_free_disk = pos mb; min_free_pct = no_limit } in
      (check_disk_free F l workdir (pos sz) s ≡ true)
      × (check_disk_free_in l (pos sz) (F.statvfs workdir s) ≡ false)
unfolding check_disk_free
check_disk_free_unchecked F workdir s mb sz h0 h1 h2 h3 h4 =
    (refl, ground (arith, check_disk_free_mb mb sz (F.statvfs workdir s) h0 h1 h2 h4))

disk_size_fits :
    (vfs : Vfs) → vfs.frsize * vfs.blocks < 2 ^ 56 → disk_size vfs ≡ pos (vfs.frsize * vfs.blocks)
unfolding disk_size
disk_size_fits vfs h = wrap64_fits _ (omega arith) (omega arith)

-- The larger of two numbers, as the code computes it.
abbrev larger : ℕ → ℕ → ℕ
larger a b = if ltb (a + 0) (b + 0) then b else a

max_pos : (a b : ℕ) → max_ℤ (pos a) (pos b) ≡ pos (larger a b)
max_pos a b = elim (Bool-cases (ltb (a + 0) (b + 0))) [ inl e ↦ rw e refl | inr e ↦ rw e refl ]

larger_iff : (a b c : ℕ) → (larger a b ≤ c) ↔ ((a ≤ c) × (b ≤ c))
larger_iff a b c = ground arith

module _ (mb pct sz size : ℕ) (h_mb : mb < 2048) (h_pct : pct ≤ 100) (h_sz : sz < 2 ^ 62)
    (h_size : size < 2 ^ 56) where
  of_disk :
      (if ltb 0 (mb + 0) then wrap64 (pos sz +ℤ megabytes (pos mb)) else pos sz)
      ≡ pos (sz + mb * 1048576)
  of_disk = elim (Bool-cases (ltb 0 (mb + 0))) [
    | inl e ↦
        rw (e, megabytes_fits mb h_mb, pos-+ℤ sz (mb * 1048576))
          (wrap64_fits (pos (sz + mb * 1048576)) (omega arith) (omega arith))
    | inr e ↦ rw e (ap pos (ground arith))
  ]

  of_pct : wrap64 (pos sz +ℤ wrap64 (pos pct *ℤ pos size) /ℤ 100) ≡ pos (sz + pct * size / 100)
  unfolding ◌/ℤ◌
  of_pct =
      let h = mul-le-mul_right size h_pct in
      rw
        (
          pos-*ℤ pct size,
          wrap64_fits (pos (pct * size)) (omega arith) (omega arith),
          pos-+ℤ sz (pct * size / 100),
        )
        (wrap64_fits (pos (sz + pct * size / 100)) (omega arith) (omega arith))

needed_both :
    (mb pct sz : ℕ) (vfs : Vfs)
    → mb < 2048
    → pct ≤ 100
    → sz < 2 ^ 62
    → vfs.frsize * vfs.blocks < 2 ^ 56
    → let disk = sz + mb * 1048576 in
      free_needed (record { min_free_disk = pos mb; min_free_pct = pos pct }) (pos sz) vfs
      ≡ pos (
          if ltb 0 (pct + 0)
          then larger disk (sz + pct * (vfs.frsize * vfs.blocks) / 100)
          else disk)
unfolding free_needed
needed_both mb pct sz vfs h_mb h_pct h_sz h_size =
    let size = vfs.frsize * vfs.blocks in
    rw (of_disk mb pct sz size h_mb h_pct h_sz h_size, disk_size_fits vfs h_size)
      (elim (Bool-cases (ltb 0 (pct + 0))) [
        | inl e ↦ rw (e, of_pct mb pct sz size h_mb h_pct h_sz h_size, max_pos) refl
        | inr e ↦ rw e refl
      ])

-- With a limit of at most 2047 megabytes and one of at most 100 percent, of which 0 is no limit,
-- on a file system of less than 2^56 bytes with less than 2^63 free, checkDiskFree lets a transfer
-- of less than 2^62 bytes through exactly when its size is available together with the first, and
-- together with the second.
pub check_disk_free_lem :
    (mb pct sz : ℕ) (vfs : Vfs)
    → mb < 2048
    → pct ≤ 100
    → sz < 2 ^ 62
    → vfs.frsize * vfs.blocks < 2 ^ 56
    → vfs.frsize * vfs.bavail < 2 ^ 63
    → let free = vfs.frsize * vfs.bavail in
      (check_disk_free_in (record { min_free_disk = pos mb; min_free_pct = pos pct }) (pos sz) vfs
        ≡ true)
      ↔ ((sz + mb * 1048576 ≤ free) × (sz + pct * (vfs.frsize * vfs.blocks) / 100 ≤ free))
unfolding check_disk_free_in
check_disk_free_lem mb pct sz vfs h_mb h_pct h_sz h_size h_free =
    rw (needed_both mb pct sz vfs h_mb h_pct h_sz h_size, disk_free_fits vfs h_free) (ground arith)
