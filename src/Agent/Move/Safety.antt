-- ===== src/Agent/Move/Safety.antt =====
-- No outcome of Agent::move_file (agent/server/impl/Agent.cpp) loses the file.
use oort_agent.Base.{
  pos, ◌==◌, ℕ, ℤ, ◌≡◌, refl, sym, ◌∙◌, inl, inr, false, none, some, Bytes, codes, bytes_eq,
  bytes_eq→eq, bytes_eq_refl, Bool-cases, Option-cases, arith, Exception, Ensures, Ensures-attempt,
  Ensures-if, Ensures-weaken, ap,
}
use oort_agent.Posix.{FileSystem, Sys-cases}
use oort_agent.Posix.Laws.{IsLawful}
use oort_agent.Utils.Crc.{get_crc}
use oort_agent.Utils.Paths.{dirname}
use oort_agent.Files.{FileInfo, file_info}
use oort_agent.Agent.Disk.{FreeLimits, check_disk_free_in}
use oort_agent.Agent.Move.{exdev, after_mkdtemp, move_xdev, after_rename, move_file}
use oort_agent.Agent.Move.Posts.{Settled, staged_name, IsApart, Moved, Kept, file_info_crc, apart}
use oort_agent.Agent.Move.Undo.{stage-Ensures}

module _ (F : FileSystem) (L : IsLawful F) (crc32 : ℕ → Bytes → ℕ) (src dest c : Bytes)
    (fi : FileInfo) (sd : bytes_eq src dest ≡ false) (N : IsApart F src dest) where
  abbrev Done : Unit {0} → F.State → Type 0
  Done = Moved F crc32 src dest fi

  -- Kept, from a state in which the destination is free.
  in_place :
      (x : Exception) (s : F.State)
      → F.contents src s ≡ some c
      → F.contents dest s ≡ none
      → Kept F src dest c x s
  in_place x s h d = (d, inl h)

  after_mkdtemp-Ensures :
      (blksize : ℤ) (t : Bytes) (s : F.State)
      → F.contents src s ≡ some c
      → F.contents dest s ≡ none
      → Ensures
          (after_mkdtemp F crc32 blksize src dest fi (F.mkdtemp t s).0 (F.mkdtemp t s).1)
          Done
          (Kept F src dest c)
  unfolding after_mkdtemp
  after_mkdtemp-Ensures blksize t s hs hd = elim (Sys-cases (F.mkdtemp t s).0) [
    | inr (n, e) ↦ rw (e, after_mkdtemp) (keeps dest ∙ hd, inl (keeps src ∙ hs))
    | inl (d, e) ↦
        rw (e, after_mkdtemp)
          (stage-Ensures F L crc32 src dest c fi sd N blksize d _ (keeps src ∙ hs) (keeps dest ∙ hd)
            (keeps (staged_name d) ∙ L.mkdtemp_new t d (codes "file_move") s e)
            (N.dir_apart t d s e))
  ]
    where
      keeps : (q : Bytes) → F.contents q (F.mkdtemp t s).1 ≡ F.contents q s
      keeps q = L.mkdtemp_keeps t q s

  move_xdev-Ensures :
      (limits : FreeLimits) (s : F.State)
      → F.contents src s ≡ some c
      → F.contents dest s ≡ none
      → Ensures (move_xdev F crc32 limits src dest fi s) Done (Kept F src dest c)
  unfolding move_xdev
  move_xdev-Ensures limits s hs hd =
      elim (Bool-cases (check_disk_free_in limits (pos fi.size) (F.statvfs (dirname dest) s))) [
        | inl room ↦ rw (room, move_xdev) (after_mkdtemp-Ensures _ _ s hs hd)
        | inr full ↦ rw (full, move_xdev) (hd, inl hs)
      ]

  after_rename-Ensures :
      (limits : FreeLimits) (s : F.State)
      → F.contents src s ≡ some c
      → F.contents dest s ≡ none
      → get_crc crc32 (some c) ≡ fi.crc32
      → Ensures
          (after_rename F crc32 limits src dest fi (F.rename src dest s).0 (F.rename src dest s).1)
          Done
          (Kept F src dest c)
  unfolding after_rename
  after_rename-Ensures limits s hs hd hc = elim (Option-cases (F.rename src dest s).0) [
    | inl e ↦
        let moves = L.rename_moves src dest c s hs e in
        rw (e, after_rename)
          (
            moves src ∙ rw (sd, bytes_eq_refl src),
            (dest, c, moves dest ∙ rw (bytes_eq_refl dest), hc, inl refl),
          )
    | inr (n, e) ↦
        let keeps = L.rename_fails src dest s n e in
        rw (e, after_rename)
          (Ensures-if Done (Kept F src dest c) _ (n == exdev) _ _
            (λ _. move_xdev-Ensures limits _ (keeps src ∙ hs) (keeps dest ∙ hd))
            (λ _. (keeps dest ∙ hd, inl (keeps src ∙ hs))))
  ]

pub move_file_safe :
    (F : FileSystem) (L : IsLawful F) (crc32 : ℕ → Bytes → ℕ) (limits : FreeLimits)
    (src dest c : Bytes) (fi : FileInfo) (s : F.State)
    → IsApart F src dest
    → F.contents src s ≡ some c
    → Ensures
        (move_file F crc32 limits src dest fi s)
        (Moved F crc32 src dest fi)
        (Settled F src dest c s)
unfolding move_file
move_file_safe F L crc32 limits src dest c fi s N hs = elim (Bool-cases (F.exists dest s)) [
  | inl taken ↦ rw (taken, move_file) (refl, inl hs)
  | inr free ↦
      rw (free, move_file)
        (Ensures-attempt (Moved F crc32 src dest fi) (Settled F src dest c s) s
          (file_info F crc32 src) _
          (λ i e.
            Ensures-if (Moved F crc32 src dest fi) (Settled F src dest c s) s
              (bytes_eq i.crc32 fi.crc32) _ _
              (λ same.
                Ensures-weaken
                  (after_rename F crc32 limits src dest fi (F.rename src dest s).0
                    (F.rename src dest s).1)
                  (Moved F crc32 src dest fi) (Kept F src dest c) (Settled F src dest c s)
                  (λ x t k. (k.0 ∙ sym (no_dest free), k.1))
                  (after_rename-Ensures F L crc32 src dest c fi
                    (apart F L src dest c s hs (no_dest free)).0 N limits s hs (no_dest free)
                    (ap (get_crc crc32) (sym hs)
                      ∙ sym (file_info_crc F crc32 src s i e)
                      ∙ bytes_eq→eq _ _ same)))
              (λ differ. (refl, inl hs)))
          (λ x e. (refl, inl hs)))
]
  where
    no_dest : F.exists dest s ≡ false → F.contents dest s ≡ none
    no_dest free = elim (Option-cases (F.contents dest s)) [
      | inl e ↦ e
      | inr (d, e) ↦ absurd (ground (arith, L.exists_of_contents dest d s e))
    ]
