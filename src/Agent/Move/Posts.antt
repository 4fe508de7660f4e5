-- ===== src/Agent/Move/Posts.antt =====
-- Where the content of the file is while Agent::move_file (agent/server/impl/Agent.cpp) runs.
use oort_agent.Base.{
  Errno, Exception, codes, ◌⊎◌, ℕ, zero, suc, ◌≡◌, refl, sym, ap, ◌∙◌, inl, inr, false, none, some,
  [], ◌∷◌, ◌++◌, Bytes, bytes_eq, bytes_eq-false, take, drop, Option-cases, arith, ok, Result-cases,
}
use oort_agent.Posix.{FileSystem, done}
use oort_agent.Posix.Laws.{IsLawful}
use oort_agent.Utils.Crc.{get_crc}
use oort_agent.Files.{FileInfo, file_stat, file_info}
use oort_agent.Agent.Move.{copy_blocks}

-- The checksum in a FileInfo is that of what the file holds.
pub file_info_crc :
    (F : FileSystem) (crc32 : ℕ → Bytes → ℕ) (p : Bytes) (s : F.State) (i : FileInfo)
    → file_info F crc32 p s ≡ ok i
    → i.crc32 ≡ get_crc crc32 (F.contents p s)
unfolding file_info
file_info_crc F crc32 p s i h = elim (Result-cases (file_stat F p s)) [
  | inl (buf, e) ↦ ground (arith, e)
  | inr (x, e) ↦ ground (arith, e)
]

module _ (F : FileSystem) (L : IsLawful F) where
  -- A path with a content and a path with none are two.
  pub apart :
      (p q c : Bytes) (s : F.State)
      → F.contents p s ≡ some c
      → F.contents q s ≡ none
      → (bytes_eq p q ≡ false) × (bytes_eq q p ≡ false)
  apart p q c s hp hq = (bytes_eq-false p q clash, bytes_eq-false q p (λ e. clash (sym e)))
    where
      clash : p ≡ q → ⊥
      clash e = cc (ap (λ x. F.contents x s) e)

  pub unlink_other :
      (p q : Bytes) (s : F.State)
      → bytes_eq q p ≡ false
      → F.contents q (F.unlink p s).1 ≡ F.contents q s
  unlink_other p q s h = elim (Option-cases (F.unlink p s).0) [
    | inl e ↦ L.unlink_removes p s e q ∙ rw h
    | inr (n, e) ↦ L.unlink_fails p s n e q
  ]

  -- What every write keeps, the copy keeps.
  copy_blocks_keeps :
      (f : Bytes) (P : F.State → Type 0)
      → ((d : Bytes) (s : F.State) → P s → P (F.write f d s))
      → (rounds blksize : ℕ) (rest : Bytes) (s : F.State) → P s
      → P (copy_blocks F rounds blksize f rest s)
  unfolding copy_blocks
  copy_blocks_keeps f P k zero blksize rest s h = h
  copy_blocks_keeps f P k (suc rounds) blksize rest s h =
      go (take blksize rest)
        λ d. copy_blocks_keeps f P k rounds blksize (drop blksize rest) _ (k d s h)
    where
      go :
          (block : Bytes)
          → ((d : Bytes) → P (copy_blocks F rounds blksize f (drop blksize rest) (F.write f d s)))
          → P (elim block [
            | [] ↦ s
            | c ∷ more ↦ copy_blocks F rounds blksize f (drop blksize rest) (F.write f (c ∷ more) s)
          ])
      go [] ih = h
      go (c ∷ more) ih = ih (c ∷ more)

  pub copy_blocks_other :
      (rounds blksize : ℕ) (f q rest : Bytes) (s : F.State)
      → bytes_eq q f ≡ false
      → F.contents q (copy_blocks F rounds blksize f rest s) ≡ F.contents q s
  copy_blocks_other rounds blksize f q rest s h =
      copy_blocks_keeps f (λ t. F.contents q t ≡ F.contents q s)
        (λ d t e. L.write_frame f d q t h ∙ e) rounds blksize rest s refl

  pub copy_blocks_readable :
      (rounds blksize : ℕ) (f old rest : Bytes) (s : F.State)
      → F.contents f s ≡ some old
      → (new : Bytes) × (F.contents f (copy_blocks F rounds blksize f rest s) ≡ some new)
  copy_blocks_readable rounds blksize f old rest s h =
      copy_blocks_keeps f (λ t. (new : Bytes) × (F.contents f t ≡ some new))
        (λ d t e. let (n, w) = L.write_adds f d e.0 t e.1 in (e.0 ++ take n d, w)) rounds blksize
        rest s (old, h)

abbrev pub staged_name : Bytes → Bytes
staged_name s_tmpdir = s_tmpdir ++ codes "/file_move"

-- `mkdtemp` and `mkstemp` do not hit upon the two paths of a move.
pub record IsApart (F : FileSystem) (src dest : Bytes) : Type 0 where
  pub dir_apart :
      (t d : Bytes) (s : F.State)
      → (F.mkdtemp t s).0 ≡ done d
      → bytes_eq dest (staged_name d) ≡ false
  pub file_apart :
      (t f : Bytes) (s : F.State)
      → (F.mkstemp t s).0 ≡ done f
      → (bytes_eq src f ≡ false) × (bytes_eq dest f ≡ false)

-- While the content `c` of the source stands in the temporary directory.
pub record IsStaged (F : FileSystem) (src dest c tmp : Bytes) (s : F.State) : Type 0 where
  pub at_tmp : F.contents tmp s ≡ some c
  pub no_src : F.contents src s ≡ none
  pub no_dest : F.contents dest s ≡ none

-- The name was made by `mkstemp`.
abbrev pub IsTemporary : (F : FileSystem) → Bytes → Type 0
IsTemporary F p = (template : Bytes) × (t : F.State) × ((F.mkstemp template t).0 ≡ done p)

-- The temporary file could not be renamed to the destination when it had this content.
abbrev pub LeftBehind : (F : FileSystem) → Bytes → Bytes → Bytes → Type 0
LeftBehind F dest p d =
    IsTemporary F p
    × ((t : F.State) × (n : Errno) × (F.contents p t ≡ some d) × ((F.rename p dest t).0 ≡ some n))

-- After a return: the file has left its place, and a file with the recorded checksum is at the
-- destination, or, if there is nothing there, in a temporary file whose rename to it failed.
abbrev pub Moved :
    (F : FileSystem) → (ℕ → Bytes → ℕ) → Bytes → Bytes → FileInfo → Unit {0} → F.State → Type 0
Moved F crc32 src dest fi _ s =
    (F.contents src s ≡ none)
    × ((p d : Bytes) × (F.contents p s ≡ some d)
        × (get_crc crc32 (some d) ≡ fi.crc32)
        × ((p ≡ dest) ⊎ ((F.contents dest s ≡ none) × LeftBehind F dest p d)))

-- The file is at its place, or, if it could not be renamed back, in a temporary directory.
abbrev pub InPlace : (F : FileSystem) → Bytes → Bytes → F.State → Type 0
InPlace F src c s =
    (F.contents src s ≡ some c) ⊎ ((d : Bytes) × (F.contents (staged_name d) s ≡ some c))

-- After an exception: nothing has come to the destination, and the file is still there.
abbrev pub Kept : (F : FileSystem) → Bytes → Bytes → Bytes → Exception → F.State → Type 0
Kept F src dest c _ s = (F.contents dest s ≡ none) × InPlace F src c s

-- After an exception, from the state `s`: the destination is as it was, and the file still there.
abbrev pub Settled :
    (F : FileSystem) → Bytes → Bytes → Bytes → F.State → Exception → F.State → Type 0
Settled F src dest c s _ t = (F.contents dest t ≡ F.contents dest s) × InPlace F src c t
