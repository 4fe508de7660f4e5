-- ===== src/Posix/Laws.antt =====
-- What POSIX documents of the calls, as far as the proofs rely on it. No other process touches the
-- files meanwhile, and a file whose content is given is a regular one.
use oort_agent.Base.{
  ℕ, ◌≤◌, ◌≡◌, ◌++◌, true, false, [], ◌∷◌, none, some, Bytes, bytes_eq, if◌then◌else◌, Errno, take,
}
use oort_agent.Posix.{FileSystem, done, failed}

pub record IsLawful (F : FileSystem) : Type 0 where
  -- A file that can be read exists.
  pub exists_of_contents :
      (p c : Bytes) (s : F.State) → F.contents p s ≡ some c → F.exists p s ≡ true
  pub rename_moves :
      (a b c : Bytes) (s : F.State)
      → F.contents a s ≡ some c
      → (F.rename a b s).0 ≡ none
      → (q : Bytes)
      → F.contents q (F.rename a b s).1
        ≡ (if bytes_eq q b then some c else if bytes_eq q a then none else F.contents q s)
  pub rename_fails :
      (a b : Bytes) (s : F.State) (n : Errno)
      → (F.rename a b s).0 ≡ some n
      → (q : Bytes) → F.contents q (F.rename a b s).1 ≡ F.contents q s
  pub unlink_removes :
      (p : Bytes) (s : F.State)
      → (F.unlink p s).0 ≡ none
      → (q : Bytes)
      → F.contents q (F.unlink p s).1 ≡ (if bytes_eq q p then none else F.contents q s)
  pub unlink_fails :
      (p : Bytes) (s : F.State) (n : Errno)
      → (F.unlink p s).0 ≡ some n
      → (q : Bytes) → F.contents q (F.unlink p s).1 ≡ F.contents q s
  pub rmdir_keeps : (p q : Bytes) (s : F.State) → F.contents q (F.rmdir p s).1 ≡ F.contents q s
  pub mkdir_keeps : (p q : Bytes) (s : F.State) → F.contents q (F.mkdir p s).1 ≡ F.contents q s
  pub mkdtemp_keeps : (t q : Bytes) (s : F.State) → F.contents q (F.mkdtemp t s).1 ≡ F.contents q s
  -- The directory that `mkdtemp` makes is new: there was no file below that name.
  pub mkdtemp_new :
      (t d r : Bytes) (s : F.State)
      → (F.mkdtemp t s).0 ≡ done d
      → F.contents (d ++ b'/' ∷ r) s ≡ none
  -- `mkstemp` makes a new, empty file, or none.
  pub mkstemp_new : (t f : Bytes) (s : F.State) → (F.mkstemp t s).0 ≡ done f → F.contents f s ≡ none
  pub mkstemp_creates :
      (t f : Bytes) (s : F.State)
      → (F.mkstemp t s).0 ≡ done f
      → (q : Bytes)
      → F.contents q (F.mkstemp t s).1 ≡ (if bytes_eq q f then some [] else F.contents q s)
  pub mkstemp_fails :
      (t : Bytes) (s : F.State) (n : Errno)
      → (F.mkstemp t s).0 ≡ failed n
      → (q : Bytes) → F.contents q (F.mkstemp t s).1 ≡ F.contents q s
  -- A write adds a beginning of what it is given to its file, and changes no other.
  pub write_adds :
      (p d old : Bytes) (s : F.State)
      → F.contents p s ≡ some old
      → (n : ℕ) × (F.contents p (F.write p d s) ≡ some (old ++ take n d))
  pub write_frame :
      (p d q : Bytes) (s : F.State)
      → bytes_eq q p ≡ false
      → F.contents q (F.write p d s) ≡ F.contents q s
  pub save_frame :
      (p d q : Bytes) (s : F.State)
      → bytes_eq q p ≡ false
      → F.contents q (F.save p d s).1 ≡ F.contents q s
  -- A stream that did not fail left the file with what was written.
  pub save_writes :
      (p d : Bytes) (s : F.State) → (F.save p d s).0 ≡ true → F.contents p (F.save p d s).1 ≡ some d
  -- Reading the clock does nothing to the files, and the clock does not go back.
  pub clock_keeps : (q : Bytes) (s : F.State) → F.contents q (F.steady_clock s).1 ≡ F.contents q s
  pub clock_grows : (s : F.State) → (F.steady_clock s).0 ≤ (F.steady_clock (F.steady_clock s).1).0
