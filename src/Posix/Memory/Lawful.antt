-- ===== src/Posix/Memory/Lawful.antt =====
-- The system in memory meets what POSIX documents.
use mathlib.Core.List.{append-nil}
use native.Mathlib.Nat.{le_refl}
use oort_agent.Base.{
  last_of, last_of-append, ℕ, zero, suc, ◌+◌, ◌≤◌, ◌<◌, ◌≡◌, refl, ◌∙◌, ap, inl, inr, false, none,
  some, List, [], ◌∷◌, ◌++◌, Bytes, codes, bytes_eq, bytes_eq→eq, bytes_eq-false, ◌≢◌,
  bytes_eq_refl, length, length-append, take, take_all, if◌then◌else◌, Errno, arith, lookup,
  lookup-erase, Bool-cases, Option-cases,
}
use oort_agent.Utils.Hex.{zeros}
use oort_agent.Posix.{done}
use oort_agent.Posix.Laws.{IsLawful}
use oort_agent.Posix.Memory.{
  Disk, put, file_rename, file_unlink, file_write, has_file, total, fresh, memory,
}

lookup-length : (p c : Bytes) (m : List (Bytes × Bytes)) → lookup p m ≡ some c → length p ≤ total m
unfolding lookup total
lookup-length p c [] h = cc
lookup-length p c ((k, v) ∷ m) h = elim (Bool-cases (bytes_eq p k)) [
  | inl same ↦ omega (arith, ap length (bytes_eq→eq p k same))
  | inr other ↦ omega (arith, lookup-length p c m (rw (other, lookup) at h))
]

length-zeros : (n : ℕ) (s : Bytes) → length (zeros n s) ≡ n + length s
unfolding zeros
length-zeros zero s = omega arith
length-zeros (suc n) s = omega (arith, length-zeros n s)

lookup_long : (p : Bytes) (m : List (Bytes × Bytes)) → total m < length p → lookup p m ≡ none
lookup_long p m h = elim (Option-cases (lookup p m)) [
  | inl e ↦ e
  | inr (c, e) ↦ absurd (omega (arith, lookup-length p c m e))
]

lookup-fresh : (t r : Bytes) (s : Disk) → lookup (fresh t s ++ r) s.files ≡ none
unfolding fresh
lookup-fresh t r s = lookup_long _ _ (
    omega (
      arith,
      length-append (t ++ zeros (suc (total s.files)) []) r,
      length-append t (zeros (suc (total s.files)) []),
      length-zeros (suc (total s.files)) [],
    ))

lookup-put :
    (q p c : Bytes) (s : Disk)
    → lookup q (put p c s).files ≡ (if bytes_eq q p then some c else lookup q s.files)
unfolding lookup
lookup-put q p c s = ground (arith, lookup-erase q p s.files)

-- The calls one by one.
rename_moves :
    (a b c : Bytes) (s : Disk)
    → lookup a s.files ≡ some c
    → (file_rename a b s).0 ≡ none
    → (q : Bytes)
    → lookup q (file_rename a b s).1.files
      ≡ (if bytes_eq q b then some c else if bytes_eq q a then none else lookup q s.files)
unfolding lookup
rename_moves a b c s h e q = ground (arith, lookup-erase q a s.files)

rename_fails :
    (a b : Bytes) (s : Disk) (n : Errno)
    → (file_rename a b s).0 ≡ some n
    → (q : Bytes) → lookup q (file_rename a b s).1.files ≡ lookup q s.files
rename_fails a b s n e q = ground arith

unlink_removes :
    (p : Bytes) (s : Disk)
    → (file_unlink p s).0 ≡ none
    → (q : Bytes)
    → lookup q (file_unlink p s).1.files ≡ (if bytes_eq q p then none else lookup q s.files)
unlink_removes p s e q = ground (arith, lookup-erase q p s.files)

unlink_fails :
    (p : Bytes) (s : Disk) (n : Errno)
    → (file_unlink p s).0 ≡ some n
    → (q : Bytes) → lookup q (file_unlink p s).1.files ≡ lookup q s.files
unlink_fails p s n e q = ground arith

write_adds :
    (p d old : Bytes) (s : Disk)
    → lookup p s.files ≡ some old
    → (n : ℕ) × (lookup p (file_write p d s).files ≡ some (old ++ take n d))
write_adds p d old s h = (
  length d,
  rw (h, file_write)
      (lookup-put p p (old ++ d) s
        ∙ rw (bytes_eq_refl p, take_all (length d) d (le_refl (length d)))),
)

write_frame :
    (p d q : Bytes) (s : Disk)
    → bytes_eq q p ≡ false
    → lookup q (file_write p d s).files ≡ lookup q s.files
write_frame p d q s h = elim (Option-cases (lookup p s.files)) [
  | inl e ↦ rw (e, file_write)
  | inr (old, e) ↦ rw (e, file_write) (lookup-put q p (old ++ d) s ∙ rw h)
]

fresh_equal : (t f : Bytes) (s : Disk) → done (fresh t s) ≡ done f → fresh t s ≡ f
fresh_equal t f s e = cc

mkstemp_creates :
    (t f : Bytes) (s : Disk)
    → done (fresh t s) ≡ done f
    → (q : Bytes)
    → lookup q (put (fresh t s) [] s).files ≡ (if bytes_eq q f then some [] else lookup q s.files)
mkstemp_creates t f s e q = rw (← (fresh_equal t f s e)) (lookup-put q (fresh t s) [] s)

pub memory-IsLawful : IsLawful memory
memory-IsLawful = record {
  exists_of_contents = λ p c s h. rw (h, has_file);
  rename_moves = rename_moves;
  rename_fails = rename_fails;
  unlink_removes = unlink_removes;
  unlink_fails = unlink_fails;
  rmdir_keeps = λ p q s. refl;
  mkdir_keeps = λ p q s. refl;
  mkdtemp_keeps = λ t q s. refl;
  mkdtemp_new = λ t d r s e. rw (← (fresh_equal t d s e)) (lookup-fresh t (b'/' ∷ r) s);
  mkstemp_new = λ t f s e. rw (← (fresh_equal t f s e)) (rw append-nil at (lookup-fresh t [] s));
  mkstemp_creates = mkstemp_creates;
  mkstemp_fails = λ t s n e. cc;
  write_adds = write_adds;
  write_frame = write_frame;
  save_frame = λ p d q s h. lookup-put q p d s ∙ rw h;
  save_writes = λ p d s e. lookup-put p p d s ∙ rw (bytes_eq_refl p);
  clock_keeps = λ q s. refl;
  clock_grows = λ s. omega arith;
}

last_of-zeros : (n : ℕ) → last_of b'0' (zeros n []) ≡ b'0'
unfolding zeros
last_of-zeros zero = refl
last_of-zeros (suc n) = last_of-zeros n

-- A path that ends in neither is apart from every name that the two calls make.
pub fresh_apart : (p t : Bytes) (s : Disk) → last_of 0 p ≢ b'0' → bytes_eq p (fresh t s) ≡ false
unfolding fresh zeros
fresh_apart p t s h = bytes_eq-false p _ (λ e. h (
    ap (last_of 0) e
    ∙ last_of-append 0 b'0' t (zeros (total s.files) [])
    ∙ last_of-zeros (total s.files)))

pub staged_apart : (p d : Bytes) → last_of 0 p ≢ b'e' → bytes_eq p (d ++ codes "/file_move") ≡ false
staged_apart p d h =
    bytes_eq-false p _ (λ e. h (ap (last_of 0) e ∙ last_of-append 0 b'/' d (codes "file_move")))
