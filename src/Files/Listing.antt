-- ===== src/Files/Listing.antt =====
-- What Files::list_files and Files::oldFiles (agent/server/impl/Files.cpp) list.
use oort_agent.Base.{
  ◌≡◌, ◌↔◌, ◌⊎◌, inl, inr, refl, sym, ap, Bool, true, false, List, [], ◌∷◌, ◌++◌, Bytes, Has,
  Bool-cases, if◌then◌else◌, ℤ,
}
use oort_agent.Posix.{FileSystem, Stat, done, Sys-cases}
use oort_agent.Files.{is_listed, keep_listed, keep_old, is_old, first_is}

-- An element of a list to which another was added under a test.
Has-if :
    {A : Type 0} (a x : A) (b : Bool) (xs : List A)
    → Has a (if b then x ∷ xs else xs)
    → ((x ≡ a) × (b ≡ true)) ⊎ Has a xs
Has-if a x true xs (inl e) = inl (e, refl)
Has-if a x true xs (inr h) = inr h
Has-if a x false xs h = inr h

Has-if_here :
    {A : Type 0} (a x : A) (b : Bool) (xs : List A)
    → x ≡ a
    → b ≡ true
    → Has a (if b then x ∷ xs else xs)
Has-if_here a x b xs e t = rw t (inl e)

Has-if_later :
    {A : Type 0} (a x : A) (b : Bool) (xs : List A) → Has a xs → Has a (if b then x ∷ xs else xs)
Has-if_later a x true xs h = inr h
Has-if_later a x false xs h = h

module _ (F : FileSystem) (ext f : Bytes) where
  keep_listed_sound :
      (names : List Bytes)
      → Has f (keep_listed F ext names)
      → Has f names × (is_listed F ext f ≡ true)
  unfolding keep_listed
  keep_listed_sound [] h = elim h [ ]
  keep_listed_sound (x ∷ names) h = elim (Has-if f x (is_listed F ext x) _ h) [
    | inl (e, t) ↦ (inl e, rw (← e) t)
    | inr later ↦ (inr (keep_listed_sound names later).0, (keep_listed_sound names later).1)
  ]

  keep_listed_complete :
      (names : List Bytes)
      → Has f names
      → is_listed F ext f ≡ true
      → Has f (keep_listed F ext names)
  unfolding keep_listed
  keep_listed_complete [] h e = elim h [ ]
  keep_listed_complete (x ∷ names) (inl p) e = Has-if_here f x (is_listed F ext x) _ p (rw p e)
  keep_listed_complete (x ∷ names) (inr p) e = Has-if_later f x _ _ (keep_listed_complete names p e)

  -- The loop of list_files keeps exactly the names of the directory that are no dotfile and have
  -- the extension, if one is asked for.
  pub keep_listed_iff :
      (names : List Bytes)
      → Has f (keep_listed F ext names) ↔ (Has f names × (is_listed F ext f ≡ true))
  keep_listed_iff names = (keep_listed_sound names, λ h. keep_listed_complete names h.0 h.1)

-- What it takes for the entry `name` of a directory to be listed as an old file.
abbrev pub IsOldEntry : (F : FileSystem) → Bytes → ℤ → Bytes → F.State → Type 0
IsOldEntry F dir age name s =
    (first_is b'.' name ≡ false)
    × ((buf : Stat) × (F.stat (dir ++ b'/' ∷ name) s ≡ done buf)
        × (is_old (F.time s) age buf.mtime ≡ true))

module _ (F : FileSystem) (dir : Bytes) (age : ℤ) (s : F.State) where
  -- A path of an old entry of the directory.
  abbrev pub FromOld : List Bytes → Bytes → Type 0
  FromOld names p =
      (name : Bytes) × Has name names × (p ≡ dir ++ b'/' ∷ name) × IsOldEntry F dir age name s

  FromOld-later :
      (x : Bytes) (names : List Bytes) (p : Bytes) → FromOld names p → FromOld (x ∷ names) p
  FromOld-later x names p (name, h, e, o) = (name, inr h, e, o)

  keep_old_sound :
      (p : Bytes) (names : List Bytes) → Has p (keep_old F dir age names s) → FromOld names p
  unfolding keep_old
  keep_old_sound p [] h = elim h [ ]
  keep_old_sound p (x ∷ names) h = elim (Bool-cases (first_is b'.' x)) [
    | inl dot ↦ FromOld-later x names p (keep_old_sound p names (rw (dot, keep_old) at h))
    | inr plain ↦ elim (Sys-cases (F.stat (dir ++ b'/' ∷ x) s)) [
      | inr (n, e) ↦ FromOld-later x names p (keep_old_sound p names (rw (plain, e, keep_old) at h))
      | inl (buf, e) ↦
          elim (Has-if p (dir ++ b'/' ∷ x) (is_old (F.time s) age buf.mtime)
            (keep_old F dir age names s) (rw (plain, e, keep_old) at h)) [
              | inl (same, old) ↦ (x, inl refl, sym same, (plain, (buf, e, old)))
              | inr later ↦ FromOld-later x names p (keep_old_sound p names later)
            ]
    ]
  ]

  keep_old_complete :
      (name : Bytes) (names : List Bytes)
      → Has name names
      → IsOldEntry F dir age name s
      → Has (dir ++ b'/' ∷ name) (keep_old F dir age names s)
  unfolding keep_old
  keep_old_complete name [] h o = elim h [ ]
  keep_old_complete name (x ∷ names) (inl e) (plain, (buf, found, old)) =
      rw (e, plain, found, keep_old) (rw old (inl (ap (λ n. dir ++ b'/' ∷ n) e)))
  keep_old_complete name (x ∷ names) (inr h) o = elim (Bool-cases (first_is b'.' x)) [
    | inl dot ↦ rw (dot, keep_old) (keep_old_complete name names h o)
    | inr plain ↦ elim (Sys-cases (F.stat (dir ++ b'/' ∷ x) s)) [
      | inr (n, e) ↦ rw (plain, e, keep_old) (keep_old_complete name names h o)
      | inl (buf, e) ↦
          rw (plain, e, keep_old)
            (Has-if_later _ _ (is_old (F.time s) age buf.mtime) _
              (keep_old_complete name names h o))
    ]
  ]

  -- The loop of oldFiles lists exactly the paths of those entries of the directory that are no
  -- dotfile, can be statted, and were modified before the limit.
  pub keep_old_iff :
      (p : Bytes) (names : List Bytes) → Has p (keep_old F dir age names s) ↔ FromOld names p
  keep_old_iff p names = (keep_old_sound p names, complete)
    where
      complete : FromOld names p → Has p (keep_old F dir age names s)
      complete (name, h, e, o) = rw e (keep_old_complete name names h o)
