-- ===== src/Cleaner/Safety.antt =====
-- What the Cleaner (agent/server/impl/Cleaner.cpp) may remove.
use oort_agent.Base.{
  ◌≡◌, refl, ◌∙◌, ◌⊎◌, inl, inr, true, not, Bool-cases, List, [], ◌∷◌, ◌++◌, Bytes, bytes_eq,
  bytes_eq→eq, Exception, Outcome, returns, throws, Ensures, Ensures->>=, Ensures-if, Ensures-map,
  Ensures-attempt, Has, ℤ, Errno, ok, raise, null_dereference, ◌>>=◌,
}
use oort_agent.Posix.{FileSystem, failed, Sys, done}
use oort_agent.Posix.Laws.{IsLawful}
use oort_agent.Utils.Paths.{ends_with}
use oort_agent.Utils.Paths.Affix.{ends_with_iff}
use oort_agent.Files.{keep_old, old_files}
use oort_agent.Agent.Move.Posts.{unlink_other}
use oort_agent.Agent.Pairs.{meta_ext, data_ext}
use oort_agent.Agent.Pairs.Dead.{meta_file-append}
use oort_agent.Cleaner.{remove_meta, remove_orphans, clean_old_files}

-- The agent's own files.
abbrev pub IsPaired : Bytes → Type 0
IsPaired q = (ends_with q meta_ext ≡ true) ⊎ (ends_with q data_ext ≡ true)

-- Files outside a set of paths are as they were.
abbrev pub Spares : (F : FileSystem) → (Bytes → Type 0) → F.State → Unit {0} → F.State → Type 0
Spares F Removable s _ t = (q : Bytes) → (F.contents q t ≡ F.contents q s) ⊎ Removable q

abbrev pub Never : {S : Type 0} → Exception → S → Type 0
Never e s = ⊥

module _ (F : FileSystem) (L : IsLawful F) where
  module _ (R : Bytes → Type 0) where
    pub Spares-trans :
        (s t : F.State) → Spares F R s tt t → (u : F.State) → Spares F R t tt u → Spares F R s tt u
    Spares-trans s t h u k q = elim (k q) [
      | inr r ↦ inr r
      | inl e ↦ elim (h q) [ inr r ↦ inr r | inl d ↦ inl (e ∙ d) ]
    ]

    Spares-unlink : (f : Bytes) (s : F.State) → R f → Spares F R s tt (F.unlink f s).1
    Spares-unlink f s r q = elim (Bool-cases (bytes_eq q f)) [
      | inl same ↦ inr (rw (bytes_eq→eq q f same) r)
      | inr other ↦ inl (unlink_other F L f q s other)
    ]

    -- One step and then another.
    pub Spares-then :
        (s t : F.State) (m : F.State → Outcome F.State (Unit {0}))
        → Spares F R s tt t
        → Ensures (m t) (Spares F R t) Never
        → Ensures (m t) (Spares F R s) Never
    Spares-then s t m h k = go (m t) k
      where
        go :
            (o : Outcome F.State (Unit {0}))
            → Ensures o (Spares F R t) Never
            → Ensures o (Spares F R s) Never
        go (returns a u) k = Spares-trans s t h u k
        go (throws e u) k = k

  -- The paths of a list that are the agent's own.
  abbrev pub OwnIn : List Bytes → Bytes → Type 0
  OwnIn flist q = Has q flist × IsPaired q

  module _ (all : List Bytes) where
    Sub : List Bytes → Type 0
    Sub flist = (q : Bytes) → Has q flist → Has q all

    remove_meta-Ensures :
        (flist : List Bytes) (s : F.State)
        → Sub flist
        → Ensures (remove_meta F flist s) (Spares F (OwnIn all) s) Never
    unfolding remove_meta Sub
    remove_meta-Ensures [] s sub = λ q. inl refl
    remove_meta-Ensures (f ∷ flist) s sub =
        Ensures-if (Spares F (OwnIn all) s) Never s (ends_with f meta_ext) _ _
          (λ e.
            Spares-then (OwnIn all) s _ (remove_meta F flist)
              (Spares-unlink (OwnIn all) f s (sub f (inl refl), inl e))
              (remove_meta-Ensures flist _ (λ q h. sub q (inr h))))
          (λ e. remove_meta-Ensures flist s (λ q h. sub q (inr h)))

    remove_orphans-Ensures :
        (flist : List Bytes) (s : F.State)
        → Sub flist
        → Ensures (remove_orphans F flist s) (Spares F (OwnIn all) s) Never
    unfolding remove_orphans Sub
    remove_orphans-Ensures [] s sub = λ q. inl refl
    remove_orphans-Ensures (f ∷ flist) s sub =
        Ensures-if (Spares F (OwnIn all) s) Never s (ends_with f data_ext) _ _
          (λ e.
            let (root, fe) = (ends_with_iff f data_ext).0 e in
            rw (fe, meta_file-append root)
              (Ensures-if (Spares F (OwnIn all) s) Never s (not (F.readable (root ++ meta_ext) s)) _
                _
                (λ r.
                  Spares-then (OwnIn all) s _ (remove_orphans F flist)
                    (Spares-unlink (OwnIn all) (root ++ data_ext) s
                      (rw (← fe) (sub f (inl refl), inr e)))
                    (remove_orphans-Ensures flist _ (λ q h. sub q (inr h))))
                (λ r. remove_orphans-Ensures flist s (λ q h. sub q (inr h)))))
          (λ e. remove_orphans-Ensures flist s (λ q h. sub q (inr h)))

  -- A round in a directory that cannot be opened: a null pointer is used.
  abbrev pub NotOpened : Bytes → F.State → Exception → F.State → Type 0
  NotOpened dir s e t =
      (e ≡ null_dereference) × (t ≡ s) × ((n : Errno) × (F.readdir dir s ≡ failed n))

  old_files-raised :
      (dir : Bytes) (age : ℤ) (s : F.State) (e : Exception)
      → old_files F dir age s ≡ raise e
      → (e ≡ null_dereference) × ((n : Errno) × (F.readdir dir s ≡ failed n))
  unfolding old_files
  old_files-raised dir age s e h = go (F.readdir dir s) refl h
    where
      go :
          (r : Sys (List Bytes))
          → F.readdir dir s ≡ r
          → elim r [
            | failed n ↦ raise null_dereference
            | done names ↦ ok (keep_old F dir age names s)
          ]
            ≡ raise e
          → (e ≡ null_dereference) × ((n : Errno) × (F.readdir dir s ≡ failed n))
      go (failed n) q x = (cc, (n, q))
      go (done names) q x = absurd cc

  -- A round for the listed files.
  abbrev pub Listed :
      Bytes → ℤ → F.State → (List Bytes → Unit {0} → F.State → Type 0) → Unit {0} → F.State → Type 0
  Listed dir max_age s Q u t =
      (flist : List Bytes) × (old_files F dir max_age s ≡ ok flist) × Q flist u t

  -- The rule for a round: the two passes over the list.
  pub clean_old_files-Ensures :
      (max_age : ℤ) (dir : Bytes) (s : F.State) (Q : List Bytes → Unit {0} → F.State → Type 0)
      → ((flist : List Bytes)
          → Ensures ((remove_meta F flist >>= λ u. remove_orphans F flist) s) (Q flist) Never)
      → Ensures (clean_old_files F max_age dir s) (Listed dir max_age s Q) (NotOpened dir s)
  unfolding clean_old_files
  clean_old_files-Ensures max_age dir s Q h =
      Ensures-attempt (Listed dir max_age s Q) (NotOpened dir s) s (old_files F dir max_age)
        (λ flist. remove_meta F flist >>= λ u. remove_orphans F flist)
        (λ flist q.
          Ensures-map ((remove_meta F flist >>= λ u. remove_orphans F flist) s) (Q flist)
            (Listed dir max_age s Q) Never (NotOpened dir s) (λ u t k. (flist, q, k))
            (λ e t k. absurd k) (h flist))
        (λ e q. let (null, fails) = old_files-raised dir max_age s e q in (null, refl, fails))

  -- On a lawful system a round of cleaning in a directory uses a null pointer, with nothing
  -- changed, if the directory cannot be opened; otherwise it does not throw, and changes only
  -- metadata and data files among those that oldFiles lists for it.
  pub clean_old_files_safe :
      (max_age : ℤ) (dir : Bytes) (s : F.State)
      → Ensures
          (clean_old_files F max_age dir s)
          (Listed dir max_age s (λ flist. Spares F (OwnIn flist) s))
          (NotOpened dir s)
  unfolding Sub
  clean_old_files_safe max_age dir s =
      clean_old_files-Ensures max_age dir s (λ flist. Spares F (OwnIn flist) s)
        λ flist.
          Ensures->>= Never (remove_meta F flist s) _ (Spares F (OwnIn flist) s)
            (Spares F (OwnIn flist) s) (remove_meta-Ensures flist flist s (λ q h. h))
            (λ u t h.
              Spares-then (OwnIn flist) s t (remove_orphans F flist) h
                (remove_orphans-Ensures flist flist t (λ q h. h)))
