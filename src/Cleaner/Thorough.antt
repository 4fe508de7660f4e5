-- ===== src/Cleaner/Thorough.antt =====
-- What a round of the Cleaner (agent/server/impl/Cleaner.cpp) has removed when it is over.
use oort_agent.Base.{
  ◌≡◌, refl, sym, ap, ok, ◌∙◌, ◌⊎◌, inl, inr, Bool, true, false, not, Bool-cases, none, List, [],
  ◌∷◌, ◌++◌, Bytes, bytes_eq, bytes_eq→eq, Outcome, Ensures, Ensures-map, Ensures->>=, Ensures-if,
  Has, ℤ, if◌then◌else◌, call, ◌>>=◌,
}
use oort_agent.Posix.{FileSystem}
use oort_agent.Posix.Laws.{IsLawful}
use oort_agent.Utils.Paths.{ends_with}
use oort_agent.Utils.Paths.Affix.{ends_with_iff, ends_with-append}
use oort_agent.Agent.Move.Posts.{unlink_other}
use oort_agent.Agent.Pairs.{meta_ext, data_ext, meta_file}
use oort_agent.Agent.Pairs.Dead.{meta_file-append}
use oort_agent.Cleaner.{remove_meta, remove_orphans, clean_old_files}
use oort_agent.Cleaner.Safety.{Never, Listed, NotOpened, clean_old_files-Ensures}

-- The agent may remove files: a removed file cannot be opened, and access with R_OK fails for it.
pub record MayRemove (F : FileSystem) : Type 0 where
  pub unlinks : (p : Bytes) (s : F.State) → F.contents p (F.unlink p s).1 ≡ none
  pub unreadable : (p : Bytes) (s : F.State) → F.contents p s ≡ none → F.readable p s ≡ false

module _ (F : FileSystem) (L : IsLawful F) (may : MayRemove F) where
  abbrev pub Gone : Bytes → F.State → Type 0
  Gone q s = F.contents q s ≡ none

  -- Nothing comes back.
  abbrev Shrinks : F.State → F.State → Type 0
  Shrinks s t = (q : Bytes) → Gone q s → Gone q t

  unlink-Shrinks : (f : Bytes) (s : F.State) → Shrinks s (F.unlink f s).1
  unlink-Shrinks f s q gone = elim (Bool-cases (bytes_eq q f)) [
    | inl same ↦ rw (bytes_eq→eq q f same) (may.unlinks f s)
    | inr other ↦ unlink_other F L f q s other ∙ gone
  ]

  -- What a pass has done: nothing came back, and each path of a kind is gone.
  abbrev Passed : (Bytes → Type 0) → F.State → Unit {0} → F.State → Type 0
  Passed P s u t = Shrinks s t × ((q : Bytes) → P q → Gone q t)

  -- A pass behind the removal of a path.
  Passed-unlink :
      (P R : Bytes → Type 0) (f : Bytes) (s : F.State) (m : F.State → Outcome F.State (Unit {0}))
      → ((q : Bytes) → R q → (q ≡ f) ⊎ P q)
      → Ensures (m (F.unlink f s).1) (Passed P (F.unlink f s).1) Never
      → Ensures (m (F.unlink f s).1) (Passed R s) Never
  Passed-unlink P R f s m split h =
      Ensures-map (m (F.unlink f s).1) (Passed P (F.unlink f s).1) (Passed R s) Never Never
        (λ u t (shrinks, gone). (
          (λ q g. shrinks q (unlink-Shrinks f s q g)),
          (λ q r. removed t shrinks gone q (split q r)),
        ))
        (λ e t n. n) h
    where
      removed :
          (t : F.State)
          → Shrinks (F.unlink f s).1 t
          → ((q : Bytes) → P q → Gone q t)
          → (q : Bytes) → (q ≡ f) ⊎ P q
          → Gone q t
      removed t shrinks gone q (inl same) = shrinks q (rw same (may.unlinks f s))
      removed t shrinks gone q (inr p) = gone q p

  -- A pass that leaves a path alone.
  Passed-skip :
      (P R : Bytes → Type 0) (s : F.State) (o : Outcome F.State (Unit {0}))
      → ((q : Bytes) → R q → Gone q s ⊎ P q)
      → Ensures o (Passed P s) Never
      → Ensures o (Passed R s) Never
  Passed-skip P R s o split h =
      Ensures-map o (Passed P s) (Passed R s) Never Never
        (λ u t (shrinks, gone). (shrinks, (λ q r. left t shrinks gone q (split q r)))) (λ e t n. n)
        h
    where
      left :
          (t : F.State)
          → Shrinks s t
          → ((q : Bytes) → P q → Gone q t)
          → (q : Bytes) → Gone q s ⊎ P q
          → Gone q t
      left t shrinks gone q (inl g) = shrinks q g
      left t shrinks gone q (inr p) = gone q p

  abbrev IsOldMeta : List Bytes → Bytes → Type 0
  IsOldMeta flist q = Has q flist × (ends_with q meta_ext ≡ true)

  remove_meta-Passed :
      (flist : List Bytes) (s : F.State)
      → Ensures (remove_meta F flist s) (Passed (IsOldMeta flist) s) Never
  unfolding remove_meta
  remove_meta-Passed [] s = ((λ q g. g), (λ q h. absurd h.0))
  remove_meta-Passed (f ∷ flist) s =
      Ensures-if (Passed (IsOldMeta (f ∷ flist)) s) Never s (ends_with f meta_ext) _ _
        (λ e.
          Passed-unlink (IsOldMeta flist) (IsOldMeta (f ∷ flist)) f s (remove_meta F flist)
            (λ q h. first q h) (remove_meta-Passed flist _))
        (λ e.
          Passed-skip (IsOldMeta flist) (IsOldMeta (f ∷ flist)) s (remove_meta F flist s)
            (λ q h. other e q h) (remove_meta-Passed flist s))
    where
      first : (q : Bytes) → IsOldMeta (f ∷ flist) q → (q ≡ f) ⊎ IsOldMeta flist q
      first q (inl same, e) = inl (sym same)
      first q (inr later, e) = inr (later, e)

      other :
          ends_with f meta_ext ≡ false
          → (q : Bytes) → IsOldMeta (f ∷ flist) q
          → Gone q s ⊎ IsOldMeta flist q
      other no_meta q (inl same, e) = absurd (clash (ends_with f meta_ext) (rw same e) no_meta)
        where
          clash : (b : Bool) → b ≡ true → b ≡ false → ⊥
          clash b t n = cc
      other no_meta q (inr later, e) = inr (later, e)

  -- A data file of the list whose metadata file is gone.
  abbrev IsOrphan : List Bytes → F.State → Bytes → Type 0
  IsOrphan flist s q =
      (root : Bytes) × (q ≡ root ++ data_ext) × Has q flist × Gone (root ++ meta_ext) s

  same_twin : (a b : Bytes) → a ++ data_ext ≡ b ++ data_ext → a ++ meta_ext ≡ b ++ meta_ext
  same_twin a b e = ok_injective (sym (meta_file-append a) ∙ ap meta_file e ∙ meta_file-append b)
    where
      ok_injective : {x y : Bytes} → ok x ≡ ok y → x ≡ y
      ok_injective p = cc

  clash : (b : Bool) → b ≡ true → b ≡ false → ⊥
  clash b t n = cc

  -- At a data file.
  at_data-Passed :
      (root : Bytes) (flist : List Bytes) (s : F.State)
      → ((t : F.State) → Ensures (remove_orphans F flist t) (Passed (IsOrphan flist t) t) Never)
      → Ensures
          ((if not (F.readable (root ++ meta_ext) s)
              then (do _ ← call (F.unlink (root ++ data_ext)); remove_orphans F flist)
              else remove_orphans F flist)
            s)
          (Passed (IsOrphan ((root ++ data_ext) ∷ flist) s) s)
          Never
  at_data-Passed root flist s later_ones =
      let f = root ++ data_ext in
      Ensures-if (Passed (IsOrphan (f ∷ flist) s) s) Never s (not (F.readable (root ++ meta_ext) s))
        _ _
        (λ r.
          Passed-unlink (IsOrphan flist (F.unlink f s).1) (IsOrphan (f ∷ flist) s) f s
            (remove_orphans F flist) (λ q h. taken q h) (later_ones (F.unlink f s).1))
        (λ r.
          Passed-skip (IsOrphan flist s) (IsOrphan (f ∷ flist) s) s (remove_orphans F flist s)
            (λ q h. kept (F.readable (root ++ meta_ext) s) refl r q h) (later_ones s))
    where
      taken :
          (q : Bytes)
          → IsOrphan ((root ++ data_ext) ∷ flist) s q
          → (q ≡ root ++ data_ext) ⊎ IsOrphan flist (F.unlink (root ++ data_ext) s).1 q
      taken q (other, e, inl same, g) = inl (sym same)
      taken q (other, e, inr later, g) =
          inr (other, e, later, unlink-Shrinks (root ++ data_ext) s (other ++ meta_ext) g)

      kept :
          (b : Bool)
          → F.readable (root ++ meta_ext) s ≡ b
          → not b ≡ false
          → (q : Bytes) → IsOrphan ((root ++ data_ext) ∷ flist) s q
          → Gone q s ⊎ IsOrphan flist s q
      kept false readable r q h = absurd cc
      kept true readable r q (other, e, inl same, g) = absurd (
          clash (F.readable (root ++ meta_ext) s) readable
            (may.unreadable (root ++ meta_ext) s (rw (same_twin root other (same ∙ e)) g)))
      kept true readable r q (other, e, inr later, g) = inr (other, e, later, g)

  remove_orphans-Passed :
      (flist : List Bytes) (s : F.State)
      → Ensures (remove_orphans F flist s) (Passed (IsOrphan flist s) s) Never
  unfolding remove_orphans
  remove_orphans-Passed [] s = ((λ q g. g), (λ q (root, e, h, g). absurd h))
  remove_orphans-Passed (f ∷ flist) s =
      Ensures-if (Passed (IsOrphan (f ∷ flist) s) s) Never s (ends_with f data_ext) _ _
        (λ e.
          let (root, fe) = (ends_with_iff f data_ext).0 e in
          rw (fe, meta_file-append root)
            (at_data-Passed root flist s (λ t. remove_orphans-Passed flist t)))
        (λ e.
          Passed-skip (IsOrphan flist s) (IsOrphan (f ∷ flist) s) s (remove_orphans F flist s)
            (λ q h. skipped e q h) (remove_orphans-Passed flist s))
    where
      skipped :
          ends_with f data_ext ≡ false
          → (q : Bytes) → IsOrphan (f ∷ flist) s q
          → Gone q s ⊎ IsOrphan flist s q
      skipped no_data q (root, e, inl same, g) =
          absurd
            (clash (ends_with f data_ext) (rw (same ∙ e) (ends_with-append root data_ext)) no_data)
      skipped no_data q (root, e, inr later, g) = inr (root, e, later, g)

  -- What is gone after a round for the old files `flist`.
  abbrev pub IsCleaned : List Bytes → F.State → Unit {0} → F.State → Type 0
  IsCleaned flist s u t =
      ((q : Bytes) → Has q flist → ends_with q meta_ext ≡ true → Gone q t)
      × ((root : Bytes)
          → Has (root ++ data_ext) flist
          → Gone (root ++ meta_ext) s ⊎ Has (root ++ meta_ext) flist
          → Gone (root ++ data_ext) t)

  -- On a lawful system where the agent may remove its files: after a round of cleaning in a
  -- directory each metadata file is gone that oldFiles lists for it, and each listed data file
  -- whose metadata file was missing before or is listed too. In a directory that cannot be opened
  -- the round uses a null pointer, with nothing changed, and it throws nothing else.
  pub clean_old_files-IsCleaned :
      (max_age : ℤ) (dir : Bytes) (s : F.State)
      → Ensures
          (clean_old_files F max_age dir s)
          (Listed F L dir max_age s (λ flist. IsCleaned flist s))
          (NotOpened F L dir s)
  clean_old_files-IsCleaned max_age dir s =
      clean_old_files-Ensures F L max_age dir s (λ flist. IsCleaned flist s)
        λ flist.
          Ensures->>= Never (remove_meta F flist s) _ (Passed (IsOldMeta flist) s)
            (IsCleaned flist s) (remove_meta-Passed flist s)
            λ u t (shrinks, gone).
              Ensures-map (remove_orphans F flist t) (Passed (IsOrphan flist t) t)
                (IsCleaned flist s) Never Never
                (λ v w (later, orphans). (
                  (λ q h e. later q (gone q (h, e))),
                  (λ root h twin.
                      orphans (root ++ data_ext)
                        (root, refl, h, without flist root twin shrinks gone)),
                ))
                (λ e w n. n) (remove_orphans-Passed flist t)
    where
      without :
          {t : F.State} (flist : List Bytes) (root : Bytes)
          → Gone (root ++ meta_ext) s ⊎ Has (root ++ meta_ext) flist
          → Shrinks s t
          → ((q : Bytes) → IsOldMeta flist q → Gone q t)
          → Gone (root ++ meta_ext) t
      without flist root (inl g) shrinks gone = shrinks (root ++ meta_ext) g
      without flist root (inr h) shrinks gone =
          gone (root ++ meta_ext) (h, ends_with-append root meta_ext)
