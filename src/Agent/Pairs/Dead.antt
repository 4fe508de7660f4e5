-- ===== src/Agent/Pairs/Dead.antt =====
-- What Agent::endeaden (agent/server/impl/Agent.cpp) does on each path.
use oort_agent.Base.{◌≡◌, refl, ◌⊎◌, inl, inr, false, ◌++◌, Bytes, true, Bool-cases, ok, returns}
use oort_agent.Posix.{FileSystem}
use oort_agent.Utils.Paths.{ends_with}
use oort_agent.Utils.Paths.Affix.{ends_with_iff, chop-append}
use oort_agent.Agent.Pairs.{
  Dirs, meta_ext, data_ext, meta_file, data_file, is_inside, dead_path, bury, endeaden,
}

-- The twin of the twin is the file.
pub data_file-append : (root : Bytes) → data_file (root ++ meta_ext) ≡ ok (root ++ data_ext)
unfolding data_file
data_file-append root = rw (chop-append root meta_ext) refl

pub meta_file-append : (root : Bytes) → meta_file (root ++ data_ext) ≡ ok (root ++ meta_ext)
unfolding meta_file
meta_file-append root = rw (chop-append root data_ext) refl

module _ (F : FileSystem) (dirs : Dirs) where
  -- The paths that endeaden leaves alone.
  abbrev pub IsForeign : Bytes → Type 0
  IsForeign f =
      (is_inside F dirs f ≡ false)
      ⊎ ((ends_with f meta_ext ≡ false) × (ends_with f data_ext ≡ false))

  -- The state that two renames leave.
  abbrev pub renamed : Bytes → Bytes → F.State → F.State
  renamed f twin s = (F.rename twin (dead_path F dirs twin) (F.rename f (dead_path F dirs f) s).1).1

  -- What endeaden does with a path.
  abbrev pub Ends : Bytes → F.State → Type 0
  Ends f s =
      (IsForeign f × (endeaden F dirs f s ≡ returns tt s))
      ⊎ (((is_inside F dirs f ≡ true)
            × ((root : Bytes) × (f ≡ root ++ meta_ext)
                × (endeaden F dirs f s ≡ returns tt (renamed f (root ++ data_ext) s))))
          ⊎ ((is_inside F dirs f ≡ true)
              × (ends_with f meta_ext ≡ false)
              × ((root : Bytes) × (f ≡ root ++ data_ext)
                  × (endeaden F dirs f s ≡ returns tt (renamed f (root ++ meta_ext) s)))))

  -- endeaden never throws: a metadata file inside the directories is moved to the dead-letter box
  -- and then its data file, a data file inside them and then its metadata file, and with every
  -- other path nothing happens.
  pub endeaden_lem : (f : Bytes) (s : F.State) → Ends f s
  unfolding endeaden bury
  endeaden_lem f s = elim (Bool-cases (is_inside F dirs f)) [
    | inr outside ↦ inl (inl outside, rw (outside, endeaden) refl)
    | inl inside ↦ elim (Bool-cases (ends_with f meta_ext)) [
      | inl meta ↦
          let (root, e) = (ends_with_iff f meta_ext).0 meta in
          inr (inl (inside, (root, e, rw (inside, meta, endeaden, e, data_file-append root) refl)))
      | inr no_meta ↦ elim (Bool-cases (ends_with f data_ext)) [
        | inl data_ ↦
            let (root, e) = (ends_with_iff f data_ext).0 data_ in
            inr (
              inr (
                inside,
                no_meta,
                (root, e, rw (inside, no_meta, data_, endeaden, e, meta_file-append root) refl),
              ))
        | inr no_data ↦ inl (inr (no_meta, no_data), rw (inside, no_meta, no_data, endeaden) refl)
      ]
    ]
  ]
