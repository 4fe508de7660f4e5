-- ===== src/Agent/Query/Matches.antt =====
-- What one round of the loop of Agent::files_info (agent/server/impl/Agent.cpp) adds to the list.
use oort_agent.Base.{
  ℕ, suc, ◌≤◌, ◌≡◌, refl, inl, inr, true, Bool-cases, Option, List, [], ◌∷◌, ◌++◌, Bytes, bytes_eq,
  length, length-append, Exception, is_runtime_error, Result, ok, raise, Outcome, returns, throws,
  sym, ap, ◌∙◌, Ensures->>=, Ensures, Ensures-bind, Ensures-if, Ensures-try_catch, All, All-append,
  arith, attempt, lift, ◌>>=◌,
}
use oort_agent.Posix.{FileSystem}
use oort_agent.Cache.{Cache}
use oort_agent.Utils.Paths.{chop}
use oort_agent.Files.{FileInfo, file_info}
use oort_agent.Agent.Pairs.{Dirs, meta_ext, data_file, endeaden}
use oort_agent.Agent.World.{TransferMeta, World, on_sys, read_transfer_meta_cached}
use oort_agent.Agent.Query.{Turn, continue, fall, check_file, endeaden_bad, take_file}

module _ (F : FileSystem) (Options : Type 0) (dirs : Dirs) (crc32 : ℕ → Bytes → ℕ)
    (from_json : Bytes → Option (TransferMeta Options)) where
  -- What a return says of an expression that may throw.
  lift_ok :
      {S A : Type 0} (r : Result A) (s : S) (a : A) (s' : S) → lift r s ≡ returns a s' → r ≡ ok a
  lift_ok (ok b) s a s' e = cc
  lift_ok (raise x) s a s' e = absurd cc

  on_sys_ok :
      {A : Type 0} (f : F.State → Result A) (w : World F Options) (a : A) (w' : World F Options)
      → on_sys F Options (attempt f) w ≡ returns a w'
      → f w.sys ≡ ok a
  on_sys_ok {A} f w a w' e = go (f w.sys) e
    where
      go : (r : Result A) → on_sys F Options (attempt (λ _. r)) w ≡ returns a w' → r ≡ ok a
      go (ok b) q = cc
      go (raise x) q = absurd cc

  cache_of : {A : Type 0} → Outcome (World F Options) A → Cache (TransferMeta Options)
  cache_of (returns a w) = w.meta_cache
  cache_of (throws e w) = w.meta_cache

  -- What works on the system alone leaves the cache.
  on_sys_cache :
      {A : Type 0} (m : F.State → Outcome F.State A) (w : World F Options)
      → cache_of (on_sys F Options m w) ≡ w.meta_cache
  unfolding cache_of
  on_sys_cache {A} m w = go (m w.sys)
    where
      go : (o : Outcome F.State A) → cache_of (on_sys F Options (λ _. o) w) ≡ w.meta_cache
      go (returns a s) = refl
      go (throws e s) = refl

  -- `R` is what is known of the metadata that is read for a file, and `I` what that needs of the
  -- cache.
  module _ (R : Bytes → TransferMeta Options → Type 0) (I : Cache (TransferMeta Options) → Type 0)
      (reads : (file : Bytes) (w : World F Options)
        → I w.meta_cache
        → Ensures
            (read_transfer_meta_cached F Options dirs from_json file w)
            (λ tm v. R file tm × I v.meta_cache)
            (λ e v. I v.meta_cache)) where
    -- The file belongs to metadata that was read, with the topic, and its data file had the
    -- recorded checksum.
    abbrev pub IsMatch : Bytes → Bytes → FileInfo → Type 0
    IsMatch dir topic fi =
        (name : Bytes) × (tm : TransferMeta Options) × R (dir ++ b'/' ∷ name) tm
        × (tm.file_info ≡ fi)
        × (bytes_eq tm.topic topic ≡ true)
        × ((data_name : Bytes) × (data_file (dir ++ b'/' ∷ name) ≡ ok data_name)
            × ((s : F.State) × (found : FileInfo) × (file_info F crc32 data_name s ≡ ok found)
                × (bytes_eq fi.crc32 found.crc32 ≡ true)))

    abbrev pub Kept : Exception → World F Options → Type 0
    Kept e w = I w.meta_cache

    module _ (dir topic : Bytes) where
      abbrev pub AfterTurn : List FileInfo → Turn → World F Options → Type 0
      AfterTurn flist continue w = I w.meta_cache
      AfterTurn flist (fall flist') w =
          All (IsMatch dir topic) flist' × (length flist' ≤ suc (length flist)) × I w.meta_cache

      -- A part that works on the system, and what follows.
      sys_step :
          {A B : Type 0} (Q : B → World F Options → Type 0) (m : F.State → Outcome F.State A)
          (k : A → World F Options → Outcome (World F Options) B) (w : World F Options)
          → I w.meta_cache
          → ((a : A) (v : World F Options)
              → on_sys F Options m w ≡ returns a v
              → I v.meta_cache
              → Ensures (k a v) Q Kept)
          → Ensures ((on_sys F Options m >>= k) w) Q Kept
      unfolding cache_of
      sys_step Q m k w i h =
          Ensures-bind Q Kept (on_sys F Options m) k w
            (λ a v e. h a v e (rw (sym (ap cache_of e) ∙ on_sys_cache m w) i))
            (λ e v q. rw (sym (ap cache_of q) ∙ on_sys_cache m w) i)

      lift_step :
          {A B : Type 0} (Q : B → World F Options → Type 0) (r : Result A)
          (k : A → World F Options → Outcome (World F Options) B) (w : World F Options)
          → I w.meta_cache
          → ((a : A) → r ≡ ok a → Ensures (k a w) Q Kept)
          → Ensures ((lift r >>= k) w) Q Kept
      lift_step Q (ok a) k w i h = h a refl
      lift_step Q (raise e) k w i h = i

      check_file-Ensures :
          (name : Bytes) (flist : List FileInfo) (tm : TransferMeta Options) (w : World F Options)
          → All (IsMatch dir topic) flist
          → R (dir ++ b'/' ∷ name) tm
          → I w.meta_cache
          → Ensures
              (check_file F Options dirs crc32 from_json dir topic name flist tm w)
              (AfterTurn flist)
              Kept
      unfolding check_file
      check_file-Ensures name flist tm w h read i = elim (Bool-cases (bytes_eq tm.topic topic)) [
        | inr other ↦ rw (other, check_file) i
        | inl same ↦
            rw (same, check_file)
              (lift_step (AfterTurn flist) (data_file (dir ++ b'/' ∷ name)) _ w i (λ data_name d.
                sys_step (AfterTurn flist) (attempt (file_info F crc32 data_name)) _ w i
                  (λ fi v e i'. elim (Bool-cases (bytes_eq tm.file_info.crc32 fi.crc32)) [
                    | inr wrong ↦ rw wrong (
                        lift_step (AfterTurn flist) (chop name meta_ext) _ v i' (λ root c.
                          sys_step (AfterTurn flist) (endeaden F dirs (dir ++ b'/' ∷ name)) _ v i'
                            (λ u v' e' i''. i'')))
                    | inl right ↦ rw right (
                      All-append (IsMatch dir topic) flist (tm.file_info ∷ []) h (
                        (
                          name,
                          tm,
                          read,
                          refl,
                          same,
                          (
                            data_name,
                            d,
                            (w.sys, fi, on_sys_ok (file_info F crc32 data_name) w fi v e, right),
                          ),
                        ),
                        tt,
                      ),
                      omega (arith, length-append flist (tm.file_info ∷ [])),
                      i',
                    )
                  ])))
      ]

      pub take_file-Ensures :
          (name : Bytes) (flist : List FileInfo) (w : World F Options)
          → All (IsMatch dir topic) flist
          → I w.meta_cache
          → Ensures
              (take_file F Options dirs crc32 from_json dir topic name flist w)
              (AfterTurn flist)
              Kept
      unfolding take_file endeaden_bad
      take_file-Ensures name flist w h i =
          Ensures-try_catch Kept
            (read_transfer_meta_cached F Options dirs from_json (dir ++ b'/' ∷ name)
              >>= check_file F Options dirs crc32 from_json dir topic name flist)
            (endeaden_bad F Options dirs crc32 from_json dir name flist) (AfterTurn flist) Kept w
            (Ensures->>= Kept
              (read_transfer_meta_cached F Options dirs from_json (dir ++ b'/' ∷ name) w) _
              (λ tm v. R (dir ++ b'/' ∷ name) tm × I v.meta_cache) (AfterTurn flist)
              (reads (dir ++ b'/' ∷ name) w i)
              (λ tm v (read, i'). check_file-Ensures name flist tm v h read i'))
            (λ e v i'.
              Ensures-if (AfterTurn flist) Kept v (is_runtime_error e) _ _
                (λ r.
                  sys_step (AfterTurn flist) (endeaden F dirs (dir ++ b'/' ∷ name)) _ v i'
                    (λ u v' e' i''. (h, omega arith, i'')))
                (λ r. i'))
