-- ===== src/Agent/Query/Bounds.antt =====
-- What Agent::files_info and query_available (agent/server/impl/Agent.cpp) list.
use oort_agent.Base.{
  ℕ, suc, ◌-◌, ◌^◌, ◌≤◌, ◌<◌, ◌≡◌, inl, inr, true, Bool-cases, Option, List, [], ◌∷◌, Bytes, length,
  Exception, Outcome, returns, throws, lift, Ensures, Ensures->>=, Ensures-returns, Ensures-throws,
  Outcome-cases, All, arith, pos,
}
use oort_agent.Posix.{FileSystem}
use oort_agent.Utils.Response.{ResponseCode, answer, refusal}
use oort_agent.Files.{FileInfo}
use oort_agent.Agent.Pairs.{Dirs}
use oort_agent.Posix.Laws.{IsLawful}
use oort_agent.Files.{list_files}
use oort_agent.Cache
use oort_agent.Cache.{Cache}
use oort_agent.Cache.Fresh.{IsFilled, Fresh, Failed, get-Fresh}
use oort_agent.Agent.Pairs.{meta_ext}
use oort_agent.Agent.World.{
  TransferMeta, World, meta_files, on_metafile_cache, on_meta_cache, read_transfer_meta,
  read_transfer_meta_cached,
}
use oort_agent.Agent.Query.{
  is_too_long, AvailableFiles, pop_back, Turn, continue, fall, take_file, files_loop, files_info,
  query_available,
}
use oort_agent.Agent.Query.Matches.{IsMatch, AfterTurn, take_file-Ensures}

module _ (F : FileSystem) (Options : Type 0) (dirs : Dirs) (crc32 : ℕ → Bytes → ℕ)
    (from_json : Bytes → Option (TransferMeta Options)) where
  module _ (R : Bytes → TransferMeta Options → Type 0) (I : Cache (TransferMeta Options) → Type 0)
      (reads : (file : Bytes) (w : World F Options)
        → I w.meta_cache
        → Ensures
            (read_transfer_meta_cached F Options dirs from_json file w)
            (λ tm v. R file tm × I v.meta_cache)
            (λ e v. I v.meta_cache)) where
    abbrev Match : Bytes → Bytes → FileInfo → Type 0
    Match = IsMatch F Options dirs crc32 from_json R I reads

    abbrev Same : Exception → World F Options → Type 0
    Same e w = I w.meta_cache

    module _ (dir topic : Bytes) where
      abbrev After : List FileInfo → Turn → World F Options → Type 0
      After = AfterTurn F Options dirs crc32 from_json R I reads dir topic

      module _ (n : ℕ) (small : n < 2 ^ 64) where
        -- At most one element above the limit.
        abbrev pub IsSelection : List FileInfo → World F Options → Type 0
        IsSelection flist w = All (Match dir topic) flist × (length flist ≤ suc n) × I w.meta_cache

        files_loop-Ensures :
            (names : List Bytes) (flist : List FileInfo) (w : World F Options)
            → All (Match dir topic) flist
            → length flist ≤ n
            → I w.meta_cache
            → Ensures
                (files_loop F Options dirs crc32 from_json (pos n) dir topic names flist w)
                IsSelection
                Same
        unfolding files_loop
        files_loop-Ensures [] flist w h short i = (h, omega arith, i)
        files_loop-Ensures (name ∷ names) flist w h short i =
            let turned =
              take_file-Ensures F Options dirs crc32 from_json R I reads dir topic name flist w h
                i in
            elim (Outcome-cases (take_file F Options dirs crc32 from_json dir topic name flist w)) [
              | inr (e, w', q) ↦
                  rw (q, files_loop) (Ensures-throws (After flist) Same e w' turned q)
              | inl (turn, w', q) ↦
                  after (λ l v m s j. files_loop-Ensures names l v m s j) turn w' q
                    (Ensures-returns (After flist) Same turn w' turned q)
            ]
          where
            after :
                ((l : List FileInfo) (v : World F Options)
                  → All (Match dir topic) l
                  → length l ≤ n
                  → I v.meta_cache
                  → Ensures
                      (files_loop F Options dirs crc32 from_json (pos n) dir topic names l v)
                      IsSelection
                      Same)
                → (turn : Turn) (w' : World F Options)
                → take_file F Options dirs crc32 from_json dir topic name flist w ≡ returns turn w'
                → After flist turn w'
                → Ensures
                    (files_loop F Options dirs crc32 from_json
                      (pos n)
                      dir
                      topic
                      (name ∷ names)
                      flist
                      w)
                    IsSelection
                    Same
            after ih continue w' q j = rw (q, files_loop) (ih flist w' h short j)
            after ih (fall flist') w' q (m, l, j) = elim (Bool-cases (is_too_long (pos n) flist')) [
              | inl long ↦ rw (q, files_loop, long) (m, omega arith, j)
              | inr fits ↦ rw (q, files_loop, fits) (ih flist' w' m (ground (arith, fits)) j)
            ]

        -- Listing the metadata files leaves the cache of their contents.
        meta_files-Same :
            (w : World F Options)
            → I w.meta_cache
            → Ensures (meta_files F Options dirs from_json dir w) (λ names v. I v.meta_cache) Same
        unfolding meta_files
        meta_files-Same w i = go (
            Cache.get F.steady_clock (λ d s. lift (list_files F d meta_ext s) s) dir
              w.metafile_cache w.sys)
          where
            go :
                (o : Outcome (Cache (List Bytes) × F.State) (List Bytes))
                → Ensures
                    (on_metafile_cache F Options (λ c s. o) w)
                    (λ names v. I v.meta_cache)
                    Same
            go (returns a p) = i
            go (throws e p) = i

        files_info-Ensures :
            (w : World F Options)
            → I w.meta_cache
            → Ensures
                (files_info F Options dirs crc32 from_json (pos n) dir topic w)
                IsSelection
                Same
        unfolding files_info
        files_info-Ensures w i =
            Ensures->>= Same (meta_files F Options dirs from_json dir w) _
              (λ names v. I v.meta_cache) IsSelection (meta_files-Same w i)
              (λ names w' j. files_loop-Ensures names [] w' tt (omega arith) j)

      pop_back_shorter : (xs : List FileInfo) → length (pop_back xs) ≡ length xs - 1
      unfolding pop_back
      pop_back_shorter [] = omega arith
      pop_back_shorter (x ∷ []) = omega arith
      pop_back_shorter (x ∷ (y ∷ xs)) = omega (arith, pop_back_shorter (y ∷ xs))

      pop_back-All :
          (xs : List FileInfo) → All (Match dir topic) xs → All (Match dir topic) (pop_back xs)
      unfolding pop_back
      pop_back-All [] h = tt
      pop_back-All (x ∷ []) h = tt
      pop_back-All (x ∷ (y ∷ xs)) h = (h.0, pop_back-All (y ∷ xs) h.1)

    -- What query_available may answer.
    abbrev pub Selects : Bytes → ℕ → ResponseCode AvailableFiles → World F Options → Type 0
    Selects topic n (refusal message) w = ⊥
    Selects topic n (answer found) w =
        All (Match dirs.upload_dir topic) found.files
        × (length found.files ≤ n)
        × (found.overflow ≡ true → length found.files ≡ n)
        × I w.meta_cache

    pub query_available-Ensures :
        (topic : Bytes) (n : ℕ) (w : World F Options)
        → n < 2 ^ 64
        → I w.meta_cache
        → Ensures
            (query_available F Options dirs crc32 from_json (pos n) topic w)
            (Selects topic n)
            Same
    unfolding query_available
    query_available-Ensures topic n w small i =
        let dir = dirs.upload_dir in
        Ensures->>= Same (files_info F Options dirs crc32 from_json (pos n) dir topic w) _
          (IsSelection dir topic n small) (Selects topic n)
          (files_info-Ensures dir topic n small w i)
          (λ files w' h. elim (Bool-cases (is_too_long (pos n) files)) [
            | inl long ↦ rw long (
              pop_back-All dir topic files h.0,
              omega (arith, pop_back_shorter dir topic files, h.1),
              (λ e. ground (arith, long, pop_back_shorter dir topic files, h.1)),
              h.2,
            )
            | inr fits ↦ rw fits (h.0, ground (arith, fits), (λ e. absurd cc), h.2)
          ])

  -- The metadata was parsed from what the file held.
  abbrev pub IsRecorded : Bytes → TransferMeta Options → Type 0
  IsRecorded file tm =
      (s : F.State) × (s' : F.State) × (read_transfer_meta F Options dirs from_json file s
        ≡ returns tm s')

  module _ (L : IsLawful F) where
    -- Each entry of the cache was read from its file.
    abbrev pub IsTrue : Cache (TransferMeta Options) → Type 0
    IsTrue = IsFilled F.steady_clock L.clock_grows (read_transfer_meta F Options dirs from_json)

    pub reads :
        (file : Bytes) (w : World F Options)
        → IsTrue w.meta_cache
        → Ensures
            (read_transfer_meta_cached F Options dirs from_json file w)
            (λ tm v. IsRecorded file tm × IsTrue v.meta_cache)
            (λ e v. IsTrue v.meta_cache)
    unfolding read_transfer_meta_cached
    reads file w i = go _ (
        get-Fresh F.steady_clock L.clock_grows (read_transfer_meta F Options dirs from_json) file
          w.meta_cache w.sys i)
      where
        ttl : ℕ
        ttl = w.meta_cache.ttl_ms

        now : ℕ
        now = (F.steady_clock w.sys).0

        go :
            (o : Outcome (Cache (TransferMeta Options) × F.State) (TransferMeta Options))
            → Ensures o
                (Fresh F.steady_clock L.clock_grows
                  (read_transfer_meta F Options dirs from_json)
                  ttl
                  now
                  file)
                (Failed F.steady_clock L.clock_grows
                  (read_transfer_meta F Options dirs from_json)
                  ttl
                  now
                  file)
            → Ensures
                (on_meta_cache F Options (λ c s. o) w)
                (λ tm v. IsRecorded file tm × IsTrue v.meta_cache)
                (λ e v. IsTrue v.meta_cache)
        go (returns a p) ((s, s', made, late), filled) = ((s, s', made), filled)
        go (throws e p) (thrown, filled) = filled

    -- What query_available may answer, and how it leaves the cache.
    abbrev pub IsAvailable : Bytes → ℕ → ResponseCode AvailableFiles → World F Options → Type 0
    IsAvailable = Selects IsRecorded IsTrue reads

    -- For a limit of n files (below 2^64) and a cache whose entries were read from their files,
    -- query_available answers with at most n, with exactly n if it says that there are more, and
    -- each is recorded, with the topic, in metadata that was parsed from what a file of the upload
    -- directory held, and the data file of that had the recorded checksum when it was read. The
    -- cache stays like that, also if an exception leaves.
    pub query_available_bounded :
        (topic : Bytes) (n : ℕ) (w : World F Options)
        → n < 2 ^ 64
        → IsTrue w.meta_cache
        → Ensures
            (query_available F Options dirs crc32 from_json (pos n) topic w)
            (IsAvailable topic n)
            (λ e v. IsTrue v.meta_cache)
    query_available_bounded = query_available-Ensures IsRecorded IsTrue reads
