-- ===== src/Agent/Retrieve/Stays.antt =====
-- That retrieve_file and meta of agent/server/impl/Agent.cpp leave a cache of metadata whose
-- entries were read from their files.
use oort_agent.Base.{
  ℕ, not, Option, Bytes, Exception, is_runtime_error, Outcome, returns, throws, ◌>>=◌, pure, throw,
  Ensures, Ensures->>=, Ensures-if, Ensures-try_catch, ◌∷◌, ◌++◌, if◌then◌else◌,
}
use oort_agent.Posix.{FileSystem}
use oort_agent.Posix.Laws.{IsLawful}
use oort_agent.Utils.Response.{ResponseCode, answer, refusal}
use oort_agent.Files.{FileInfo, check_path}
use oort_agent.Agent.Move.{move_file}
use oort_agent.Agent.Pairs.{Dirs, meta_ext, data_ext, endeaden}
use oort_agent.Agent.World.{TransferMeta, World, on_sys, read_transfer_meta_cached}
use oort_agent.Agent.Query.{meta, what}
use oort_agent.Agent.Query.Bounds.{IsTrue, IsRecorded, reads}
use oort_agent.Agent.Send.{Setting, is_system_error}
use oort_agent.Agent.Retrieve.{RetrieveFileRequest, not_moved, drop_meta, retrieve_file}

module _ (F : FileSystem) (L : IsLawful F) (Options : Type 0) (crc32 : ℕ → Bytes → ℕ)
    (from_json : Bytes → Option (TransferMeta Options)) (dirs : Dirs) where
  abbrev Stays : Exception → World F Options → Type 0
  Stays e w = IsTrue F Options dirs crc32 from_json L w.meta_cache

  abbrev Also : {A : Type 0} → A → World F Options → Type 0
  Also a w = IsTrue F Options dirs crc32 from_json L w.meta_cache

  -- However the part ends.
  abbrev pub Keeps : {A : Type 0} → Outcome (World F Options) A → Type 0
  Keeps o = Ensures o Also Stays

  on_sys-Stays :
      {A : Type 0} (m : F.State → Outcome F.State A) (w : World F Options) (e : Exception)
      → Stays e w
      → Keeps (on_sys F Options m w)
  on_sys-Stays {A} m w x i = go (m w.sys)
    where
      go : (o : Outcome F.State A) → Keeps (on_sys F Options (λ _. o) w)
      go (returns a s) = i
      go (throws e s) = i

  read_then :
      {A : Type 0} (file : Bytes)
      (k : TransferMeta Options → World F Options → Outcome (World F Options) A)
      (w : World F Options) (e : Exception)
      → Stays e w
      → ((tm : TransferMeta Options) (v : World F Options) → Stays e v → Keeps (k tm v))
      → Keeps ((read_transfer_meta_cached F Options dirs from_json file >>= k) w)
  read_then file k w e i h =
      Ensures->>= Stays (read_transfer_meta_cached F Options dirs from_json file w) k
        (λ tm v. IsRecorded F Options dirs crc32 from_json file tm × Stays e v) Also
        (reads F Options dirs crc32 from_json L file w i) (λ tm v j. h tm v j.1)

  pub meta-Stays :
      (uuid : Bytes) (w : World F Options) (e : Exception)
      → Stays e w
      → Keeps (meta F Options dirs crc32 from_json uuid w)
  unfolding meta
  meta-Stays uuid w x i =
      let file = dirs.transfer_dir ++ b'/' ∷ (uuid ++ meta_ext) in
      Ensures-try_catch Stays
        (read_transfer_meta_cached F Options dirs from_json file >>= λ tm. pure (answer tm))
        (λ e. if is_runtime_error e then pure (refusal (what F e)) else throw e) Also Stays w
        (read_then file (λ tm. pure (answer tm)) w x i (λ tm v j. j))
        (λ e v j. Ensures-if Also Stays v (is_runtime_error e) _ _ (λ r. j) (λ r. j))

module _ (F : FileSystem) (L : IsLawful F) (Options : Type 0) (crc32 : ℕ → Bytes → ℕ)
    (from_json : Bytes → Option (TransferMeta Options)) (g : Setting Options) where
  abbrev Ends : {A : Type 0} → Outcome (World F Options) A → Type 0
  Ends = Keeps F L Options crc32 from_json g.dirs

  abbrev After : {A : Type 0} → A → World F Options → Type 0
  After = Also F L Options crc32 from_json g.dirs

  abbrev Left : Exception → World F Options → Type 0
  Left = Stays F L Options crc32 from_json g.dirs

  not_moved-Stays :
      (srcfile : Bytes) (e : Exception) (w : World F Options)
      → Left e w
      → Ends (not_moved F Options crc32 g from_json srcfile e w)
  unfolding not_moved
  not_moved-Stays srcfile e w i =
      Ensures-if After Left w (is_system_error e) _ _ (λ q. i)
        (λ q.
          Ensures-if After Left w (is_runtime_error e) _ _
            (λ r.
              Ensures->>= Left (on_sys F Options (endeaden F g.dirs srcfile) w) _ After After
                (on_sys-Stays F L Options crc32 from_json g.dirs (endeaden F g.dirs srcfile) w e i)
                (λ u v j. j))
            (λ r. i))

  drop_meta-Stays :
      (src_meta : Bytes) (r : ResponseCode FileInfo) (w : World F Options) (e : Exception)
      → Left e w
      → Ends (drop_meta F Options crc32 g from_json src_meta r w)
  unfolding drop_meta
  drop_meta-Stays src_meta (refusal m) w e i = i
  drop_meta-Stays src_meta (answer fi) w e i = i

  pub retrieve_file-Stays :
      (req : RetrieveFileRequest) (w : World F Options) (e : Exception)
      → Left e w
      → Ends (retrieve_file F Options crc32 g from_json req w)
  unfolding retrieve_file
  retrieve_file-Stays req w x i =
      let srcfile = g.dirs.upload_dir ++ b'/' ∷ (req.id ++ data_ext) in
      let src_meta = g.dirs.upload_dir ++ b'/' ∷ (req.id ++ meta_ext) in
      let move =
        λ (fi : FileInfo). on_sys F Options (move_file F crc32 g.limits srcfile req.save_path fi) in
      Ensures-if After Left w (not (check_path req.save_path)) _ _ (λ e. i)
        (λ e.
          Ensures-if After Left w (not (F.readable src_meta w.sys)) _ _ (λ q. i)
            (λ q.
              Ensures->>= Left _ _ After After
                (Ensures-try_catch Left
                  (read_transfer_meta_cached F Options g.dirs from_json src_meta >>= λ tm.
                    move tm.file_info >>= λ u. pure (answer tm.file_info))
                  (not_moved F Options crc32 g from_json srcfile) After Left w
                  (read_then F L Options crc32 from_json g.dirs src_meta _ w x i (λ tm v j.
                    Ensures->>= Left (move tm.file_info v) _ After After
                      (on_sys-Stays F L Options crc32 from_json g.dirs
                        (move_file F crc32 g.limits srcfile req.save_path tm.file_info) v x j)
                      (λ u v' j'. j')))
                  (λ e v j. not_moved-Stays srcfile e v j))
                (λ r v j. drop_meta-Stays src_meta r v x j)))
