-- ===== src/Agent/World.antt =====
-- The state that the handlers of agent/server/impl/Agent.cpp share: the system and the two caches,
-- and the reading of metadata. The models of the API are generated; what the code sets of
-- TransferMeta is a record here, with the options of a request as a type `Options`, and the parser
-- of its JSON is a parameter.
use oort_agent.Base.{
  ℕ, Option, none, some, List, Bytes, codes, runtime_error, Outcome, returns, throws, ◌>>=◌, throw,
  lift,
}
use oort_agent.Posix.{FileSystem}
use oort_agent.Files.{FileInfo, list_files}
use oort_agent.Cache
use oort_agent.Cache.{Cache}
use oort_agent.Agent.Pairs.{Dirs, meta_ext, endeaden}

pub record TransferMeta (Options : Type 0) : Type 0 where
  pub meta_version : Bytes
  pub topic : Bytes
  pub destination : Bytes
  pub node : Bytes
  pub time : ℕ
  pub file_info : FileInfo
  pub send_options : Options

module _ (F : FileSystem) (Options : Type 0) where
  pub record World : Type 0 where
    pub sys : F.State
    pub metafile_cache : Cache (List Bytes)
    pub meta_cache : Cache (TransferMeta Options)

  -- A step on the system alone.
  abbrev pub on_sys : {A : Type 0} → (F.State → Outcome F.State A) → World → Outcome World A
  on_sys m w = elim (m w.sys) [
    | returns a s ↦ returns a (record w { sys = s })
    | throws e s ↦ throws e (record w { sys = s })
  ]

  abbrev pub on_metafile_cache :
      {A : Type 0}
      → (Cache (List Bytes) → F.State → Outcome (Cache (List Bytes) × F.State) A)
      → World
      → Outcome World A
  on_metafile_cache m w = elim (m w.metafile_cache w.sys) [
    | returns a p ↦ returns a (record w { metafile_cache = p.0; sys = p.1 })
    | throws e p ↦ throws e (record w { metafile_cache = p.0; sys = p.1 })
  ]

  abbrev pub on_meta_cache :
      {A : Type 0}
      → (Cache (TransferMeta Options)
          → F.State
          → Outcome (Cache (TransferMeta Options) × F.State) A)
      → World
      → Outcome World A
  on_meta_cache m w = elim (m w.meta_cache w.sys) [
    | returns a p ↦ returns a (record w { meta_cache = p.0; sys = p.1 })
    | throws e p ↦ throws e (record w { meta_cache = p.0; sys = p.1 })
  ]

module _ (F : FileSystem) (Options : Type 0) (dirs : Dirs)
    (from_json : Bytes → Option (TransferMeta Options)) where
  unfoldable pub read_transfer_meta : Bytes → F.State → Outcome F.State (TransferMeta Options)
  read_transfer_meta file s = elim (F.contents file s) [
    | none ↦ (do _ ← endeaden F dirs file; throw (runtime_error (codes "error reading metadata"))) s
    | some text ↦ elim (from_json text) [
      | some tm ↦ returns tm s
      | none ↦
          (do _ ← endeaden F dirs file; throw (runtime_error (codes "error parsing metadata"))) s
    ]
  ]

  unfoldable pub read_transfer_meta_cached :
      Bytes → World F Options → Outcome (World F Options) (TransferMeta Options)
  unfolding read_transfer_meta
  read_transfer_meta_cached file =
      on_meta_cache F Options (Cache.get F.steady_clock read_transfer_meta file)

  -- `metafile_cache.get(dir, bind(&Files::list_files, placeholders::_1, META_EXT))`
  unfoldable pub meta_files : Bytes → World F Options → Outcome (World F Options) (List Bytes)
  meta_files dir =
      on_metafile_cache F Options
        (Cache.get F.steady_clock (λ d s. lift (list_files F d meta_ext s) s) dir)
