-- ===== src/Agent/Retrieve/Integrity.antt =====
-- What Agent::retrieve_file (agent/server/impl/Agent.cpp) hands over.
use oort_agent.Base.{
  ℕ, ◌≡◌, ◌⊎◌, Option, none, some, ◌∷◌, ◌++◌, Bytes, Exception, Outcome, ◌>>=◌, pure,
}
use oort_agent.Posix.{FileSystem}
use oort_agent.Posix.Laws.{IsLawful}
use oort_agent.Utils.Crc.{get_crc}
use oort_agent.Utils.Response.{ResponseCode, answer, refusal}
use oort_agent.Files.{FileInfo}
use oort_agent.Cache
use oort_agent.Cache.{Cache}
use oort_agent.Agent.Move.{move_file}
use oort_agent.Agent.Move.Posts.{LeftBehind, Moved}
use oort_agent.Agent.Pairs.{data_ext}
use oort_agent.Agent.World.{TransferMeta, World, on_sys, read_transfer_meta_cached}
use oort_agent.Agent.Send.{Setting}
use oort_agent.Agent.Retrieve.{RetrieveFileRequest}

module _ (F : FileSystem) (L : IsLawful F) (Options : Type 0) (crc32 : ℕ → Bytes → ℕ)
    (g : Setting Options) (from_json : Bytes → Option (TransferMeta Options))
    (req : RetrieveFileRequest) (c : Bytes) where
  abbrev pub stored : Bytes → Bytes
  stored ext = g.dirs.upload_dir ++ b'/' ∷ (req.id ++ ext)

  abbrev Any : Exception → World F Options → Type 0
  Any e w = Unit

  -- After an answer: the file has left the upload directory, and the destination holds a file with
  -- the recorded checksum, or nothing, and then a temporary file whose rename to it failed has it.
  abbrev pub Received : ResponseCode FileInfo → World F Options → Type 0
  Received (refusal message) w = Unit
  Received (answer fi) w =
      (F.contents (stored data_ext) w.sys ≡ none)
      × (((d : Bytes) × (F.contents req.save_path w.sys ≡ some d)
            × (get_crc crc32 (some d) ≡ fi.crc32))
          ⊎ ((F.contents req.save_path w.sys ≡ none)
              × ((p d : Bytes) × (F.contents p w.sys ≡ some d)
                  × (get_crc crc32 (some d) ≡ fi.crc32)
                  × LeftBehind F req.save_path p d)))

  abbrev Stored : F.State → Type 0
  Stored s = F.contents (stored data_ext) s ≡ some c

  -- What the `try` block gives.
  abbrev Handed : ResponseCode FileInfo → World F Options → Type 0
  Handed (refusal message) w = Unit
  Handed (answer fi) w = Moved F crc32 (stored data_ext) req.save_path fi tt w.sys

  -- The `try` block and its handlers.
  abbrev take_over : Bytes → World F Options → Outcome (World F Options) (ResponseCode FileInfo)
  take_over src_meta = read_transfer_meta_cached F Options g.dirs from_json src_meta >>= λ tm.
      on_sys F Options (move_file F crc32 g.limits (stored data_ext) req.save_path tm.file_info)
      >>= λ u. pure (answer tm.file_info)
