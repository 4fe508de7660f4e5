-- ===== src/Agent/Retrieve.antt =====
-- Agent::retrieve_file of agent/server/impl/Agent.cpp.
pub mod Integrity
pub mod Stays
use oort_agent.Base.{
  ℕ, not, Option, ◌∷◌, ◌++◌, Bytes, codes, if◌then◌else◌, Exception, is_runtime_error, ◌>>=◌, pure,
  throw, call, reads, try_catch,
}
use oort_agent.Posix.{FileSystem}
use oort_agent.Utils.Response.{ResponseCode, answer, refusal}
use oort_agent.Files.{FileInfo, check_path}
use oort_agent.Agent.Move.{move_file}
use oort_agent.Agent.Pairs.{meta_ext, data_ext, endeaden}
use oort_agent.Agent.World.{TransferMeta, on_sys, read_transfer_meta_cached}
use oort_agent.Agent.Query.{Step, what}
use oort_agent.Agent.Send.{Setting, os_error, is_system_error}

pub record RetrieveFileRequest : Type 0 where
  pub id : Bytes
  pub save_path : Bytes

module _ (F : FileSystem) (Options : Type 0) (crc32 : ℕ → Bytes → ℕ) (g : Setting Options)
    (from_json : Bytes → Option (TransferMeta Options)) where
  abbrev pub Handler : Type 0 → Type 0
  Handler = Step F Options g.dirs crc32 from_json

  -- The `catch` blocks: an error of the system says nothing of the file.
  unfoldable pub not_moved : Bytes → Exception → Handler (ResponseCode FileInfo)
  not_moved srcfile e =
      if is_system_error e
      then pure (refusal (what F e))
      else if is_runtime_error e
      then (do _ ← on_sys F Options (endeaden F g.dirs srcfile); pure (refusal (what F e)))
      else throw e

  -- Behind the `try` block.
  unfoldable pub drop_meta : Bytes → ResponseCode FileInfo → Handler (ResponseCode FileInfo)
  drop_meta src_meta (refusal message) = pure (refusal message)
  drop_meta src_meta (answer fi) = do
    _ ← on_sys F Options (call (F.unlink src_meta))
    pure (answer fi)

  unfoldable pub retrieve_file : RetrieveFileRequest → Handler (ResponseCode FileInfo)
  unfolding not_moved drop_meta
  retrieve_file req =
      let dest = req.save_path in
      let srcfile = g.dirs.upload_dir ++ b'/' ∷ (req.id ++ data_ext) in
      let src_meta = g.dirs.upload_dir ++ b'/' ∷ (req.id ++ meta_ext) in
      if not (check_path dest)
      then pure (refusal (codes "Destination path " ++ (dest ++ codes " is not absolute")))
      else (do
        readable ← on_sys F Options (reads (F.readable src_meta))
        if not readable
            then (do
              message ←
                  on_sys F Options (
                    reads
                      (os_error F (codes "meta file unreadable for " ++ (req.id ++ codes ": "))))
              pure (refusal message))
            else (do
              moved ←
                  try_catch
                    (do
                      tm ← read_transfer_meta_cached F Options g.dirs from_json src_meta
                      _ ← on_sys F Options (move_file F crc32 g.limits srcfile dest tm.file_info)
                      pure (answer tm.file_info))
                    (not_moved srcfile)
              drop_meta src_meta moved))
