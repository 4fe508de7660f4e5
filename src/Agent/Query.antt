-- ===== src/Agent/Query.antt =====
-- Agent::files_info, query_available and meta of agent/server/impl/Agent.cpp.
pub mod Matches
pub mod Bounds
use oort_agent.Base.{
  ℕ, zero, suc, ◌+◌, ◌-◌, ◌%◌, ◌^◌, Bool, true, false, not, ◌&&◌, Option, none, some, List, [], ◌∷◌,
  ◌++◌, Bytes, codes, bytes_eq, length, ltb, if◌then◌else◌, Exception, is_runtime_error,
  system_error, runtime_error, out_of_range, invalid_argument, json_exception, length_error,
  null_dereference, Outcome, returns, throws, ◌>>=◌, ◌>>◌, pure, throw, lift, attempt, try_catch, ℤ,
  pos, negsuc,
}
use oort_agent.Posix.{FileSystem}
use oort_agent.Utils.Paths.{chop}
use oort_agent.Utils.Response.{ResponseCode, answer, refusal}
use oort_agent.Files.{FileInfo, file_info}
use oort_agent.Agent.Pairs.{Dirs, meta_ext, data_file, endeaden}
use oort_agent.Agent.World.{TransferMeta, World, on_sys, read_transfer_meta_cached, meta_files}

-- `what()` of an exception that the handlers print; they catch no other class.
abbrev pub what : (F : FileSystem) → Exception → Bytes
what F (system_error n m) = m ++ (codes ": " ++ F.strerror n)
what F (runtime_error m) = m
what F out_of_range = []
what F (invalid_argument m) = m
what F (json_exception m) = m
what F length_error = []
what F null_dereference = []

-- `flist.size() > max_query`: the `int` is converted to a `size_t`.
abbrev pub to_size : ℤ → ℕ
to_size (pos n) = n % 2 ^ 64
to_size (negsuc n) = 2 ^ 64 - (n + 1) % 2 ^ 64

abbrev pub is_too_long : ℤ → List FileInfo → Bool
is_too_long max_query flist = ltb (to_size max_query) (length flist)

pub record AvailableFiles : Type 0 where
  pub overflow : Bool
  pub files : List FileInfo

-- How a round goes on: `continue` passes over the test of the length.
pub data Turn : Type 0 where
  continue : Turn
  fall : List FileInfo → Turn

-- `files.pop_back()`
unfoldable pub pop_back : {A : Type 0} → List A → List A
pop_back [] = []
pop_back (x ∷ []) = []
pop_back (x ∷ (y ∷ xs)) = x ∷ pop_back (y ∷ xs)

module _ (F : FileSystem) (Options : Type 0) (dirs : Dirs) (crc32 : ℕ → Bytes → ℕ)
    (from_json : Bytes → Option (TransferMeta Options)) where
  abbrev pub Step : Type 0 → Type 0
  Step A = World F Options → Outcome (World F Options) A

  -- The part of the `try` block behind the reading of the metadata.
  unfoldable pub check_file :
      Bytes → Bytes → Bytes → List FileInfo → TransferMeta Options → Step Turn
  check_file dir topic name flist tm = if not (bytes_eq tm.topic topic) then pure continue else (do
    data_name ← lift (data_file (dir ++ b'/' ∷ name))
    fi ← on_sys F Options (attempt (file_info F crc32 data_name))
    if not (bytes_eq tm.file_info.crc32 fi.crc32)
        then (do
          _ ← lift (chop name meta_ext)
          _ ← on_sys F Options (endeaden F dirs (dir ++ b'/' ∷ name))
          pure continue)
        else pure (fall (flist ++ tm.file_info ∷ [])))

  -- `catch (const runtime_error &e)`
  unfoldable pub endeaden_bad : Bytes → Bytes → List FileInfo → Exception → Step Turn
  endeaden_bad dir name flist e =
      if is_runtime_error e
      then (do _ ← on_sys F Options (endeaden F dirs (dir ++ b'/' ∷ name)); pure (fall flist))
      else throw e

  unfoldable pub take_file : Bytes → Bytes → Bytes → List FileInfo → Step Turn
  unfolding check_file endeaden_bad
  take_file dir topic name flist =
      try_catch
        (do
          tm ← read_transfer_meta_cached F Options dirs from_json (dir ++ b'/' ∷ name)
          check_file dir topic name flist tm)
        (endeaden_bad dir name flist)

  -- The loop over the metadata files, with what stands behind the `try` block.
  unfoldable pub files_loop : ℤ → Bytes → Bytes → List Bytes → List FileInfo → Step (List FileInfo)
  unfolding take_file
  files_loop max_query dir topic [] flist w = returns flist w
  files_loop max_query dir topic (name ∷ names) flist w = elim (take_file dir topic name flist w) [
    | throws e w' ↦ throws e w'
    | returns turn w' ↦ elim turn [
      | continue ↦ files_loop max_query dir topic names flist w'
      | fall flist' ↦
          let rest = files_loop max_query dir topic names flist' w' in
          if is_too_long max_query flist' then returns flist' w' else rest
    ]
  ]

  unfoldable pub files_info : ℤ → Bytes → Bytes → Step (List FileInfo)
  unfolding files_loop
  files_info max_query dir topic = do
    names ← meta_files F Options dirs from_json dir
    files_loop max_query dir topic names []

  unfoldable pub query_available : ℤ → Bytes → Step (ResponseCode AvailableFiles)
  unfolding files_info pop_back
  query_available max_query topic = do
    files ← files_info max_query dirs.upload_dir topic
    pure (
        answer (
          if is_too_long max_query files
          then record { overflow = true; files = pop_back files }
          else record { overflow = false; files = files }))

  unfoldable pub meta : Bytes → Step (ResponseCode (TransferMeta Options))
  meta uuid =
      try_catch
        (do
          tm ←
              read_transfer_meta_cached F Options dirs from_json
                (dirs.transfer_dir ++ b'/' ∷ (uuid ++ meta_ext))
          pure (answer tm))
        (λ e. if is_runtime_error e then pure (refusal (what F e)) else throw e)
