-- ===== src/Agent/Send.antt =====
-- Agent::checkTopic, transfer_meta and send_file of agent/server/impl/Agent.cpp. The printer of
-- the metadata's JSON, the node's name, the version and the random bytes are parameters.
pub mod Safety
use oort_agent.Base.{
  ℕ, Bool, true, false, not, ◌&&◌, ◌||◌, Option, none, some, List, [], ◌∷◌, ◌++◌, Bytes, codes,
  bytes_eq, leb, ◌==◌, if◌then◌else◌, Exception, is_runtime_error, system_error, runtime_error,
  out_of_range, invalid_argument, json_exception, length_error, null_dereference, Outcome, returns,
  throws, ◌>>=◌, ◌>>◌, pure, throw, call, reads, attempt, try_catch,
}
use oort_agent.Posix.{FileSystem}
use oort_agent.Utils.Paths.{dirname}
use oort_agent.Utils.Uuid.{mk_uuid}
use oort_agent.Utils.Response.{ResponseCode, answer, refusal}
use oort_agent.Files.{FileInfo, file_info, check_path}
use oort_agent.Agent.Disk.{FreeLimits}
use oort_agent.Agent.Move.{Io, move_file}
use oort_agent.Agent.Pairs.{Dirs, meta_ext, data_ext}
use oort_agent.Agent.World.{TransferMeta}
use oort_agent.Agent.Query.{what}

-- `[:alnum:]` in the C locale.
abbrev is_alnum : ℕ → Bool
is_alnum c =
    (leb b'0' c && leb c b'9') || ((leb b'A' c && leb c b'Z') || (leb b'a' c && leb c b'z'))

abbrev pub is_topic_char : ℕ → Bool
is_topic_char c = c == b'-' || (c == b'_' || is_alnum c)

unfoldable pub all_topic_chars : Bytes → Bool
all_topic_chars [] = true
all_topic_chars (c ∷ s) = is_topic_char c && all_topic_chars s

-- `^[-_[:alnum:]]+$`
unfoldable pub matches_topic_re : Bytes → Bool
unfolding all_topic_chars
matches_topic_re [] = false
matches_topic_re (c ∷ s) = all_topic_chars (c ∷ s)

-- `find(begin, end, topic) != end`
unfoldable pub is_allowed : Bytes → List Bytes → Bool
is_allowed topic [] = false
is_allowed topic (t ∷ topics) = bytes_eq t topic || is_allowed topic topics

unfoldable pub check_topic : List Bytes → Bytes → Bool
unfolding matches_topic_re is_allowed
check_topic [] topic = matches_topic_re topic
check_topic (t ∷ topics) topic = matches_topic_re topic && is_allowed topic (t ∷ topics)

pub record SendFileRequest (Options : Type 0) : Type 0 where
  pub filepath : Bytes
  pub topic : Bytes
  pub destination : Bytes
  pub options : Options

abbrev pub is_system_error : Exception → Bool
is_system_error (system_error n m) = true
is_system_error (runtime_error m) = false
is_system_error out_of_range = false
is_system_error (invalid_argument m) = false
is_system_error (json_exception m) = false
is_system_error length_error = false
is_system_error null_dereference = false

-- `OSError(prefix)`
abbrev pub os_error : (F : FileSystem) → Bytes → F.State → Bytes
os_error F prefix s = prefix ++ F.strerror (F.errno s)

-- What the requests of one agent share.
pub record Setting (Options : Type 0) : Type 0 where
  pub dirs : Dirs
  pub limits : FreeLimits
  pub allowed_topics : List Bytes
  pub nodename : Bytes
  pub api_version : Bytes
  pub to_json : TransferMeta Options → Bytes

module _ (F : FileSystem) (Options : Type 0) (crc32 : ℕ → Bytes → ℕ) (g : Setting Options) where
  unfoldable pub transfer_meta : SendFileRequest Options → FileInfo → F.State → TransferMeta Options
  transfer_meta req fi s = record {
    meta_version = g.api_version;
    topic = req.topic;
    destination = req.destination;
    node = g.nodename;
    time = F.time s;
    file_info = fi;
    send_options = req.options;
  }

  -- The first `try` block.
  unfoldable pub write_meta : SendFileRequest Options → Bytes → Bytes → Io F FileInfo
  unfolding transfer_meta
  write_meta req id destmeta = do
    found ← attempt (file_info F crc32 req.filepath)
    let fi = record found { id = id }
    tm ← reads (transfer_meta req fi)
    written ← call (F.save destmeta (g.to_json tm))
    if written then pure fi else (do
      _ ← call (F.unlink destmeta)
      throw (runtime_error (codes "error writing metadata")))

  -- Its handler.
  unfoldable pub no_info : Bytes → Exception → Io F (ResponseCode FileInfo)
  no_info src e =
      if is_runtime_error e
      then (do
        message ← reads (os_error F (codes "Error getting info on " ++ (src ++ codes ": ")))
        pure (refusal message))
      else throw e

  -- The handler of the second: only `system_error` is taken.
  unfoldable pub take_back : Bytes → Exception → Io F (ResponseCode Bytes)
  take_back destmeta e =
      if is_system_error e
      then (do _ ← call (F.unlink destmeta); pure (refusal (what F e)))
      else throw e

  -- The second `try` block, for what the first one gave, and the answer.
  unfoldable pub move_in :
      Bytes → Bytes → Bytes → Bytes → ResponseCode FileInfo → Io F (ResponseCode Bytes)
  unfolding take_back
  move_in src dest id destmeta (refusal message) = pure (refusal message)
  move_in src dest id destmeta (answer fi) =
      try_catch (do _ ← move_file F crc32 g.limits src dest fi; pure (answer id))
        (take_back destmeta)

  unfoldable pub send_file : (ℕ → ℕ) → SendFileRequest Options → Io F (ResponseCode Bytes)
  unfolding write_meta no_info move_in
  send_file urand req =
      let src = req.filepath in
      let id = mk_uuid urand in
      let dest = g.dirs.transfer_dir ++ b'/' ∷ (id ++ data_ext) in
      let destmeta = g.dirs.transfer_dir ++ b'/' ∷ (id ++ meta_ext) in
      if not (check_path src)
      then pure (refusal (codes "File path " ++ (src ++ codes " is not absolute")))
      else if not (check_topic g.allowed_topics req.topic)
      then pure (refusal (codes "Topic " ++ (req.topic ++ codes " is not allowed")))
      else (do
        writable ← reads (F.writable (dirname src))
        if not writable then pure (refusal (codes "Source directory not writable")) else (do
          prepared ← try_catch (do fi ← write_meta req id destmeta; pure (answer fi)) (no_info src)
          move_in src dest id destmeta prepared))
