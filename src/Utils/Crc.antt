-- ===== src/Utils/Crc.antt =====
-- getCrc of agent/server/impl/Utils.cpp. `crc32` is zlib's, a parameter.
pub mod Blocks
use oort_agent.Base.{
  ℕ, zero, suc, ◌+◌, List, [], ◌∷◌, Bytes, length, take, drop, ltb, Option, none, some,
  if◌then◌else◌,
}
use oort_agent.Utils.Hex.{hex_print, setw}

abbrev pub block_size : ℕ
block_size = 1024

module _ (crc32 : ℕ → Bytes → ℕ) where
  -- The loop over a stream with `rest` to read: a read that comes short ends it. Each round but
  -- the last takes a whole block, so one round more than the bytes is enough.
  unfoldable pub crc_loop : ℕ → ℕ → Bytes → ℕ
  crc_loop zero crc rest = crc
  crc_loop (suc rounds) crc rest =
      let next = crc32 crc (take block_size rest) in
      let more = crc_loop rounds next (drop block_size rest) in
      if ltb (length rest) block_size then next else more

  -- A file that cannot be opened gives no bytes.
  abbrev stream_of : Option Bytes → Bytes
  stream_of none = []
  stream_of (some content) = content

  unfoldable pub get_crc : Option Bytes → Bytes
  unfolding crc_loop
  get_crc file =
      setw 8 (hex_print (crc_loop (length (stream_of file) + 1) (crc32 0 []) (stream_of file)))
