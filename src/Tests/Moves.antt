-- ===== src/Tests/Moves.antt =====
-- Agent::move_file and the disk checks at work in the system in memory.
use oort_agent.Base.{
  ◌≡◌, refl, some, [], ◌∷◌, Bytes, codes, bytes_eq, returns, lookup, erase, wrap64, wrap32,
}
use oort_agent.Tests.Sums.{sum_crc}
use oort_agent.Posix.Memory
use oort_agent.Posix.Memory.{memory, Disk}
use oort_agent.Utils.Paths.{dirname, tailname, starts_with}
use oort_agent.Utils.Hex.{hex_print, setw}
use oort_agent.Utils.Crc.{get_crc}
use oort_agent.Files.{FileInfo, file_info}
use oort_agent.Agent.Disk.{default_limits, check_disk_free_in}
use oort_agent.Agent.Move.{move_file}

abbrev src : Bytes
src = codes "/data/a"

abbrev dest : Bytes
dest = codes "/ext/b"

abbrev start : Disk
start = record { files = (src, codes "hello") ∷ []; millis = 0 }

abbrev info : FileInfo
info = record {
  id = codes "a";
  path = src;
  size = 5;
  created = 0;
  modified = 0;
  crc32 = codes "00000214";
}

info_crc : get_crc sum_crc (some (codes "hello")) ≡ info.crc32
unfolding get_crc hex_print setw sum_crc
info_crc = refl

-- Across the devices the file arrives and the temporary files are gone.
moved :
    move_file memory sum_crc default_limits src dest info start
    ≡ returns tt (record { files = (dest, codes "hello") ∷ []; millis = 0 })
unfolding move_file sum_crc file_info get_crc hex_print setw lookup erase bytes_eq Memory.fresh
    Memory.file_stat dirname tailname check_disk_free_in starts_with wrap64 wrap32
moved = refl
