-- ===== src/Utils/Uuid.antt =====
-- mkUUID of agent/server/impl/Utils.cpp. The 16 bytes of /dev/urandom are the parameter `urand`.
pub mod Form
use Prim.Native.Nat.{bit_and, bit_or}
use oort_agent.Base.{ℕ, zero, suc, ◌+◌, ◌%◌, [], ◌∷◌, ◌++◌, Bytes, ◌==◌, if◌then◌else◌}
use oort_agent.Utils.Hex.{hex_print, setw}

-- The bytes with the version and the variant set.
unfoldable pub rand_dat : (ℕ → ℕ) → ℕ → ℕ
rand_dat urand i =
    if i == 6
    then bit_or 0x40 (bit_and (urand 6 % 256) 0x0f)
    else if i == 8
    then bit_or 0x80 (bit_and (urand 8 % 256) 0x3f)
    else urand i % 256

-- `uuid << setw(2) << (0xFF & rand_dat[i])`
unfoldable pub hex_byte : ℕ → Bytes
hex_byte b = setw 2 (hex_print (b % 256))

-- `for (int c = 0; c < count; c++, i++) …`
unfoldable pub hex_bytes : (ℕ → ℕ) → ℕ → ℕ → Bytes
hex_bytes dat i zero = []
hex_bytes dat i (suc count) = hex_byte (dat i) ++ hex_bytes dat (i + 1) count

unfoldable pub mk_uuid : (ℕ → ℕ) → Bytes
unfolding hex_bytes rand_dat
mk_uuid urand =
    hex_bytes dat 0 4
    ++ b'-'
      ∷ (hex_bytes dat 4 2
          ++ b'-'
            ∷ (hex_bytes dat 6 2
                ++ b'-' ∷ (hex_bytes dat 8 1 ++ (hex_bytes dat 9 1 ++ b'-' ∷ hex_bytes dat 10 6))))
  where
    dat : ℕ → ℕ
    dat = rand_dat urand
