-- ===== src/Tests/Sums.antt =====
-- A checksum in place of zlib's that meets what zlib documents: the sum of the bytes.
use oort_agent.Base.{ℕ, ◌+◌, ◌%◌, ◌^◌, ◌<◌, ◌≡◌, refl, ap, [], ◌∷◌, ◌++◌, Bytes, codes, arith, some}
use oort_agent.Utils.Hex.{hex_print, setw}
use oort_agent.Utils.Crc.{get_crc}
use oort_agent.Utils.Crc.Blocks.{IsRunning, get_crc_whole}

unfoldable pub sum_crc : ℕ → Bytes → ℕ
sum_crc c [] = c % 4294967296
sum_crc c (b ∷ s) = sum_crc ((c + b) % 4294967296) s

sum_crc_mod : (c : ℕ) (s : Bytes) → sum_crc (c % 4294967296) s ≡ sum_crc c s
unfolding sum_crc
sum_crc_mod c [] = omega arith
sum_crc_mod c (b ∷ s) = ap (λ n. sum_crc n s) (omega arith)

sum_crc-append : (c : ℕ) (a b : Bytes) → sum_crc (sum_crc c a) b ≡ sum_crc c (a ++ b)
unfolding sum_crc
sum_crc-append c [] b = sum_crc_mod c b
sum_crc-append c (x ∷ a) b = sum_crc-append ((c + x) % 4294967296) a b

sum_crc_range : (c : ℕ) (a : Bytes) → sum_crc c a < 2 ^ 32
unfolding sum_crc
sum_crc_range c [] = omega arith
sum_crc_range c (x ∷ a) = sum_crc_range ((c + x) % 4294967296) a

pub sum_crc-IsRunning : IsRunning sum_crc
unfolding sum_crc
sum_crc-IsRunning = record { start = refl; continues = sum_crc-append; range = sum_crc_range }

get_crc_whole_example :
    get_crc sum_crc (some (codes "hello")) ≡ setw 8 (hex_print (sum_crc 0 (codes "hello")))
get_crc_whole_example = get_crc_whole sum_crc sum_crc-IsRunning (codes "hello")
