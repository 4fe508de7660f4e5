-- ===== src/Config/Numbers.antt =====
-- `std::stoul` in base 10, as agent/server/impl/Config.cpp calls it on a 64-bit system: the
-- number, and the position behind it.
use oort_agent.Base.{
  ℕ, zero, suc, ◌+◌, ◌*◌, ◌-◌, ◌%◌, ◌^◌, Bool, true, false, ◌&&◌, ◌||◌, [], ◌∷◌, Bytes, leb, ltb,
  ◌==◌, if◌then◌else◌, out_of_range, invalid_argument, Result, ok, raise, codes,
}

abbrev is_space : ℕ → Bool
is_space c = c == 32 || (leb 9 c && leb c 13)

abbrev pub is_digit : ℕ → Bool
is_digit c = leb b'0' c && leb c b'9'

-- The digits at the front: the number with `value` in front of them, and the position behind.
unfoldable pub read_digits : ℕ → ℕ → Bytes → ℕ × ℕ
read_digits value count [] = (value, count)
read_digits value count (c ∷ s) =
    let more = read_digits (value * 10 + (c - b'0')) (count + 1) s in
    if is_digit c then more else (value, count)

-- Behind the sign; `start` characters were read.
unfoldable pub unsigned_part : Bool → ℕ → Bytes → Result (ℕ × ℕ)
unfolding read_digits
unsigned_part negative start s =
    let value = (read_digits 0 0 s).0 in
    let count = (read_digits 0 0 s).1 in
    if count == 0
    then raise (invalid_argument (codes "stoul"))
    else if ltb value (2 ^ 64)
    then ok (if negative then (2 ^ 64 - value) % 2 ^ 64 else value, start + count)
    else raise out_of_range

unfoldable pub signed_part : ℕ → Bytes → Result (ℕ × ℕ)
unfolding unsigned_part
signed_part start [] = unsigned_part false start []
signed_part start (c ∷ s) =
    if c == b'-'
    then unsigned_part true (start + 1) s
    else if c == b'+'
    then unsigned_part false (start + 1) s
    else unsigned_part false start (c ∷ s)

unfoldable pub skip_space : ℕ → Bytes → Result (ℕ × ℕ)
unfolding signed_part
skip_space start [] = signed_part start []
skip_space start (c ∷ s) =
    let rest = skip_space (start + 1) s in if is_space c then rest else signed_part start (c ∷ s)

unfoldable pub stoul : Bytes → Result (ℕ × ℕ)
unfolding skip_space
stoul str = skip_space 0 str

-- `str[pos]`, which is NUL at the end.
unfoldable pub char_at : Bytes → ℕ → ℕ
char_at [] n = 0
char_at (c ∷ s) zero = c
char_at (c ∷ s) (suc n) = char_at s n
