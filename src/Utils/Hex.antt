-- ===== src/Utils/Hex.antt =====
-- Hexadecimal output as agent/server/impl/Utils.cpp sets it up on its string streams: `hex`,
-- `setfill('0')` and `setw`.
pub mod Read
use oort_agent.Base.{
  ℕ, zero, suc, ◌+◌, ◌-◌, ◌/◌, ◌%◌, List, [], ◌∷◌, ◌++◌, Bytes, length, ltb, ◌==◌, if◌then◌else◌,
}

abbrev pub hex_digit : ℕ → ℕ
hex_digit d = if ltb d 10 then b'0' + d else b'a' + (d - 10)

-- The digits of a number in front of `out`; 16 rounds are enough for an `unsigned long`.
unfoldable pub hex_emit : ℕ → ℕ → Bytes → Bytes
hex_emit zero n out = out
hex_emit (suc rounds) n out =
    let more = hex_emit rounds (n / 16) (hex_digit (n % 16) ∷ out) in if n == 0 then out else more

-- `out << hex << n` for an `unsigned long`.
unfoldable pub hex_print : ℕ → Bytes
unfolding hex_emit
hex_print n = if n == 0 then b'0' ∷ [] else hex_emit 16 n []

-- `setfill('0') << setw(width)`: zeros in front of a text that is shorter.
unfoldable pub zeros : ℕ → Bytes → Bytes
zeros zero s = s
zeros (suc n) s = b'0' ∷ zeros n s

unfoldable pub setw : ℕ → Bytes → Bytes
unfolding zeros
setw width s = zeros (width - length s) s
