-- ===== src/Utils/Hex/Read.antt =====
-- A hexadecimal text is read back, so that two numbers with one text are the same number.
use oort_agent.Base.{
  ℕ, zero, suc, ◌+◌, ◌-◌, ◌*◌, ◌/◌, ◌%◌, ◌^◌, ◌<◌, ◌≡◌, refl, sym, ap, ◌∙◌, [], ◌∷◌, Bytes, ltb,
  arith, if◌then◌else◌, length,
}
use native.Mathlib.Nat.{pow-suc}
use oort_agent.Utils.Hex.{hex_digit, hex_emit, hex_print, zeros, setw}

abbrev digit_value : ℕ → ℕ
digit_value c = if ltb c b'a' then c - b'0' else c - b'a' + 10

-- The value of a hexadecimal text behind digits of the value `acc`.
unfoldable pub hex_read : ℕ → Bytes → ℕ
hex_read acc [] = acc
hex_read acc (c ∷ s) = hex_read (acc * 16 + digit_value c) s

hex_read_digit :
    (n : ℕ) (out : Bytes) → hex_read (n / 16) (hex_digit (n % 16) ∷ out) ≡ hex_read n out
unfolding hex_read
hex_read_digit n out = ap (λ v. hex_read v out) (ground arith)

hex_read-hex_emit :
    (rounds n : ℕ) (out : Bytes)
    → n < 16 ^ rounds
    → hex_read 0 (hex_emit rounds n out) ≡ hex_read n out
unfolding hex_emit
hex_read-hex_emit zero n out h = let e : n ≡ 0 = omega arith in rw e
hex_read-hex_emit (suc rounds) n out h =
    let smaller : n / 16 < 16 ^ rounds = omega (arith, pow-suc 16 rounds) in
    ground (
      arith,
      hex_read-hex_emit rounds (n / 16) (hex_digit (n % 16) ∷ out) smaller,
      hex_read_digit n out,
    )

hex_read-zeros : (n : ℕ) (s : Bytes) → hex_read 0 (zeros n s) ≡ hex_read 0 s
unfolding zeros hex_read
hex_read-zeros zero s = refl
hex_read-zeros (suc n) s = hex_read-zeros n s

pub hex_read-hex_print : (n : ℕ) → n < 2 ^ 64 → hex_read 0 (hex_print n) ≡ n
unfolding hex_print hex_read
hex_read-hex_print n h = ground (arith, hex_read-hex_emit 16 n [] (omega arith))

pub hex_read-setw : (width : ℕ) (s : Bytes) → hex_read 0 (setw width s) ≡ hex_read 0 s
unfolding setw
hex_read-setw width s = hex_read-zeros (width - length s) s

-- Filled to any width, the text of a number still tells the number.
pub setw-hex_print-injective :
    (width a b : ℕ)
    → a < 2 ^ 64
    → b < 2 ^ 64
    → setw width (hex_print a) ≡ setw width (hex_print b)
    → a ≡ b
setw-hex_print-injective width a b ha hb e =
    sym (hex_read-hex_print a ha)
    ∙ sym (hex_read-setw width (hex_print a))
    ∙ ap (hex_read 0) e
    ∙ hex_read-setw width (hex_print b)
    ∙ hex_read-hex_print b hb
