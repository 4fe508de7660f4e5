-- ===== src/Utils/Uuid/Form.antt =====
-- The identifiers that mkUUID (agent/server/impl/Utils.cpp) makes have the form of a version 4
-- UUID.
use Prim.Native.Nat.{bit_and, bit_or}
use mathlib.Core.List.{append_assoc, append-nil}
use oort_agent.Base.{
  ℕ, suc, ◌/◌, ◌%◌, ◌≡◌, refl, Bool, true, false, ◌&&◌, ◌||◌, [], ◌∷◌, ◌++◌, Bytes, bytes_eq,
  bytes_eq→eq, leb, ◌==◌, all_from, all_from_holds, arith, if◌then◌else◌,
}
use oort_agent.Utils.Hex.{hex_digit, hex_print, setw}
use oort_agent.Utils.Uuid.{rand_dat, hex_byte, hex_bytes, mk_uuid}

abbrev pub is_hex : ℕ → Bool
is_hex c = (leb b'0' c && leb c b'9') || (leb b'a' c && leb c b'f')

abbrev is_variant : ℕ → Bool
is_variant c = c == b'8' || c == b'9' || c == b'a' || c == b'b'

-- What RFC 4122 wants at each of the 36 places of a version 4 UUID in lower case.
abbrev place_is_right : ℕ → ℕ → Bool
place_is_right i c =
    if i == 8 || i == 13 || i == 18 || i == 23
    then c == b'-'
    else if i == 14
    then c == b'4'
    else if i == 19
    then is_variant c
    else is_hex c

unfoldable pub places_from : ℕ → Bytes → Bool
places_from i [] = i == 36
places_from i (c ∷ s) = place_is_right i c && places_from (suc i) s

abbrev pub is_uuid4 : Bytes → Bool
is_uuid4 = places_from 0

abbrev two_digits : ℕ → Bytes
two_digits b = hex_digit (b / 16) ∷ hex_digit (b % 16) ∷ []

byte_table : all_from (λ b. bytes_eq (hex_byte b) (two_digits b)) 0 256 ≡ true
unfolding all_from bytes_eq hex_byte hex_print setw
byte_table = refl

hex_byte_lem : (x : ℕ) → hex_byte (x % 256) ≡ two_digits (x % 256)
hex_byte_lem x = bytes_eq→eq _ _ (
    all_from_holds (λ b. bytes_eq (hex_byte b) (two_digits b)) 0 256 (x % 256) (omega arith)
      (omega arith) byte_table)

abbrev versioned : ℕ → ℕ
versioned b = bit_or 0x40 (bit_and b 0x0f)

abbrev varianted : ℕ → ℕ
varianted b = bit_or 0x80 (bit_and b 0x3f)

-- What is written for a byte, at its place: two digits that suit the place and the next.
abbrev fits : ℕ → Bytes → Bool
fits i [] = false
fits i (c ∷ []) = false
fits i (c ∷ d ∷ []) = place_is_right i c && place_is_right (suc i) d
fits i (c ∷ d ∷ _) = false

version_table : all_from (λ b. fits 14 (hex_byte (versioned b))) 0 256 ≡ true
unfolding all_from hex_byte hex_print setw
version_table = refl

variant_table : all_from (λ b. fits 19 (hex_byte (varianted b))) 0 256 ≡ true
unfolding all_from hex_byte hex_print setw
variant_table = refl

plain_table : all_from (λ b. fits 0 (hex_byte b)) 0 256 ≡ true
unfolding all_from hex_byte hex_print setw
plain_table = refl

-- Two written digits are passed, whatever follows.
skip :
    (i : ℕ) (w rest : Bytes)
    → fits i w ≡ true
    → places_from (suc (suc i)) rest ≡ true
    → places_from i (w ++ rest) ≡ true
unfolding places_from
skip i [] rest h t = absurd (cc)
skip i (c ∷ []) rest h t = absurd (cc)
skip i (c ∷ d ∷ []) rest h t = ground arith
skip i (c ∷ d ∷ e ∷ w) rest h t = absurd (cc)

skip_dash :
    (i : ℕ) (rest : Bytes)
    → place_is_right i b'-' ≡ true
    → places_from (suc i) rest ≡ true
    → places_from i (b'-' ∷ rest) ≡ true
unfolding places_from
skip_dash i rest h t = ground arith

module _ (urand : ℕ → ℕ) where
  plain : (i : ℕ) → fits 0 (hex_byte (urand i % 256)) ≡ true
  plain i =
      all_from_holds (λ b. fits 0 (hex_byte b)) 0 256 (urand i % 256) (omega arith) (omega arith)
        plain_table

  version : fits 14 (hex_byte (versioned (urand 6 % 256))) ≡ true
  version =
      all_from_holds (λ b. fits 14 (hex_byte (versioned b))) 0 256 (urand 6 % 256) (omega arith)
        (omega arith) version_table

  variant : fits 19 (hex_byte (varianted (urand 8 % 256))) ≡ true
  variant =
      all_from_holds (λ b. fits 19 (hex_byte (varianted b))) 0 256 (urand 8 % 256) (omega arith)
        (omega arith) variant_table

-- The last two digits end the text.
last : (w : Bytes) → fits 34 w ≡ true → places_from 34 w ≡ true
unfolding places_from
last [] h = absurd (cc)
last (c ∷ []) h = absurd (cc)
last (c ∷ d ∷ []) h = ground arith
last (c ∷ d ∷ e ∷ w) h = absurd (cc)

-- From the second byte of the version's group on.
places_from_16 :
    (urand : ℕ → ℕ)
    → places_from 16 (
        hex_byte (rand_dat urand 7)
        ++ (b'-'
            ∷ (hex_byte (rand_dat urand 8)
                ++ (hex_byte (rand_dat urand 9) ++ (b'-' ∷ hex_bytes (rand_dat urand) 10 6)))))
      ≡ true
unfolding rand_dat hex_bytes
places_from_16 urand = simp append-nil (
    skip 16 (hex_byte (urand 7 % 256)) _ (plain urand 7) (
      skip_dash 18 _ refl (
        skip 19 _ _ (variant urand) (
          skip 21 (hex_byte (urand 9 % 256)) _ (plain urand 9) (
            skip_dash 23 _ refl (
              skip 24 (hex_byte (urand 10 % 256)) _ (plain urand 10) (
                skip 26 (hex_byte (urand 11 % 256)) _ (plain urand 11) (
                  skip 28 (hex_byte (urand 12 % 256)) _ (plain urand 12) (
                    skip 30 (hex_byte (urand 13 % 256)) _ (plain urand 13) (
                      skip 32 (hex_byte (urand 14 % 256)) _ (plain urand 14)
                        (last (hex_byte (urand 15 % 256)) (plain urand 15))))))))))))

-- Whatever the random bytes are, mkUUID gives a version 4 UUID of 36 characters: lower case
-- hexadecimal digits, dashes at their places, the version and the variant set.
pub mk_uuid-is_uuid4 : (urand : ℕ → ℕ) → is_uuid4 (mk_uuid urand) ≡ true
unfolding mk_uuid hex_bytes rand_dat
mk_uuid-is_uuid4 urand =
    simp (append_assoc, append-nil)
      (skip 0 (hex_byte (urand 0 % 256)) _ (plain urand 0) (
        skip 2 (hex_byte (urand 1 % 256)) _ (plain urand 1) (
          skip 4 (hex_byte (urand 2 % 256)) _ (plain urand 2) (
            skip 6 (hex_byte (urand 3 % 256)) _ (plain urand 3) (
              skip_dash 8 _ refl (
                skip 9 (hex_byte (urand 4 % 256)) _ (plain urand 4) (
                  skip 11 (hex_byte (urand 5 % 256)) _ (plain urand 5) (
                    skip_dash 13 _ refl (
                      skip 14 _ _ (version urand)
                        (simp append-nil at (places_from_16 urand)))))))))))
