-- ===== src/Utils/Paths.antt =====
-- The path functions of agent/server/impl/Utils.cpp: tailname, dirname, rootname, extension,
-- ends_with, starts_with, chop and behead.
pub mod Split
pub mod Affix
use oort_agent.Base.{
  ℕ, zero, suc, ◌+◌, ◌-◌, ◌^◌, Bool, ◌&&◌, Option, none, some, List, [], ◌∷◌, Bytes, bytes_eq,
  length, take, drop, ltb, leb, ◌==◌, if◌then◌else◌, Result, ok, raise, out_of_range, then_ok,
}

-- `rfind` of one character: the position of its last occurrence.
unfoldable pub rfind : ℕ → Bytes → Option ℕ
rfind c [] = none
rfind c (x ∷ s) = elim (rfind c s) [
  | some i ↦ some (suc i)
  | none ↦ if x == c then some 0 else none
]

-- A position that `rfind` gave is inside the text, so that `substr` does not throw at it or
-- behind.
unfoldable pub tailname : Bytes → Bytes
unfolding rfind
tailname filepath = elim (rfind b'/' filepath) [ none ↦ filepath | some i ↦ drop (i + 1) filepath ]

unfoldable pub dirname : Bytes → Bytes
unfolding rfind
dirname filepath = elim (rfind b'/' filepath) [ none ↦ filepath | some i ↦ take i filepath ]

unfoldable pub rootname : Bytes → Bytes
unfolding rfind
rootname filepath = elim (rfind b'.' filepath) [ none ↦ filepath | some i ↦ take i filepath ]

unfoldable pub extension : Bytes → Bytes
unfolding rfind
extension filepath = elim (rfind b'.' filepath) [ none ↦ [] | some i ↦ drop i filepath ]

unfoldable pub ends_with : Bytes → Bytes → Bool
ends_with str tail =
    leb (length tail) (length str) && bytes_eq (drop (length str - length tail) str) tail

unfoldable pub starts_with : Bytes → Bytes → Bool
starts_with str head = leb (length head) (length str) && bytes_eq (take (length head) str) head

-- The difference of two `size_t`, which wraps.
abbrev pub size_sub : ℕ → ℕ → ℕ
size_sub a b = if leb b a then a - b else a + 2 ^ 64 - b

-- `str.substr(pos)`
unfoldable pub substr_from : Bytes → ℕ → Result Bytes
substr_from str pos = if ltb (length str) pos then raise out_of_range else ok (drop pos str)

unfoldable pub chop : Bytes → Bytes → Result Bytes
unfolding substr_from
chop str tail = then_ok (substr_from str (size_sub (length str) (length tail))) λ s_tail.
    if bytes_eq s_tail tail then ok (take (size_sub (length str) (length tail)) str) else ok str

-- The first `substr` starts at 0 and the second behind a head that fits: neither throws.
unfoldable pub behead : Bytes → Bytes → Bytes
behead str head = if bytes_eq (take (length head) str) head then drop (length head) str else str
