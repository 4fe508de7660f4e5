-- ===== src/Utils/Crc/Blocks.antt =====
-- The blockwise checksum of getCrc (agent/server/impl/Utils.cpp) is the checksum of the whole
-- file.
use oort_agent.Base.{
  ℕ, zero, suc, ◌+◌, ◌^◌, ◌<◌, ◌≡◌, ◌↔◌, sym, ap, ◌∙◌, [], ◌++◌, Bytes, length, take, drop,
  take_all, length-drop, take-append-drop, ltb, ltb→lt, Bool-cases, inl, inr, some, arith,
}
use oort_agent.Utils.Hex.{hex_print, setw}
use oort_agent.Utils.Hex.Read.{setw-hex_print-injective}
use oort_agent.Utils.Crc.{block_size, crc_loop, get_crc}

-- What zlib documents: a running checksum may be continued, starts at 0, and has 32 bits.
pub record IsRunning (crc32 : ℕ → Bytes → ℕ) : Type 0 where
  pub start : crc32 0 [] ≡ 0
  pub continues : (c : ℕ) (a b : Bytes) → crc32 (crc32 c a) b ≡ crc32 c (a ++ b)
  pub range : (c : ℕ) (a : Bytes) → crc32 c a < 2 ^ 32

module _ (crc32 : ℕ → Bytes → ℕ) (z : IsRunning crc32) where
  crc_loop_whole :
      (rounds c : ℕ) (rest : Bytes)
      → length rest < rounds
      → crc_loop crc32 rounds c rest ≡ crc32 c rest
  unfolding crc_loop
  crc_loop_whole zero c rest h = absurd (omega arith)
  crc_loop_whole (suc rounds) c rest h = elim (Bool-cases (ltb (length rest) block_size)) [
    | inl short ↦
        rw short (ap (crc32 c) (take_all block_size rest (omega (arith, ltb→lt _ _ short))))
    | inr full ↦ rw full (
        crc_loop_whole rounds _ (drop block_size rest) (ground (arith, length-drop block_size rest))
        ∙ z.continues c (take block_size rest) (drop block_size rest)
        ∙ ap (crc32 c) (take-append-drop block_size rest))
  ]

  -- For a checksum that can be continued as zlib documents, getCrc of a readable file is the
  -- checksum of its whole content in eight hexadecimal digits: reading by blocks changes nothing,
  -- and the loop ends.
  pub get_crc_whole :
      (content : Bytes) → get_crc crc32 (some content) ≡ setw 8 (hex_print (crc32 0 content))
  unfolding get_crc
  get_crc_whole content =
      ap (λ v. setw 8 (hex_print v))
        (crc_loop_whole (length content + 1) (crc32 0 []) content (omega arith)
          ∙ z.continues 0 [] content)

  -- For a checksum that can be continued as zlib documents, the texts that getCrc gives for two
  -- readable files are equal exactly when the checksums of their contents are.
  pub get_crc_iff :
      (a b : Bytes) → (get_crc crc32 (some a) ≡ get_crc crc32 (some b)) ↔ (crc32 0 a ≡ crc32 0 b)
  get_crc_iff a b = (
    λ e.
        setw-hex_print-injective 8 (crc32 0 a) (crc32 0 b) (omega (arith, z.range 0 a))
          (omega (arith, z.range 0 b)) (sym (get_crc_whole a) ∙ e ∙ get_crc_whole b),
    λ e. get_crc_whole a ∙ ap (λ v. setw 8 (hex_print v)) e ∙ sym (get_crc_whole b),
  )
