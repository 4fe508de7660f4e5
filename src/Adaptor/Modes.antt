-- ===== src/Adaptor/Modes.antt =====
-- The names and the codes of the modes (agent/server/impl/Adaptor.cpp) are each other's inverses.
use oort_agent.Base.{
  ℕ, ◌<◌, ◌≡◌, ◌≢◌, sym, ap, ◌∙◌, All, refl, ◌⊎◌, inl, inr, true, Bool-cases, List, [], ◌∷◌, Bytes,
  bytes_eq, bytes_eq→eq, ◌==◌, ==_iff, arith, all_from, all_from_holds,
}
use oort_agent.Adaptor.{encode_tests, switch, chain, decode_acs_mode, encode_acs_mode}

-- What a chain gives: the default, or what all its tests have.
chain_found :
    (P : Bytes → ℕ → Type 0) (tests : List (Bytes × ℕ)) (src : Bytes) (d : ℕ)
    → All (λ t. P t.0 t.1) tests
    → (chain tests src d ≡ d) ⊎ P src (chain tests src d)
unfolding chain
chain_found P [] src d h = inl refl
chain_found P ((name, c) ∷ tests) src d h = elim (Bool-cases (bytes_eq src name)) [
  | inl same ↦ rw (same, chain) (inr (rw (bytes_eq→eq src name same) h.0))
  | inr other ↦ rw (other, chain) (chain_found P tests src d h.1)
]

code_table : all_from (λ m. encode_acs_mode (decode_acs_mode m) == m) 0 10 ≡ true
unfolding all_from encode_acs_mode decode_acs_mode switch chain bytes_eq
code_table = refl

-- Every mode code below 10 comes back from its name.
pub decode-encode : (mode : ℕ) → mode < 10 → encode_acs_mode (decode_acs_mode mode) ≡ mode
decode-encode mode h = ground (
  arith,
  ==_iff (encode_acs_mode (decode_acs_mode mode)) mode,
  all_from_holds (λ m. encode_acs_mode (decode_acs_mode m) == m) 0 10 mode (omega arith)
      (omega arith) code_table,
)

abbrev IsMode : Bytes → ℕ → Type 0
IsMode name c = (c < 10) × (decode_acs_mode c ≡ name)

tests-IsMode : All (λ t. IsMode t.0 t.1) encode_tests
unfolding decode_acs_mode switch
tests-IsMode = (
  (omega arith, refl),
  (
    (omega arith, refl),
    (
      (omega arith, refl),
      (
        (omega arith, refl),
        (
          (omega arith, refl),
          (
            (omega arith, refl),
            (
              (omega arith, refl),
              ((omega arith, refl), ((omega arith, refl), ((omega arith, refl), tt))),
            ),
          ),
        ),
      ),
    ),
  ),
)

-- The code that EncodeAcsMode gives a text is below 10 and DecodeAcsMode gives the text back, or
-- it is 255, and the text is the name of no code below 10; and EncodeAcsMode gives each of these
-- codes back from its name.
pub encode-decode :
    (src : Bytes)
    → (((encode_acs_mode src < 10) × (decode_acs_mode (encode_acs_mode src) ≡ src))
        ⊎ ((encode_acs_mode src ≡ 255) × ((m : ℕ) → m < 10 → decode_acs_mode m ≢ src)))
      × ((m : ℕ) → m < 10 → encode_acs_mode (decode_acs_mode m) ≡ m)
unfolding encode_acs_mode
encode-decode src = (
  elim (chain_found IsMode encode_tests src 255 tests-IsMode) [
    | inr mode ↦ inl mode
    | inl e ↦
        inr (e, λ m h name. none_left m h (ap encode_acs_mode (sym name) ∙ decode-encode m h) e)
  ],
  decode-encode,
)
  where
    none_left : (m : ℕ) → m < 10 → encode_acs_mode src ≡ m → encode_acs_mode src ≡ 255 → ⊥
    none_left m h a b = omega (arith, a, b, h)
