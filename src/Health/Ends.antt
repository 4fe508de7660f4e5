-- ===== src/Health/Ends.antt =====
-- Rules for what holds of the response wherever the parsing in
-- agent/server/impl/AgentUAVCANServer.cpp ends.
use oort_agent.Base.{
  ℕ, suc, ◌+◌, ◌≤◌, ◌≡◌, refl, ◌⊎◌, inl, inr, Bool, true, false, not, List, [], ◌∷◌, Bytes, length,
  ltb, arith,
}
use oort_agent.Health.{
  Failure, Check, value, fails, JsonLib, max_array_len, Response, Parsed, parsed, stopped, Rest,
  step, require, validate_array, push_all,
}

module _ (L : JsonLib) where
  -- The arrays have their lengths at most.
  abbrev pub Within : ℕ → ℕ → ℕ → ℕ → Response L → Type 0
  Within a b c d r =
      (length r.imetric ≤ a)
      × (length r.imetric_feeds ≤ b)
      × (length r.fmetric ≤ c)
      × (length r.fmetric_feeds ≤ d)

  abbrev pub IsBounded : Response L → Type 0
  IsBounded = Within 255 255 255 255

  unfoldable pub state_of : Parsed L → Response L
  state_of (parsed r) = r
  state_of (stopped f r) = r

  -- Every end of a run satisfies `P`.
  unfoldable pub Ends : (Response L → Type 0) → Parsed L → Type 0
  unfolding state_of
  Ends P o = P (state_of o)

  Check-cases :
      {A : Type 0} (c : Check A) → ((a : A) × (c ≡ value a)) ⊎ ((f : Failure) × (c ≡ fails f))
  Check-cases (value a) = inl (a, refl)
  Check-cases (fails f) = inr (f, refl)

  pub weak :
      (a b c d : ℕ) (r : Response L)
      → a ≤ 255
      → b ≤ 255
      → c ≤ 255
      → d ≤ 255
      → Within a b c d r
      → IsBounded r
  weak a b c d r ha hb hc hd (i, j, k, l) = (omega arith, omega arith, omega arith, omega arith)

  module _ (P : Response L → Type 0) where
    pub step-Ends :
        {A : Type 0} (c : Check A) (k : A → Rest L) (r : Response L)
        → P r
        → ((a : A) → c ≡ value a → Ends P (k a r))
        → Ends P (step L c k r)
    unfolding Ends state_of
    step-Ends (value a) k r h f = f a refl
    step-Ends (fails x) k r h f = h

    pub require-Ends :
        (b : Bool) (m : Bytes) (k : Rest L) (r : Response L)
        → P r
        → (b ≡ true → Ends P (k r))
        → Ends P (require L b m k r)
    unfolding Ends state_of
    require-Ends true m k r h f = f refl
    require-Ends false m k r h f = h

    -- An invariant that tells how many elements were pushed.
    pub push_all-Ends :
        {A : Type 0} (get : L.Json → Check A) (push : A → Response L → Response L)
        (I : ℕ → Response L → Type 0)
        → ((n : ℕ) (a : A) (r : Response L) → I n r → I (suc n) (push a r))
        → ((n : ℕ) (r : Response L) → n ≤ 255 → I n r → P r)
        → (items : List L.Json) (k : Rest L) (n : ℕ) (r : Response L) → I n r
        → n + length items ≤ 255
        → ((r' : Response L) → I (n + length items) r' → Ends P (k r'))
        → Ends P (push_all L get push items k r)
    unfolding Ends state_of push_all
    push_all-Ends get push I more weak [] k n r i h f = f r (rw (plus_zero n) i)
      where
        plus_zero : (n : ℕ) → n + 0 ≡ n
        plus_zero n = omega arith
    push_all-Ends {A} get push I more weak (it ∷ items) k n r i h f = elim (Check-cases (get it)) [
      | inr (x, e) ↦ rw (e, push_all) (weak n r (omega arith) i)
      | inl (a, e) ↦
          rw (e, push_all)
            (push_all-Ends get push I more weak items k (suc n) (push a r) (more n a r i)
              (omega arith) (λ r' i'. f r' (rw (shift n (length items)) i')))
    ]
      where
        shift : (n m : ℕ) → n + suc m ≡ suc n + m
        shift n m = omega arith

    pub validate_array-Ends :
        (obj : L.Json) (name : Bytes) (k : Rest L) (r : Response L)
        → P r
        → ((b : L.Json) → L.at obj name ≡ value b → length (L.elements b) ≤ 255 → Ends P (k r))
        → Ends P (validate_array L obj name k r)
    unfolding validate_array
    validate_array-Ends obj name k r h f = step-Ends (L.at obj name) _ r h λ a e.
        require-Ends (L.is_array a) _ _ r h λ q. step-Ends (L.at obj name) _ r h λ b d.
          require-Ends (not (ltb max_array_len (length (L.elements b)))) _ k r h
            λ t. f b d (ground (arith, t))
