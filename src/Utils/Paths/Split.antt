-- ===== src/Utils/Paths/Split.antt =====
-- tailname and dirname, rootname and extension of agent/server/impl/Utils.cpp: how they take a
-- path apart.
use native.Mathlib.Numerals.{add-one}
use oort_agent.Base.{
  ℕ, zero, suc, ◌+◌, ◌≡◌, refl, sym, ap, ◌≢◌, ◌⊎◌, inl, inr, none, some, [], ◌∷◌, ◌++◌, Bytes, All,
  length, take, drop, take-append, take-append-drop, Option-cases, arith, ==_iff,
}
use oort_agent.Utils.Paths.{rfind, tailname, dirname, rootname, extension}

-- The text has no `c`.
abbrev pub Lacks : ℕ → Bytes → Type 0
Lacks c = All (λ x. x ≢ c)

pub rfind-Lacks : (c : ℕ) (s : Bytes) → Lacks c s → rfind c s ≡ none
unfolding rfind
rfind-Lacks c [] h = refl
rfind-Lacks c (x ∷ s) h = rw (rfind-Lacks c s h.1, rfind) (ground (arith, h.0))

rfind_after : (c : ℕ) (t : Bytes) → Lacks c t → rfind c (c ∷ t) ≡ some 0
unfolding rfind
rfind_after c t h = rw (rfind-Lacks c t h, rfind) (ground arith)

pub rfind-append : (c : ℕ) (s t : Bytes) → Lacks c t → rfind c (s ++ c ∷ t) ≡ some (length s)
unfolding rfind
rfind-append c [] t h = rfind_after c t h
rfind-append c (x ∷ s) t h = rw (rfind-append c s t h, rfind) refl

rfind-none-Lacks : (c : ℕ) (s : Bytes) → rfind c s ≡ none → Lacks c s
unfolding rfind
rfind-none-Lacks c [] h = tt
rfind-none-Lacks c (x ∷ s) h = elim (Option-cases (rfind c s)) [
  | inl e ↦ (λ p. ground (arith, ==_iff x c), rfind-none-Lacks c s e)
  | inr (j, e) ↦ absurd (ground arith)
]

-- What `rfind` finds: the text splits at that position, and no `c` follows.
abbrev Found : ℕ → Bytes → ℕ → Type 0
Found c s i = (s ≡ take i s ++ c ∷ drop (suc i) s) × Lacks c (drop (suc i) s)

Found-head : (c x : ℕ) (s : Bytes) (i : ℕ) → Lacks c s → i ≡ 0 → x ≡ c → Found c (x ∷ s) i
Found-head c x s i h e p = rw (e, p) (refl, h)

Found-tail : (c x : ℕ) (s : Bytes) (i j : ℕ) → Found c s j → i ≡ suc j → Found c (x ∷ s) i
Found-tail c x s i j f e = rw e (ap (◌∷◌ x) f.0, f.1)

rfind-Found : (c : ℕ) (s : Bytes) (i : ℕ) → rfind c s ≡ some i → Found c s i
unfolding rfind
rfind-Found c [] i h = absurd (cc)
rfind-Found c (x ∷ s) i h = elim (Option-cases (rfind c s)) [
  | inl e ↦ Found-head c x s i (rfind-none-Lacks c s e) (ground arith) (ground (arith, ==_iff x c))
  | inr (j, e) ↦ Found-tail c x s i j (rfind-Found c s j e) (ground arith)
]

drop_behind : (d name : Bytes) (c : ℕ) → drop (length d + 1) (d ++ c ∷ name) ≡ name
drop_behind d name c = rw add-one (go d)
  where
    go : (d : Bytes) → drop (suc (length d)) (d ++ c ∷ name) ≡ name
    go [] = refl
    go (x ∷ d) = go d

-- Joining a directory and a plain name by a slash is taken apart again.
pub tailname-join : (dir name : Bytes) → Lacks b'/' name → tailname (dir ++ b'/' ∷ name) ≡ name
unfolding tailname
tailname-join dir name h = rw (rfind-append b'/' dir name h, tailname) (drop_behind dir name b'/')

pub dirname-join : (dir name : Bytes) → Lacks b'/' name → dirname (dir ++ b'/' ∷ name) ≡ dir
unfolding dirname
dirname-join dir name h = rw (rfind-append b'/' dir name h, dirname) (take-append dir (b'/' ∷ name))

-- A path with no slash is returned by dirname and by tailname as it is, and any other is its
-- dirname, a slash, and its tailname, which has no slash.
pub dirname-tailname :
    (p : Bytes)
    → (Lacks b'/' p × (dirname p ≡ p) × (tailname p ≡ p))
      ⊎ ((p ≡ dirname p ++ b'/' ∷ tailname p) × Lacks b'/' (tailname p))
unfolding dirname tailname
dirname-tailname p = elim (Option-cases (rfind b'/' p)) [
  | inl e ↦ inl (rfind-none-Lacks b'/' p e, rw (e, dirname), rw (e, tailname))
  | inr (i, e) ↦ rw (e, dirname, tailname) (rw add-one (inr (rfind-Found b'/' p i e)))
]

drop_at :
    {c : ℕ} (i : ℕ) (s : Bytes) → s ≡ take i s ++ c ∷ drop (suc i) s → drop i s ≡ c ∷ drop (suc i) s
drop_at zero s e = e
drop_at (suc i) [] e = absurd cc
drop_at (suc i) (x ∷ s) e = drop_at i s (cons_tail e)
  where
    cons_tail : {y z : ℕ} {s t : Bytes} → y ∷ s ≡ z ∷ t → s ≡ t
    cons_tail q = cc

-- A path with no dot is its rootname and has no extension; any other is its rootname followed by
-- its extension, which begins with a dot and has no other.
pub rootname-extension :
    (p : Bytes)
    → (Lacks b'.' p × (rootname p ≡ p) × (extension p ≡ []))
      ⊎ ((p ≡ rootname p ++ extension p) × ((e : Bytes) × (extension p ≡ b'.' ∷ e) × Lacks b'.' e))
unfolding rootname extension
rootname-extension p = elim (Option-cases (rfind b'.' p)) [
  | inl e ↦ inl (rfind-none-Lacks b'.' p e, rw (e, rootname) refl, rw (e, extension) refl)
  | inr (i, e) ↦
      let (split, lacks) = rfind-Found b'.' p i e in
      rw (e, rootname, extension)
        (inr (sym (take-append-drop i p), (drop (suc i) p, drop_at i p split, lacks)))
]
