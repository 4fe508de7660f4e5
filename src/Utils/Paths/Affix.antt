-- ===== src/Utils/Paths/Affix.antt =====
-- ends_with, starts_with, chop and behead of agent/server/impl/Utils.cpp: what they test and cut.
use oort_agent.Base.{
  Bool-cases, ◌⊎◌, inl, inr, ℕ, ◌-◌, ◌^◌, ◌≤◌, ◌<◌, ◌≡◌, sym, ap, ◌∙◌, ◌↔◌, true, false, ◌++◌,
  Bytes, bytes_eq_refl, bytes_eq→eq, length, take, drop, take-append, drop-append, take-append-drop,
  length-append, arith, ok, raise, out_of_range,
}
use oort_agent.Utils.Paths.{ends_with, starts_with, chop, behead}

drop-length-sub : (p t : Bytes) → drop (length (p ++ t) - length t) (p ++ t) ≡ t
drop-length-sub p t =
    let e : length (p ++ t) - length t ≡ length p = omega (arith, length-append p t) in
    rw e (drop-append p t)

take-length-sub : (p t : Bytes) → take (length (p ++ t) - length t) (p ++ t) ≡ p
take-length-sub p t =
    let e : length (p ++ t) - length t ≡ length p = omega (arith, length-append p t) in
    rw e (take-append p t)

pub ends_with-append : (p t : Bytes) → ends_with (p ++ t) t ≡ true
unfolding ends_with
ends_with-append p t = rw (drop-length-sub p t) (ground (arith, length-append p t, bytes_eq_refl t))

-- ends_with says yes exactly when the text is some beginning followed by the tail.
pub ends_with_iff : (s t : Bytes) → (ends_with s t ≡ true) ↔ ((p : Bytes) × (s ≡ p ++ t))
unfolding ends_with
ends_with_iff s t = (split, join)
  where
    split : ends_with s t ≡ true → (p : Bytes) × (s ≡ p ++ t)
    split h =
        let n : ℕ = length s - length t in
        let e : drop n s ≡ t = ground (arith, bytes_eq→eq (drop n s) t) in
        (take n s, sym (take-append-drop n s) ∙ ap (λ r. take n s ++ r) e)

    join : ((p : Bytes) × (s ≡ p ++ t)) → ends_with s t ≡ true
    join (p, e) = rw e (ends_with-append p t)

pub starts_with-append : (h t : Bytes) → starts_with (h ++ t) h ≡ true
unfolding starts_with
starts_with-append h t = rw (take-append h t) (ground (arith, length-append h t, bytes_eq_refl h))

-- starts_with says yes exactly when the text is the head followed by some rest.
pub starts_with_iff : (s h : Bytes) → (starts_with s h ≡ true) ↔ ((t : Bytes) × (s ≡ h ++ t))
unfolding starts_with
starts_with_iff s h = (split, join)
  where
    split : starts_with s h ≡ true → (t : Bytes) × (s ≡ h ++ t)
    split q =
        let n : ℕ = length h in
        let e : take n s ≡ h = ground (arith, bytes_eq→eq (take n s) h) in
        (drop n s, sym (take-append-drop n s) ∙ ap (λ r. r ++ drop n s) e)

    join : ((t : Bytes) × (s ≡ h ++ t)) → starts_with s h ≡ true
    join (t, e) = rw e (starts_with-append h t)

-- A tail that is there is cut off.
pub chop-append : (p t : Bytes) → chop (p ++ t) t ≡ ok p
unfolding chop
chop-append p t =
    ground (arith, length-append p t, drop-length-sub p t, take-length-sub p t, bytes_eq_refl t)

-- A tail that is not there: a text at least as long as the tail is returned whole.
pub chop_other : (s t : Bytes) → length t ≤ length s → ends_with s t ≡ false → chop s t ≡ ok s
unfolding chop ends_with
chop_other s t h e = ground arith

-- On a text at least as long as the tail, chop gives what stands before the tail if the text ends
-- with it, and the text if it does not.
pub chop_lem :
    (s t : Bytes)
    → length t ≤ length s
    → ((p : Bytes) × (s ≡ p ++ t) × (chop s t ≡ ok p))
      ⊎ ((ends_with s t ≡ false) × (chop s t ≡ ok s))
chop_lem s t h = elim (Bool-cases (ends_with s t)) [
  | inr missing ↦ inr (missing, chop_other s t h missing)
  | inl found ↦ let (p, e) = (ends_with_iff s t).0 found in inl (p, e, rw e (chop-append p t))
]

-- On a text shorter than the tail (of less than 2^64 bytes) chop throws out_of_range.
pub chop_short :
    (s t : Bytes) → length s < length t → length t < 2 ^ 64 → chop s t ≡ raise out_of_range
unfolding chop
chop_short s t h b = ground arith

pub behead-append : (h t : Bytes) → behead (h ++ t) h ≡ t
unfolding behead
behead-append h t = rw (take-append h t, drop-append h t) (ground (arith, bytes_eq_refl h))
