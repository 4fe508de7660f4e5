-- ===== src/Utils/Process/Limits.antt =====
-- What read_into_string (agent/server/impl/Utils.cpp) reads.
use oort_agent.Base.{
  ℕ, ◌+◌, ◌≤◌, ◌≡◌, sym, ◌∙◌, true, Bool-cases, inl, inr, Option, none, some, List, [], ◌∷◌, ◌++◌,
  Bytes, length, length-append, ltb, arith,
}
use mathlib.Core.List.{append_assoc, append-nil}
use oort_agent.Utils.Process.{read_into_string}

-- What the stream gives up to its end.
unfoldable pub stream : List (Option Bytes) → Bytes
stream [] = []
stream (none ∷ reads) = []
stream (some [] ∷ reads) = []
stream (some (b ∷ chunk) ∷ reads) = (b ∷ chunk) ++ stream reads

-- Started with an output within the limit, read_into_string leaves an output within the limit, and
-- when it returns true it has added all that the stream gives up to its end.
pub read_into_string_lem :
    (max : ℕ) (reads : List (Option Bytes)) (output : Bytes)
    → length output ≤ max
    → (length (read_into_string max reads output).1 ≤ max)
      × ((read_into_string max reads output).0 ≡ true
          → (read_into_string max reads output).1 ≡ output ++ stream reads)
unfolding read_into_string stream
read_into_string_lem max [] output h = (h, λ e. sym (append-nil output))
read_into_string_lem max (none ∷ reads) output h = (h, λ e. absurd cc)
read_into_string_lem max (some [] ∷ reads) output h = elim (Bool-cases (ltb max (length output))) [
  | inl long ↦ rw (long, read_into_string) (h, λ e. absurd cc)
  | inr fits ↦ rw (fits, read_into_string) (h, λ e. sym (append-nil output))
]
read_into_string_lem max (some (b ∷ chunk) ∷ reads) output h =
    elim (Bool-cases (ltb max (length output + length (b ∷ chunk)))) [
      | inl long ↦ rw (long, read_into_string) (h, λ e. absurd cc)
      | inr fits ↦
          let (bound, whole) =
            read_into_string_lem max reads (output ++ b ∷ chunk)
              (ground (arith, fits, length-append output (b ∷ chunk))) in
          rw (fits, read_into_string)
            (bound, λ e. whole e ∙ append_assoc output (b ∷ chunk) (stream reads))
    ]
