-- ===== src/Base/Assoc.antt =====
-- Maps from strings as association lists.
use mathlib.Core.Path.{◌≡◌}
use mathlib.Core.List.{List, [], ◌∷◌}
use mathlib.Core.Option.{Option, none, some}
use native.Mathlib.Omega.{arith}
use oort_agent.Base.Compare.{if◌then◌else◌}
use oort_agent.Base.Text.{Bytes, bytes_eq, bytes_eq_iff}

module _ {ℓ} {V : Type ℓ} where
  unfoldable pub lookup : Bytes → List (Bytes × V) → Option V
  lookup q [] = none
  lookup q ((k, v) ∷ m) = if bytes_eq q k then some v else lookup q m

  unfoldable pub erase : Bytes → List (Bytes × V) → List (Bytes × V)
  erase k [] = []
  erase k ((j, v) ∷ m) = let rest = erase k m in if bytes_eq j k then rest else (j, v) ∷ rest

  pub lookup-erase :
      (q k : Bytes) (m : List (Bytes × V))
      → lookup q (erase k m) ≡ (if bytes_eq q k then none else lookup q m)
  unfolding lookup erase
  lookup-erase q k [] = ground arith
  lookup-erase q k ((j, v) ∷ m) =
      ground (arith, lookup-erase q k m, bytes_eq_iff q j, bytes_eq_iff j k, bytes_eq_iff q k)
