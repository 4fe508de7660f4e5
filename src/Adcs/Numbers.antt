-- ===== src/Adcs/Numbers.antt =====
-- The floating-point numbers of agent/server/impl/Adcs.cpp: `double`, the float32 of the bus, and
-- the numbers of the generated API types. The arithmetic and <cmath> are an interface; a literal
-- is given by its text.
use oort_agent.Base.{ℕ, ◌≡◌, ◌⊎◌, true, Bool, Bytes, codes, ℤ}

pub record Arithmetic : Type 1 where
  pub Double : Type 0
  pub Float : Type 0
  pub Api : Type 0
  pub widen : Float → Double
  pub to_api : Double → Api
  pub of_api : Api → Double
  pub fadd : Float → Float → Float
  pub fsub : Float → Float → Float
  pub fmul : Float → Float → Float
  pub literal : Bytes → Double
  pub m_pi : Double
  pub add : Double → Double → Double
  pub sub : Double → Double → Double
  pub mul : Double → Double → Double
  pub div : Double → Double → Double
  pub neg : Double → Double
  pub lt : Double → Double → Bool
  pub of_int : ℤ → Double
  pub to_int : Double → ℤ
  pub sqrt : Double → Double
  pub pow : Double → ℕ → Double
  pub fabs : Double → Double
  pub copysign : Double → Double → Double
  pub fmod : Double → Double → Double
  pub cos : Double → Double
  pub sin : Double → Double
  pub acos : Double → Double
  pub asin : Double → Double
  pub atan2 : Double → Double → Double

-- What C documents of copysign, fabs and the comparisons, for an argument beyond 1 on either side;
-- one that is not a number is on neither.
pub record IsSound (N : Arithmetic) : Type 0 where
  pub copysign_above :
      (a : N.Double)
      → N.lt (N.literal (codes "1.0")) a ≡ true
      → N.copysign (N.literal (codes "1.0")) a ≡ N.literal (codes "1.0")
  pub copysign_below :
      (a : N.Double)
      → N.lt a (N.neg (N.literal (codes "1.0"))) ≡ true
      → N.copysign (N.literal (codes "1.0")) a ≡ N.neg (N.literal (codes "1.0"))
  pub fabs_splits :
      (a : N.Double)
      → N.lt (N.literal (codes "1.0")) (N.fabs a) ≡ true
      → (N.lt (N.literal (codes "1.0")) a ≡ true)
        ⊎ (N.lt a (N.neg (N.literal (codes "1.0"))) ≡ true)
  pub fabs_above :
      (a : N.Double)
      → N.lt (N.literal (codes "1.0")) a ≡ true
      → N.lt (N.literal (codes "1.0")) (N.fabs a) ≡ true
  pub fabs_below :
      (a : N.Double)
      → N.lt a (N.neg (N.literal (codes "1.0"))) ≡ true
      → N.lt (N.literal (codes "1.0")) (N.fabs a) ≡ true
