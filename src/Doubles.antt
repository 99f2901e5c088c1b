-- ===== src/Doubles.antt =====
-- The floating-point operations of the sensors, as <cmath> and <iostream> have them. A literal is given
-- by its text.
use astartis_codex_control_p.Base.{ℕ, String, Bool, Option, none, some, if◌then◌else◌, ℤ}

pub record Doubles : Type 1 where
  pub Double : Type 0
  pub literal : String → Double
  pub of_nat : ℕ → Double
  pub add : Double → Double → Double
  pub sub : Double → Double → Double
  pub mul : Double → Double → Double
  pub div : Double → Double → Double
  pub lt : Double → Double → Bool
  pub le : Double → Double → Bool
  pub sqrt : Double → Double
  pub cos : Double → Double
  pub sin : Double → Double
  pub log : Double → Double
  pub log2 : Double → Double
  pub nan : Double
  -- std::numeric_limits<double>::max()
  pub largest : Double
  pub is_nan : Double → Bool
  -- static_cast<int>(std::round(x))
  pub rounded : Double → ℤ
  -- std::fixed and std::setprecision
  pub fixed : ℕ → Double → String

module _ (D : Doubles) where
  -- std::max and std::min
  abbrev pub max : D.Double → D.Double → D.Double
  max a b = if D.lt a b then b else a

  abbrev pub min : D.Double → D.Double → D.Double
  min a b = if D.lt b a then b else a

-- A value behind another; none stands for a read out of range, which C++ leaves undefined.
unfoldable pub bind : {A B : Type 0} → Option A → (A → Option B) → Option B
bind none f = none
bind (some a) f = f a
