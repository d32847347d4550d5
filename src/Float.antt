-- ===== src/Float.antt =====
-- `f64`: the operations that the program uses, as an interface. The type and its operations are a
-- parameter of every module that computes with floats; Float/Laws states the laws that theorems
-- rely on, and Float/Fixed is an executable instance.
pub mod Laws
pub mod Fixed
pub mod Order
use crypto_scalper.Prelude.{ℕ, Bool, true, ◌≡◌, if◌then◌else◌, List, [], ◌∷◌}
use crypto_scalper.Prelude.Int.{ℤ}

pub record Float (F : Type 0) : Type 0 where
  pub dec : ℕ → ℕ → F  -- the literal `m / 10^e`, rounded
  pub infinity : F
  pub add : F → F → F
  pub sub : F → F → F
  pub mul : F → F → F
  pub div : F → F → F
  pub neg : F → F
  pub abs : F → F
  pub sqrt : F → F
  pub min : F → F → F  -- `f64::min`: a NaN is ignored
  pub max : F → F → F
  pub lt : F → F → Bool
  pub le : F → F → Bool
  pub is_finite : F → Bool
  pub of_ℕ : ℕ → F  -- `n as f64`
  pub round_ℕ : F → ℕ  -- `x.round() as usize`
  pub log10 : F → F
  pub floor : F → F
  pub ceil : F → F
  pub round : F → F
  pub to_usize : F → ℕ  -- `x as usize`, which saturates and takes NaN to 0
  pub to_ℤ : F → ℤ  -- `x as i32`, which saturates and takes NaN to 0

module _ {F : Type 0} ⦃f : Float F⦄ where
  infixl 65 ◌⊕◌ ◌⊖◌
  infixl 70 ◌⊗◌ ◌⊘◌
  infix 50 ◌<?◌ ◌≤?◌
  infix 4 ◌≺◌ ◌≼◌
  abbrev pub ◌⊕◌ : F → F → F
  a ⊕ b = f.add a b

  abbrev pub ◌⊖◌ : F → F → F
  a ⊖ b = f.sub a b

  abbrev pub ◌⊗◌ : F → F → F
  a ⊗ b = f.mul a b

  abbrev pub ◌⊘◌ : F → F → F
  a ⊘ b = f.div a b

  abbrev pub ◌<?◌ : F → F → Bool
  a <? b = f.lt a b

  abbrev pub ◌≤?◌ : F → F → Bool
  a ≤? b = f.le a b

  abbrev pub ◌≺◌ : F → F → Type 0
  a ≺ b = f.lt a b ≡ true

  abbrev pub ◌≼◌ : F → F → Type 0
  a ≼ b = f.le a b ≡ true

  abbrev pub dec : ℕ → ℕ → F
  dec = f.dec

  -- A literal without a fraction.
  abbrev pub lit : ℕ → F
  lit n = f.dec n 0

  abbrev pub nought : F
  nought = f.dec 0 0

  -- `f64::clamp`.
  abbrev pub clamp : F → F → F → F
  clamp x lo hi = if x <? lo then lo else if hi <? x then hi else x

  -- A value is a number when it is ordered with itself.
  abbrev pub IsNumber : F → Type 0
  IsNumber x = x ≼ x

  abbrev pub IsFinite : F → Type 0
  IsFinite x = f.is_finite x ≡ true

  -- `iter().sum::<f64>()`.
  abbrev pub sum_from : F → List F → F
  sum_from total [] = total
  sum_from total (x ∷ xs) = sum_from (total ⊕ x) xs

  abbrev pub sum : List F → F
  sum xs = sum_from nought xs
