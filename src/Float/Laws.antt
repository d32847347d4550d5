-- ===== src/Float/Laws.antt =====
-- What the theorems use of IEEE 754 comparisons and rounded arithmetic, as Rust's `f64` documents
-- it. NaN is the value that is not `<=` itself.
use crypto_scalper.Prelude.{ℕ, ◌*◌, ◌^◌, ◌≤◌, ◌<◌, ◌≡◌, ◌⊎◌, not}
use crypto_scalper.Prelude.Int.{pos, ◌≤ℤ◌}
use crypto_scalper.Float.{Float, ◌⊖◌, ◌⊗◌, ◌⊘◌, ◌≺◌, ◌≼◌, IsNumber, IsFinite}

-- The order.
pub record IsOrdered (F : Type 0) ⦃f : Float F⦄ : Type 0 where
  pub numbers_of_le : (x y : F) → x ≼ y → IsNumber x × IsNumber y
  pub le_trans : (x y z : F) → x ≼ y → y ≼ z → x ≼ z
  pub le_of_lt : (x y : F) → x ≺ y → x ≼ y
  pub lt-eq-not-le : (x y : F) → IsNumber x → IsNumber y → f.lt x y ≡ not (f.le y x)
  pub dec_mono : (m e n k : ℕ) → m * 10 ^ k ≤ n * 10 ^ e → f.dec m e ≼ f.dec n k
  pub finite_number : (x : F) → IsFinite x → IsNumber x
  pub min_choice : (x y : F) → (f.min x y ≡ x) ⊎ (f.min x y ≡ y)
  pub max_choice : (x y : F) → (f.max x y ≡ x) ⊎ (f.max x y ≡ y)
  pub min-le_left : (x y : F) → IsNumber x → f.min x y ≼ x
  pub min-le_right : (x y : F) → IsNumber y → f.min x y ≼ y
  pub le-max_left : (x y : F) → IsNumber x → x ≼ f.max x y
  pub le-max_right : (x y : F) → IsNumber y → y ≼ f.max x y

-- Signs and sizes of rounded results. A product or a quotient of infinities and zeros may be NaN,
-- so that a factor or a divisor is positive and finite.
pub record IsRounded (F : Type 0) ⦃f : Float F⦄ : Type 0 where
  pub dec_finite : (m e : ℕ) → m ≤ 1000000000 → IsFinite (f.dec m e)
  pub abs_sub_self : (x : F) → IsFinite x → f.abs (x ⊖ x) ≼ f.dec 0 0
  pub div_nonpos : (x y : F) → x ≼ f.dec 0 0 → f.dec 0 0 ≺ y → IsFinite y → x ⊘ y ≼ f.dec 0 0
  pub lit_positive : (n : ℕ) → 0 < n → f.dec 0 0 ≺ f.dec n 0
  pub mul_nonpos : (x y : F) → x ≼ f.dec 0 0 → f.dec 0 0 ≺ y → IsFinite y → x ⊗ y ≼ f.dec 0 0
  pub mul_zero : (x : F) → IsFinite x → x ⊗ f.dec 0 0 ≼ f.dec 0 0
  pub half-le : (x : F) → f.dec 0 0 ≼ x → x ⊗ f.dec 5 1 ≼ x
  pub to_ℤ_le : (x : F) (n : ℕ) → x ≼ f.dec n 0 → n ≤ 1000 → f.to_ℤ x ≤ℤ pos n
  pub le_to_ℤ : (x : F) → f.dec 0 0 ≼ x → pos 0 ≤ℤ f.to_ℤ x
