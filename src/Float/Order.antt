-- ===== src/Float/Order.antt =====
-- Consequences of the order laws that several components share.
use crypto_scalper.Prelude.{◌≡◌, inl, inr, false, arith}
use crypto_scalper.Float.{Float, ◌≼◌, ◌≺◌, ◌≤?◌, ◌<?◌, clamp, IsNumber}
use crypto_scalper.Float.Laws.{IsOrdered}

module _ {F : Type 0} ⦃f : Float F⦄ (laws : IsOrdered F) where
  pub nought-IsNumber : IsNumber (f.dec 0 0)
  nought-IsNumber = laws.dec_mono 0 0 0 0 (omega arith)

  pub max-le : (x y : F) {c : F} → x ≼ c → y ≼ c → f.max x y ≼ c
  max-le x y h k = elim (laws.max_choice x y) [ inl e ↦ rw e h | inr e ↦ rw e k ]

  pub le_of_not_lt : (x y : F) → IsNumber x → IsNumber y → (x <? y) ≡ false → y ≼ x
  le_of_not_lt x y hx hy h = ground (arith, laws.lt-eq-not-le x y hx hy)

  pub lt_of_not_le : (x y : F) → IsNumber x → IsNumber y → (x ≤? y) ≡ false → y ≺ x
  lt_of_not_le x y hx hy h = ground (arith, laws.lt-eq-not-le y x hy hx)

  pub not_lt_of_le : (x y : F) → x ≼ y → (y <? x) ≡ false
  not_lt_of_le x y h =
      let (hx, hy) = laws.numbers_of_le x y h in ground (arith, laws.lt-eq-not-le y x hy hx)

  pub not_le_of_lt : (x y : F) → x ≺ y → (y ≤? x) ≡ false
  not_le_of_lt x y h =
      let (hx, hy) = laws.numbers_of_le x y (laws.le_of_lt x y h) in
      ground (arith, laws.lt-eq-not-le x y hx hy)

  -- A number that is clamped lies between the bounds.
  pub clamp_bounds :
      (x lo hi : F) → IsNumber x → lo ≼ hi → (lo ≼ clamp x lo hi) × (clamp x lo hi ≼ hi)
  clamp_bounds x lo hi n h =
      let (l, u) = laws.numbers_of_le lo hi h in
      ground (arith, laws.lt-eq-not-le x lo n l, laws.lt-eq-not-le hi x u n, l, u)
