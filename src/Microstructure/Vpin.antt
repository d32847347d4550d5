-- ===== src/Microstructure/Vpin.antt =====
-- src/microstructure/vpin.rs: the imbalance of traded volume, in buckets.

use crypto_scalper.Microstructure.Ofi.{trim}
use crypto_scalper.Portfolio.{mean}
use crypto_scalper.Prelude.Dict.{pair_eq}
use crypto_scalper.Prelude.{
  ℕ, Option, none, some, List, [], ◌∷◌, ◌++◌, ltb, if◌then◌else◌, string_eq, length,
}
use crypto_scalper.Float.{Float, ◌⊕◌, ◌⊖◌, ◌⊘◌, ◌<?◌, dec, nought}

pub record Vpin (F : Type 0) : Type 0 where
  pub bucket_size : F
  pub window : ℕ
  pub current_buy : F
  pub current_sell : F
  pub buckets : List F

module _ {F : Type 0} ⦃f : Float F⦄ where
  unfoldable pub new_vpin : F → ℕ → Vpin F
  new_vpin bucket_size window = record {
    bucket_size = f.max bucket_size (dec 1 9);
    window = if ltb window 1 then 1 else window;
    current_buy = nought;
    current_sell = nought;
    buckets = [];
  }

  unfoldable pub vpin_value : Vpin F → Option F
  vpin_value v = if ltb (length v.buckets) v.window then none else some (mean v.buckets)

  -- A bucket that is full is closed.
  unfoldable pub close_bucket : Vpin F → Vpin F
  close_bucket v =
      let imbalance =
        f.abs (v.current_buy ⊖ v.current_sell) ⊘ f.max (v.current_buy ⊕ v.current_sell) (dec 1 9) in
      record v {
        buckets = trim v.window (v.buckets ++ imbalance ∷ []);
        current_buy = nought;
        current_sell = nought;
      }

  unfoldable pub update_vpin : F → F → Vpin F → Vpin F × Option F
  update_vpin buy_volume sell_volume v =
      let added = record v {
        current_buy = v.current_buy ⊕ f.max buy_volume nought;
        current_sell = v.current_sell ⊕ f.max sell_volume nought;
      } in
      let next =
        if added.current_buy ⊕ added.current_sell <? v.bucket_size
        then added
        else close_bucket added in
      (next, vpin_value next)
