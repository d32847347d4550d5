-- ===== src/Strategy/Confidence.antt =====
-- What the strategies of src/strategy share: the score as a confidence, order flow, optional values.
use crypto_scalper.Prelude.{ℕ, Bool, true, ◌&&◌, Option, none, some, if◌then◌else◌, string_eq}
use crypto_scalper.Prelude.Int.{pos_part}
use crypto_scalper.Float.{Float, ◌⊕◌, ◌<?◌, ◌≤?◌, lit, nought, clamp}
use crypto_scalper.Data.Types.{Side, long, short}

module _ {F : Type 0} ⦃f : Float F⦄ where
  -- `score.clamp(0.0, 100.0) as u8`.
  unfoldable pub as_confidence : F → ℕ
  as_confidence score = pos_part (f.to_ℤ (clamp score nought (lit 100)))

  -- `score += x` under a condition.
  unfoldable pub add_if : Bool → F → F → F
  add_if c x score = if c then score ⊕ x else score

  unfoldable pub within : F → F → F → Bool
  within lo hi x = lo ≤? x && x ≤? hi

  unfoldable pub or_else : F → Option F → F
  or_else d none = d
  or_else d (some x) = x

  -- The order flow goes the way of the trade.
  unfoldable pub is_aligned : Side → Option F → Bool
  is_aligned long ofi = nought <? or_else nought ofi
  is_aligned short ofi = or_else nought ofi <? nought

  -- `a < b` of two values that may be missing, which counts as true.
  unfoldable pub lt_or_missing : Option F → Option F → Bool
  lt_or_missing (some a) (some b) = a <? b
  lt_or_missing _ _ = true
