-- ===== src/Strategy/Timeframes.antt =====
-- src/strategy/multi_timeframe.rs: the votes of several timeframes on a signal. The decay of a stale
-- signal, a power of a half, is left out.
use crypto_scalper.Float.{sum, Float, ◌⊗◌, ◌⊘◌, ◌≤?◌, lit, nought, clamp}
use crypto_scalper.Strategy.Signal.{PreSignal}
use crypto_scalper.Prelude.{Bool, List, map, if◌then◌else◌, string_eq}
use crypto_scalper.Prelude.Int.{ℤ}
use crypto_scalper.Data.Types.{Side, long, short}

pub data TimeframeVote : Type 0 where
  bullish bearish neutral : TimeframeVote

unfoldable pub vote_of : Side → TimeframeVote
vote_of long = bullish
vote_of short = bearish

pub record WeightedVote (F : Type 0) : Type 0 where
  pub timeframe_secs : ℤ
  pub vote : TimeframeVote
  pub weight : F

module _ {F : Type 0} ⦃f : Float F⦄ where
  unfoldable pub from_signal : PreSignal F → TimeframeVote
  from_signal signal = vote_of signal.side

  unfoldable pub sign_of : TimeframeVote → F
  sign_of bullish = lit 1
  sign_of bearish = f.neg (lit 1)
  sign_of neutral = nought

  unfoldable pub weights : List (WeightedVote F) → List F
  weights votes = map (λ v. f.max v.weight nought) votes

  unfoldable pub directions : List (WeightedVote F) → List F
  directions votes = map (λ v. sign_of v.vote ⊗ f.max v.weight nought) votes

  unfoldable pub aggregate_votes : List (WeightedVote F) → F
  aggregate_votes votes =
      if sum (weights votes) ≤? nought
      then nought
      else clamp (sum (directions votes) ⊘ sum (weights votes)) (f.neg (lit 1)) (lit 1)

  unfoldable pub confirms : Side → F → F → Bool
  confirms long aggregate min_abs = min_abs ≤? aggregate
  confirms short aggregate min_abs = aggregate ≤? f.neg min_abs

  unfoldable pub passes_timeframe_confirmation : PreSignal F → List (WeightedVote F) → F → Bool
  passes_timeframe_confirmation signal votes min_abs =
      confirms signal.side (aggregate_votes votes) min_abs
