-- ===== src/Strategy/Selection.antt =====
-- src/strategy/mod.rs: the strategies that a regime prefers.
use crypto_scalper.Indicators.Bollinger.{BollingerBand}
use crypto_scalper.Agents.RiskAgent.{or_zero}
use crypto_scalper.Strategy.Squeeze.{squeeze_from, evaluate_squeeze}
use crypto_scalper.Strategy.EmaRibbon.{evaluate_ema_ribbon}
use crypto_scalper.Strategy.VwapScalp.{evaluate_vwap_scalp}
use crypto_scalper.Strategy.Momentum.{evaluate_momentum}
use crypto_scalper.Strategy.Regime.{trend_of, regime_from, is_squeezed, regime_at, detect}
use crypto_scalper.Strategy.MeanReversion.{evaluate_mean_reversion}
use crypto_scalper.Strategy.Signal.{
  PreSignal, StrategyName, Regime, mean_reversion, momentum, vwap_scalp, ema_ribbon, squeeze,
  trending_bullish, trending_bearish, ranging, volatile, squeezing, unknown,
}
use crypto_scalper.Strategy.State.{SymbolState}
use crypto_scalper.Prelude.{
  ◌≡◌, refl, inl, inr, Bool, true, false, ◌||◌, Option, none, some, List, [], ◌∷◌, arith,
  Bool-cases, string_eq, filter, All,
}
use crypto_scalper.Float.{Float, lit}
use crypto_scalper.Data.Types.{Candle}

unfoldable pub same_strategy : StrategyName → StrategyName → Bool
same_strategy mean_reversion mean_reversion = true
same_strategy momentum momentum = true
same_strategy vwap_scalp vwap_scalp = true
same_strategy ema_ribbon ema_ribbon = true
same_strategy squeeze squeeze = true
same_strategy _ _ = false

unfoldable pub is_active : List StrategyName → StrategyName → Bool
is_active [] n = false
is_active (a ∷ active) n = same_strategy a n || is_active active n

unfoldable pub preferred : Regime → List StrategyName
preferred trending_bullish = ema_ribbon ∷ momentum ∷ []
preferred trending_bearish = ema_ribbon ∷ momentum ∷ []
preferred ranging = mean_reversion ∷ vwap_scalp ∷ ema_ribbon ∷ []
preferred volatile = squeeze ∷ momentum ∷ []
preferred squeezing = squeeze ∷ []
preferred unknown = vwap_scalp ∷ mean_reversion ∷ ema_ribbon ∷ []

unfoldable pub select_strategies : List StrategyName → Regime → List StrategyName
select_strategies active regime = filter (is_active active) (preferred regime)

All-filter :
    (P : StrategyName → Type 0) (active : List StrategyName)
    → P squeeze
    → All P (select_strategies active squeezing)
unfolding select_strategies preferred
All-filter P active p = elim (Bool-cases (is_active active squeeze)) [
  | inl on ↦ rw on ((p, tt))
  | inr off ↦ rw off tt
]

module _ {F T : Type 0} ⦃f : Float F⦄ where
  -- `evaluate` of the strategy of a name.
  unfoldable pub evaluate_strategy :
      StrategyName → SymbolState F T → Candle F T → Option (PreSignal F)
  evaluate_strategy mean_reversion = evaluate_mean_reversion
  evaluate_strategy momentum = evaluate_momentum
  evaluate_strategy vwap_scalp = evaluate_vwap_scalp
  evaluate_strategy ema_ribbon = evaluate_ema_ribbon
  evaluate_strategy squeeze = evaluate_squeeze

  squeezed-at :
      (adx : F) (s : SymbolState F T)
      → regime_at adx s ≡ squeezing
      → is_squeezed s.last_bb s.last_keltner_upper s.last_keltner_lower
          (or_zero (lit 50) s.last_choppiness)
        ≡ true
  unfolding regime_at trend_of
  squeezed-at adx s h = ground arith

  squeezed-from :
      (adx : Option F) (s : SymbolState F T)
      → regime_from adx s ≡ squeezing
      → is_squeezed s.last_bb s.last_keltner_upper s.last_keltner_lower
          (or_zero (lit 50) s.last_choppiness)
        ≡ true
  unfolding regime_from
  squeezed-from none s h = absurd (ground arith)
  squeezed-from (some adx) s h = squeezed-at adx s h

  waits :
      (bb : Option (BollingerBand F)) (upper lower atr : Option F) (chop : F) (s : SymbolState F T)
      (close : F)
      → is_squeezed bb upper lower chop ≡ true
      → squeeze_from bb upper lower atr s close ≡ none
  unfolding is_squeezed squeeze_from
  waits none upper lower atr chop s close h = refl
  waits (some bb) none lower atr chop s close h = refl
  waits (some bb) (some u) none atr chop s close h = refl
  waits (some bb) (some u) (some l) none chop s close h = refl
  waits (some bb) (some u) (some l) (some atr) chop s close h = ground arith

  -- In the squeeze regime no selected strategy gives a signal, whatever strategies are active: only
  -- the squeeze strategy is preferred, and it waits for as long as the condition of that regime
  -- holds.
  pub squeeze_silent :
      (s : SymbolState F T) (c : Candle F T) (active : List StrategyName)
      → detect s ≡ squeezing
      → All (λ n. evaluate_strategy n s c ≡ none) (select_strategies active (detect s))
  unfolding detect evaluate_strategy evaluate_squeeze
  squeeze_silent s c active h = rw h (
      All-filter (λ n. evaluate_strategy n s c ≡ none) active
        (waits s.last_bb s.last_keltner_upper s.last_keltner_lower s.last_atr _ s c.close
          (squeezed-from s.last_adx s h)))
