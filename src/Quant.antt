-- ===== src/Quant.antt =====
-- src/quant.rs: the engine that adjusts the size of a trade.
pub mod Types
pub mod Factors
pub mod Sizing
pub mod Kelly
pub mod Limits
use crypto_scalper.Portfolio.{
  volatility_target_multiplier, historical_cvar, variance, pearson_correlation,
}
use crypto_scalper.Strategy.Kalman.{trend_score, update_trend, KalmanTrend, new_kalman}
use crypto_scalper.Research.Ic.{ic, record_observation, IcTracker, new_ic}
use crypto_scalper.Prelude.{
  drop, ℕ, zero, suc, ◌+◌, ◌-◌, ◌*◌, ◌/◌, ◌%◌, ◌^◌, ◌≤◌, ◌<◌, String, ◌≡◌, refl, sym, ap, ◌∙◌, ◌≢◌,
  ◌↔◌, ◌⊎◌, inl, inr, Bool, true, false, not, ◌&&◌, ◌||◌, Option, none, some, List, [], ◌∷◌, ◌++◌,
  map, arith, ltb, leb, ◌==◌, if◌then◌else◌, Bool-cases, Option-cases, Result, ok, err, Eq,
  string_eq, is_some, length, get_elem?, set, take_while, drop_while, take, length-append, filter,
  All, All-append,
}
use crypto_scalper.Float.{
  sum, Float, ◌⊕◌, ◌⊖◌, ◌⊗◌, ◌⊘◌, ◌<?◌, ◌≤?◌, ◌≺◌, ◌≼◌, dec, lit, nought, clamp, IsNumber, IsFinite,
}
use crypto_scalper.Prelude.Dict.{
  upsert, Dict, lookup, insert, remove, lookup-insert, lookup-remove, lookup-insert_self, beq_refl,
  IsDistinct, insert-IsDistinct,
}
use crypto_scalper.Prelude.Int.{
  ℤ, pos, negsuc, pos_part, neg_part, ◌+ℤ◌, ◌-ℤ◌, ◌≤ℤ◌, ◌<ℤ◌, ltb_ℤ, leb_ℤ, min_ℤ, clamp_ℤ,
}
use crypto_scalper.Float.Laws.{IsOrdered, IsRounded}
use crypto_scalper.Time.{Time, IsTimeline}
use crypto_scalper.Text.{Text, text_or_default}
use crypto_scalper.Data.Types.{Side, long, short, Candle, Trade}
use crypto_scalper.Quant.Types.{QuantSizingInput, QuantSizingResult}

pub record QuantConfig (F : Type 0) : Type 0 where
  pub enabled : Bool
  pub kelly_cap : F
  pub kelly_min_trades : ℕ
  pub target_vol_annual : F
  pub max_vol_multiplier : F
  pub vol_window : ℕ
  pub var_confidence : F
  pub max_var_pct : F
  pub ic_window : ℕ
  pub ic_min_abs : F
  pub ic_max_boost : ℕ  -- u8
  pub kalman_process_noise : F
  pub kalman_measurement_noise : F
  pub kalman_min_velocity_bps : F

-- The newest outcome stands at the end.
pub record TradeOutcomes (F : Type 0) : Type 0 where
  pub wins : List F
  pub losses : List F

pub record QuantEngine (F : Type 0) : Type 0 where
  pub cfg : QuantConfig F
  pub kalman : Dict String (KalmanTrend F)
  pub ic_trackers : Dict String (IcTracker F)
  pub returns : Dict String (List F)
  pub trade_outcomes : TradeOutcomes F

-- `remove(0)` where there are more than `limit` elements.
unfoldable pub keep_last : {A : Type 0} → ℕ → List A → List A
keep_last limit xs = if ltb limit (length xs) then drop 1 xs else xs

module _ {F : Type 0} ⦃f : Float F⦄ where
  unfoldable pub default_quant_config : QuantConfig F
  default_quant_config = record {
    enabled = true;
    kelly_cap = dec 25 2;
    kelly_min_trades = 20;
    target_vol_annual = dec 15 2;
    max_vol_multiplier = lit 2;
    vol_window = 60;
    var_confidence = dec 95 2;
    max_var_pct = dec 3 2;
    ic_window = 50;
    ic_min_abs = dec 5 2;
    ic_max_boost = 10;
    kalman_process_noise = dec 1 2;
    kalman_measurement_noise = lit 1;
    kalman_min_velocity_bps = lit 3;
  }

  unfoldable pub new_engine : QuantConfig F → QuantEngine F
  new_engine cfg = record {
    cfg = cfg;
    kalman = [];
    ic_trackers = [];
    returns = [];
    trade_outcomes = record { wins = []; losses = [] };
  }

  unfoldable pub push_pnl : F → TradeOutcomes F → TradeOutcomes F
  push_pnl pnl o =
      if nought <? pnl
      then record o { wins = o.wins ++ pnl ∷ [] }
      else if pnl <? nought
      then record o { losses = o.losses ++ f.abs pnl ∷ [] }
      else o

  -- `TradeOutcomes::record`.
  unfoldable pub record_outcome : F → TradeOutcomes F → TradeOutcomes F
  record_outcome pnl o =
      let pushed = push_pnl pnl o in
      record { wins = keep_last 200 pushed.wins; losses = keep_last 200 pushed.losses }

  unfoldable pub total_trades : TradeOutcomes F → ℕ
  total_trades o = length o.wins + length o.losses

  unfoldable pub outcomes_win_rate : TradeOutcomes F → F
  outcomes_win_rate o =
      if total_trades o == 0 then dec 5 1 else f.of_ℕ (length o.wins) ⊘ f.of_ℕ (total_trades o)

  unfoldable pub average_or_one : List F → F
  average_or_one xs = if length xs == 0 then lit 1 else sum xs ⊘ f.of_ℕ (length xs)

  unfoldable pub avg_win : TradeOutcomes F → F
  avg_win o = average_or_one o.wins

  unfoldable pub avg_loss : TradeOutcomes F → F
  avg_loss o = average_or_one o.losses

  unfoldable pub record_trade : F → QuantEngine F → QuantEngine F
  record_trade pnl e = record e { trade_outcomes = record_outcome pnl e.trade_outcomes }

  unfoldable pub record_return : String → F → QuantEngine F → QuantEngine F
  record_return symbol ret e = if not (f.is_finite ret) then e else record e {
    returns =
        upsert [] symbol (λ hist. keep_last (e.cfg.vol_window * 2) (hist ++ ret ∷ [])) e.returns;
  }

  unfoldable pub record_ic_observation : String → F → F → QuantEngine F → QuantEngine F
  record_ic_observation strategy signal_value forward_return e = record e {
    ic_trackers =
        upsert (new_ic e.cfg.ic_window) strategy (record_observation signal_value forward_return)
          e.ic_trackers;
  }

  unfoldable pub update_kalman : String → F → QuantEngine F → QuantEngine F
  update_kalman symbol price e = record e {
    kalman =
        upsert (new_kalman price e.cfg.kalman_process_noise e.cfg.kalman_measurement_noise) symbol
          (update_trend price) e.kalman;
  }
