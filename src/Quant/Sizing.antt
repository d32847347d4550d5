-- ===== src/Quant/Sizing.antt =====
-- src/quant.rs: `compute_sizing`, each of its steps as a factor of the size and the reasons it adds.
use crypto_scalper.Quant.Types.{QuantSizingResult, QuantSizingInput}
use crypto_scalper.Portfolio.{kelly_fraction}
use crypto_scalper.Quant.{avg_loss, avg_win, outcomes_win_rate, total_trades, QuantEngine}
use crypto_scalper.Quant.Factors.{
  ic_adjustment, var_check, kalman_direction, correlation_cluster_penalty, vol_target_multiplier,
}
use crypto_scalper.Prelude.{Bool, false, ◌&&◌, List, [], ◌∷◌, ◌++◌, leb, if◌then◌else◌, string_eq}
use crypto_scalper.Prelude.Int.{ℤ, pos, ltb_ℤ, leb_ℤ}
use crypto_scalper.Float.{Float, ◌⊖◌, ◌⊗◌, ◌⊘◌, ◌<?◌, dec, lit, nought, clamp}
use crypto_scalper.Text.{Text}
use crypto_scalper.Data.Types.{Side, long, short}

-- `reasons.join(" | ")`.
unfoldable pub join : {F : Type 0} → List (Text F) → Text F
join [] = Text.empty
join (x ∷ []) = x
join (x ∷ y ∷ xs) = Text.joined x (join (y ∷ xs))

unfoldable pub agrees : Side → ℤ → Bool
agrees long dir = ltb_ℤ (pos 0) dir
agrees short dir = ltb_ℤ dir (pos 0)

module _ {F : Type 0} ⦃f : Float F⦄ where
  unfoldable pub is_warm : QuantEngine F → Bool
  is_warm e = leb e.cfg.kelly_min_trades (total_trades e.trade_outcomes)

  unfoldable pub kelly_of : QuantEngine F → F
  kelly_of e =
      let o = e.trade_outcomes in
      if is_warm e
      then kelly_fraction (outcomes_win_rate o) (avg_win o) (avg_loss o) e.cfg.kelly_cap
      else nought

  unfoldable pub kelly_reason : QuantEngine F → Text F
  kelly_reason e =
      let o = e.trade_outcomes in
      if is_warm e
      then Text.kelly (kelly_of e) (outcomes_win_rate o ⊗ lit 100) (avg_win o) (avg_loss o)
      else Text.kelly_cold (total_trades o) e.cfg.kelly_min_trades

  unfoldable pub apply_kelly : F → F → F → F
  apply_kelly kelly base_risk_pct size_mult =
      if nought <? kelly
      then size_mult ⊗ f.min (kelly ⊘ f.max base_risk_pct (dec 1 2)) (lit 2)
      else size_mult

  unfoldable pub vol_reasons : F → List (Text F)
  vol_reasons vol_mult =
      if dec 5 2 <? f.abs (vol_mult ⊖ lit 1) then Text.vol_mult vol_mult ∷ [] else []

  unfoldable pub var_reasons : Bool → List (Text F)
  var_reasons rejected = if rejected then Text.plain "VaR cap exceeded" ∷ [] else []

  unfoldable pub ic_reasons : ℤ → List (Text F)
  ic_reasons adj = if leb_ℤ adj (pos 0) && leb_ℤ (pos 0) adj then [] else Text.ic_adj adj ∷ []

  -- The trend against the trade, or with it.
  unfoldable pub apply_kalman : Side → ℤ → F → F
  apply_kalman long dir size_mult =
      if ltb_ℤ dir (pos 0)
      then size_mult ⊗ dec 7 1
      else if ltb_ℤ (pos 0) dir
      then size_mult ⊗ dec 115 2
      else size_mult
  apply_kalman short dir size_mult =
      if ltb_ℤ (pos 0) dir
      then size_mult ⊗ dec 7 1
      else if ltb_ℤ dir (pos 0)
      then size_mult ⊗ dec 115 2
      else size_mult

  unfoldable pub kalman_reasons : Side → ℤ → List (Text F)
  kalman_reasons side dir =
      let name = if ltb_ℤ (pos 0) dir then "kalman=bullish" else "kalman=bearish" in
      let verdict = if agrees side dir then "kalman-confirm: +15%" else "kalman-contradict: -30%" in
      if leb_ℤ dir (pos 0) && leb_ℤ (pos 0) dir
      then []
      else Text.plain name ∷ Text.plain verdict ∷ []

  unfoldable pub apply_penalty : F → F → F
  apply_penalty penalty size_mult = if penalty <? lit 1 then size_mult ⊗ penalty else size_mult

  unfoldable pub penalty_reasons : F → List (Text F)
  penalty_reasons penalty =
      if penalty <? lit 1 then Text.corr_penalty (penalty ⊗ lit 100) ∷ [] else []

  -- The factor before it is clamped.
  unfoldable pub raw_multiplier : QuantEngine F → QuantSizingInput F → F
  raw_multiplier e input = apply_penalty (correlation_cluster_penalty input.symbol e.returns) (
      apply_kalman input.side (kalman_direction input.symbol input.entry e) (
        apply_kelly (kelly_of e) input.base_risk_pct (lit 1)
        ⊗ vol_target_multiplier input.symbol e))

  unfoldable pub reasons_of : QuantEngine F → QuantSizingInput F → List (Text F)
  reasons_of e input =
      kelly_reason e ∷ vol_reasons (vol_target_multiplier input.symbol e)
      ++ (var_reasons (var_check input.symbol input.entry input.stop_loss input.equity e)
          ++ (ic_reasons (ic_adjustment input.strategy e)
              ++ (kalman_reasons input.side (kalman_direction input.symbol input.entry e)
                  ++ penalty_reasons (correlation_cluster_penalty input.symbol e.returns))))

  unfoldable pub compute_sizing : QuantEngine F → QuantSizingInput F → QuantSizingResult F
  compute_sizing e input =
      if e.cfg.enabled
      then record {
        size_multiplier = clamp (raw_multiplier e input) (dec 1 1) (lit 3);
        kelly_fraction = kelly_of e;
        vol_multiplier = vol_target_multiplier input.symbol e;
        var_rejected = var_check input.symbol input.entry input.stop_loss input.equity e;
        ic_adjustment = ic_adjustment input.strategy e;
        kalman_direction = kalman_direction input.symbol input.entry e;
        reason = join (reasons_of e input);
      }
      else record {
        size_multiplier = lit 1;
        kelly_fraction = nought;
        vol_multiplier = lit 1;
        var_rejected = false;
        ic_adjustment = pos 0;
        kalman_direction = pos 0;
        reason = Text.plain "quant disabled";
      }
