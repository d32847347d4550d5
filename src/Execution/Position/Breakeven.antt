-- ===== src/Execution/Position/Breakeven.antt =====
-- Positions whose stop stands at the entry, in src/execution/position.rs.
use crypto_scalper.Data.Types.{Side, long, short}
use crypto_scalper.Prelude.{sym, ◌∙◌, arith, false, ◌≡◌}
use crypto_scalper.Execution.Position.{
  move_to_breakeven, activate_trailing, trail_long, trail_short, check_long, check_side,
  check_short, true, keep, Position, PositionConfig, check_position,
}
use crypto_scalper.Float.Laws.{IsRounded}
use crypto_scalper.Time.{Time}
use crypto_scalper.Float.{◌⊖◌, IsFinite, Float}

module _ {F T : Type 0} ⦃f : Float F⦄ ⦃t : Time T⦄ (rounded : IsRounded F) where
  -- A position whose stop stands at its finite entry price is kept unchanged by `check_exits`, at
  -- every price, at every time and under every configuration: neither the stop, nor the target, nor
  -- the trailing stop, nor the holding time closes it.
  pub check_position-at_entry :
      (cfg : PositionConfig F) (now : T) (price : F) (p : Position F T)
      → p.stop_loss ≡ p.entry_price
      → IsFinite p.entry_price
      → check_position cfg now price p ≡ keep p
  unfolding check_position
  check_position-at_entry cfg now price p e n = rw (e, rounded.abs_sub_self p.entry_price n)

  moved_long :
      (cfg : PositionConfig F) (r price : F) (p q : Position F T)
      → p.breakeven_activated ≡ false
      → check_long cfg r price p ≡ keep q
      → q.breakeven_activated ≡ true
      → q.trailing_activated ≡ false
      → (q.stop_loss ≡ p.entry_price) × (q.entry_price ≡ p.entry_price)
  unfolding check_long trail_long activate_trailing move_to_breakeven
  moved_long cfg r price p q b h k s = ground arith

  moved_short :
      (cfg : PositionConfig F) (r price : F) (p q : Position F T)
      → p.breakeven_activated ≡ false
      → check_short cfg r price p ≡ keep q
      → q.breakeven_activated ≡ true
      → q.trailing_activated ≡ false
      → (q.stop_loss ≡ p.entry_price) × (q.entry_price ≡ p.entry_price)
  unfolding check_short trail_short activate_trailing move_to_breakeven
  moved_short cfg r price p q b h k s = ground arith

  moved_side :
      (s : Side) (cfg : PositionConfig F) (r price : F) (p q : Position F T)
      → p.breakeven_activated ≡ false
      → check_side s cfg r price p ≡ keep q
      → q.breakeven_activated ≡ true
      → q.trailing_activated ≡ false
      → (q.stop_loss ≡ p.entry_price) × (q.entry_price ≡ p.entry_price)
  unfolding check_side
  moved_side long = moved_long
  moved_side short = moved_short

  moved :
      (cfg : PositionConfig F) (now : T) (price : F) (p q : Position F T)
      → p.breakeven_activated ≡ false
      → check_position cfg now price p ≡ keep q
      → q.breakeven_activated ≡ true
      → q.trailing_activated ≡ false
      → (q.stop_loss ≡ p.entry_price) × (q.entry_price ≡ p.entry_price)
  unfolding check_position
  moved cfg now price p q b h k s =
      ground (arith, moved_side p.side cfg (f.abs (p.entry_price ⊖ p.stop_loss)) price p q b)

  -- The step to breakeven leads there: a position that a round keeps and moves to breakeven, while
  -- its trailing stop is not active, is kept unchanged by every later round, at every price and time,
  -- if its entry price is finite.
  pub breakeven_disarms :
      (cfg : PositionConfig F) (now later : T) (price next : F) (p q : Position F T)
      → p.breakeven_activated ≡ false
      → check_position cfg now price p ≡ keep q
      → q.breakeven_activated ≡ true
      → q.trailing_activated ≡ false
      → IsFinite p.entry_price
      → check_position cfg later next q ≡ keep q
  breakeven_disarms cfg now later price next p q b h k s n =
      let (stop, entry) = moved cfg now price p q b h k s in
      check_position-at_entry cfg later next q (stop ∙ sym entry) (rw entry n)
