-- ===== src/Execution/Position/Ids.antt =====
-- The rules of src/execution/position.rs leave the id of a position alone.
use crypto_scalper.Execution.Position.Book.{changed}
use crypto_scalper.Execution.Position.{
  check_position, move_to_breakeven, Position, outcome, check_long, trail_short, trail_long,
  activate_trailing, check_side, check_short, PositionConfig,
}
use crypto_scalper.Prelude.{String, ◌≡◌, arith, string_eq}
use crypto_scalper.Float.{Float, ◌⊖◌, ◌⊘◌}
use crypto_scalper.Time.{Time}
use crypto_scalper.Data.Types.{Side, long, short}

module _ {F T : Type 0} ⦃f : Float F⦄ ⦃t : Time T⦄ (cfg : PositionConfig F) where
  trail_long-id :
      (price : F) (p : Position F T) → (changed (trail_long cfg price p)).client_id ≡ p.client_id
  unfolding trail_long
  trail_long-id price p = ground arith

  trail_short-id :
      (price : F) (p : Position F T) → (changed (trail_short cfg price p)).client_id ≡ p.client_id
  unfolding trail_short
  trail_short-id price p = ground arith

  armed-id :
      (profit_r : F) (p : Position F T)
      → (activate_trailing cfg profit_r (move_to_breakeven cfg profit_r p)).client_id ≡ p.client_id
  unfolding activate_trailing move_to_breakeven
  armed-id profit_r p = ground arith

  check_long-id :
      (r price : F) (p : Position F T)
      → (changed (check_long cfg r price p)).client_id ≡ p.client_id
  unfolding check_long
  check_long-id r price p =
      let profit_r = (price ⊖ p.entry_price) ⊘ r in
      let q = activate_trailing cfg profit_r (move_to_breakeven cfg profit_r p) in
      ground (arith, armed-id profit_r p, trail_long-id price q)

  check_short-id :
      (r price : F) (p : Position F T)
      → (changed (check_short cfg r price p)).client_id ≡ p.client_id
  unfolding check_short
  check_short-id r price p =
      let profit_r = (p.entry_price ⊖ price) ⊘ r in
      let q = activate_trailing cfg profit_r (move_to_breakeven cfg profit_r p) in
      ground (arith, armed-id profit_r p, trail_short-id price q)

  check_side-id :
      (s : Side) (r price : F) (p : Position F T)
      → (changed (check_side s cfg r price p)).client_id ≡ p.client_id
  unfolding check_side
  check_side-id long = check_long-id
  check_side-id short = check_short-id

  pub outcome-id :
      (symbol : String) (now : T) (price : F) (p : Position F T)
      → (changed (outcome symbol cfg now price p)).client_id ≡ p.client_id
  unfolding outcome check_position
  outcome-id symbol now price p =
      ground (arith, check_side-id p.side (f.abs (p.entry_price ⊖ p.stop_loss)) price p)
