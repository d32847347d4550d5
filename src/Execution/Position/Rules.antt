-- ===== src/Execution/Position/Rules.antt =====
-- The exit rules of src/execution/position.rs for one position.
use crypto_scalper.Prelude.{if◌then◌else◌, ◌⊎◌, inl, inr, arith, false, ◌&&◌, arith, ◌≡◌}
use crypto_scalper.Execution.Position.{
  held_too_long, nought, true, trail_short, Bool, check_side, check_short, check_position,
  trail_dist, stop_loss, time_exit, exit, keep, exit, PositionConfig, move_to_breakeven, keep,
  activate_trailing, Position, trail_long, check_long,
}
use crypto_scalper.Data.Types.{long, short, Side}
use crypto_scalper.Float.Laws.{IsOrdered}
use crypto_scalper.Time.{Time}
use crypto_scalper.Float.{◌⊕◌, IsNumber, ◌⊘◌, ◌≤?◌, ◌<?◌, ◌⊖◌, ◌≼◌, Float}

module _ {F : Type 0} ⦃f : Float F⦄ where
  -- A stop moves towards the profit.
  abbrev pub IsTighter : Side → F → F → Type 0
  IsTighter long old new = old ≼ new
  IsTighter short old new = new ≼ old

  -- A stop on the losing side of the entry, or at it.
  abbrev pub IsProtective : Side → F → F → Type 0
  IsProtective long stop entry = stop ≼ entry
  IsProtective short stop entry = entry ≼ stop

  -- The price has reached a stop that is set.
  abbrev pub is_hit : Side → F → F → Bool
  is_hit long stop price = nought <? stop && price ≤? stop
  is_hit short stop price = nought <? stop && stop ≤? price

module _ {F T : Type 0} ⦃f : Float F⦄ ⦃t : Time T⦄ where
  check_side-hit :
      (s : Side) (cfg : PositionConfig F) (r price : F) (p : Position F T)
      → is_hit s p.stop_loss price ≡ true
      → check_side s cfg r price p ≡ exit p stop_loss
  unfolding check_side check_long check_short
  check_side-hit long cfg r price p h = rw h
  check_side-hit short cfg r price p h = rw h

  -- A position whose stop is apart from its entry leaves the book once the price reaches the stop:
  -- by the stop, or by the holding time if that has run out.
  check_position-stops :
      (cfg : PositionConfig F) (now : T) (price : F) (p : Position F T)
      → (f.abs (p.entry_price ⊖ p.stop_loss) ≤? nought) ≡ false
      → is_hit p.side p.stop_loss price ≡ true
      → check_position cfg now price p
        ≡ (if held_too_long cfg now p then exit p time_exit else exit p stop_loss)
  unfolding check_position
  check_position-stops cfg now price p a h =
      rw (a, check_side-hit p.side cfg (f.abs (p.entry_price ⊖ p.stop_loss)) price p h)

module _ {F : Type 0} ⦃f : Float F⦄ (laws : IsOrdered F) where
  IsTighter-refl : (s : Side) (stop entry : F) → IsProtective s stop entry → IsTighter s stop stop
  IsTighter-refl long stop entry h = (laws.numbers_of_le stop entry h).0
  IsTighter-refl short stop entry h = (laws.numbers_of_le entry stop h).1

module _ {F T : Type 0} ⦃f : Float F⦄ ⦃t : Time T⦄ (laws : IsOrdered F) where
  trail_long-tighter :
      (cfg : PositionConfig F) (price : F) (p q : Position F T)
      → IsNumber p.stop_loss
      → trail_long cfg price p ≡ keep q
      → p.stop_loss ≼ q.stop_loss
  unfolding trail_long
  trail_long-tighter cfg price p q n e =
      ground
        (arith, n, laws.le_of_lt p.stop_loss (price ⊖ trail_dist cfg (price ⊖ p.entry_price) p))

  trail_short-tighter :
      (cfg : PositionConfig F) (price : F) (p q : Position F T)
      → IsNumber p.stop_loss
      → trail_short cfg price p ≡ keep q
      → q.stop_loss ≼ p.stop_loss
  unfolding trail_short
  trail_short-tighter cfg price p q n e =
      ground
        (arith, n, laws.le_of_lt (price ⊕ trail_dist cfg (p.entry_price ⊖ price) p) p.stop_loss)

  -- The position that `check_long` and `check_short` trail.
  abbrev armed : PositionConfig F → F → Position F T → Position F T
  armed cfg profit_r p = activate_trailing cfg profit_r (move_to_breakeven cfg profit_r p)

  armed_stop :
      (cfg : PositionConfig F) (profit_r : F) (p : Position F T)
      → let q = armed cfg profit_r p in (q.stop_loss ≡ p.stop_loss) ⊎ (q.stop_loss ≡ p.entry_price)
  unfolding activate_trailing move_to_breakeven
  armed_stop cfg profit_r p = ground arith

  check_long-tighter :
      (cfg : PositionConfig F) (r price : F) (p q : Position F T)
      → p.stop_loss ≼ p.entry_price
      → check_long cfg r price p ≡ keep q
      → p.stop_loss ≼ q.stop_loss
  unfolding check_long
  check_long-tighter cfg r price p q h e =
      let (low, high) = laws.numbers_of_le _ _ h in
      let profit_r = (price ⊖ p.entry_price) ⊘ r in
      let m = armed cfg profit_r p in
      ground (
        arith,
        low,
        high,
        armed_stop cfg profit_r p,
        trail_long-tighter cfg price m q,
        laws.le_trans p.stop_loss p.entry_price q.stop_loss h,
      )

  check_short-tighter :
      (cfg : PositionConfig F) (r price : F) (p q : Position F T)
      → p.entry_price ≼ p.stop_loss
      → check_short cfg r price p ≡ keep q
      → q.stop_loss ≼ p.stop_loss
  unfolding check_short
  check_short-tighter cfg r price p q h e =
      let (low, high) = laws.numbers_of_le _ _ h in
      let profit_r = (p.entry_price ⊖ price) ⊘ r in
      let m = armed cfg profit_r p in
      ground (
        arith,
        low,
        high,
        armed_stop cfg profit_r p,
        trail_short-tighter cfg price m q,
        λ (k : q.stop_loss ≼ p.entry_price).
            laws.le_trans q.stop_loss p.entry_price p.stop_loss k h,
      )

  check_side-IsTighter :
      (s : Side) (cfg : PositionConfig F) (r price : F) (p q : Position F T)
      → IsProtective s p.stop_loss p.entry_price
      → check_side s cfg r price p ≡ keep q
      → IsTighter s p.stop_loss q.stop_loss
  unfolding check_side
  check_side-IsTighter long = check_long-tighter
  check_side-IsTighter short = check_short-tighter

  check_position-keeps :
      (cfg : PositionConfig F) (now : T) (price : F) (p q : Position F T)
      → check_position cfg now price p ≡ keep q
      → (p ≡ q) ⊎ (check_side p.side cfg (f.abs (p.entry_price ⊖ p.stop_loss)) price p ≡ keep q)
  unfolding check_position
  check_position-keeps cfg now price p q e = ground arith

  -- A round never loosens a stop: for a position that stays, and whose stop was on the losing side of
  -- its entry or at it, the new stop is at least as high as the old one on a long position, and at
  -- least as low on a short one.
  pub check_position-IsTighter :
      (cfg : PositionConfig F) (now : T) (price : F) (p q : Position F T)
      → IsProtective p.side p.stop_loss p.entry_price
      → check_position cfg now price p ≡ keep q
      → IsTighter p.side p.stop_loss q.stop_loss
  check_position-IsTighter cfg now price p q h e = elim (check_position-keeps cfg now price p q e) [
    | inl same ↦ rw (← same) (IsTighter-refl laws p.side p.stop_loss p.entry_price h)
    | inr kept ↦ check_side-IsTighter p.side cfg _ price p q h kept
  ]
