-- ===== src/Execution/Position.antt =====
-- src/execution/position.rs: the book of open positions and its exit rules. `HashMap` is a `Dict`
-- from the client id; the lock is held for the whole of each method.
pub mod Rules
pub mod Breakeven
pub mod Book
pub mod Kept
pub mod Ids
use crypto_scalper.Time.{Time}
use crypto_scalper.Float.{lit, ◌⊘◌, dec, ◌⊗◌, ◌<?◌, ◌≤?◌, nought, ◌⊖◌, ◌⊕◌, Float}
use crypto_scalper.Prelude.{
  string_eq, true, not, ◌&&◌, if◌then◌else◌, Option, [], ◌∷◌, Bool, String, List,
}
use crypto_scalper.Prelude.Int.{ltb_ℤ, pos, ℤ}
use crypto_scalper.Prelude.Dict.{lookup, remove, insert, Dict}
use text.Mathlib.Text.{◌==◌ as str_eq}
use crypto_scalper.Data.Types.{Side, long, short}

pub record Position (F T : Type 0) : Type 0 where
  pub client_id : String
  pub symbol : String
  pub side : Side
  pub size : F
  pub entry_price : F
  pub stop_loss : F
  pub take_profit : F
  pub opened_at : T
  pub trailing_activated : Bool
  pub peak_price : F
  pub trough_price : F
  pub atr_at_entry : F
  pub partial_taken : Bool
  pub breakeven_activated : Bool

pub data PositionExitReason : Type 0 where
  stop_loss take_profit trailing time_exit manual breakeven partial_tp : PositionExitReason

pub record PositionConfig (F : Type 0) : Type 0 where
  pub max_hold_secs : ℤ
  pub trail_atr_mult : F
  pub trail_activate_r : F
  pub breakeven_r : F
  pub partial_tp_enabled : Bool
  pub partial_tp_r : F

-- What one round of `check_exits` does with a position: it stays, changed or not, or leaves.
pub data Outcome (F T : Type 0) : Type 0 where
  keep : Position F T → Outcome F T
  exit : Position F T → PositionExitReason → Outcome F T

module _ {F : Type 0} ⦃f : Float F⦄ where
  unfoldable pub default_config : PositionConfig F
  default_config = record {
    max_hold_secs = pos 1800;
    trail_atr_mult = dec 5 1;
    trail_activate_r = lit 1;
    breakeven_r = dec 5 1;
    partial_tp_enabled = true;
    partial_tp_r = lit 1;
  }

module _ {F T : Type 0} ⦃f : Float F⦄ ⦃t : Time T⦄ where
  unfoldable pub move_to_breakeven : PositionConfig F → F → Position F T → Position F T
  move_to_breakeven cfg profit_r p =
      if not p.breakeven_activated && cfg.breakeven_r ≤? profit_r
      then record p { breakeven_activated = true; stop_loss = p.entry_price }
      else p

  unfoldable pub activate_trailing : PositionConfig F → F → Position F T → Position F T
  activate_trailing cfg profit_r p =
      if not p.trailing_activated && cfg.trail_activate_r ≤? profit_r
      then record p { trailing_activated = true }
      else p

  -- `profit` is the gain per unit at the current price.
  unfoldable pub trail_dist : PositionConfig F → F → Position F T → F
  trail_dist cfg profit p =
      if nought <? p.atr_at_entry then p.atr_at_entry ⊗ cfg.trail_atr_mult else profit ⊗ dec 5 1

  unfoldable pub trail_long : PositionConfig F → F → Position F T → Outcome F T
  trail_long cfg price p =
      let trail_stop = price ⊖ trail_dist cfg (price ⊖ p.entry_price) p in
      let q = if p.stop_loss <? trail_stop then record p { stop_loss = trail_stop } else p in
      if price ≤? q.stop_loss then exit q trailing else keep q

  unfoldable pub trail_short : PositionConfig F → F → Position F T → Outcome F T
  trail_short cfg price p =
      let trail_stop = price ⊕ trail_dist cfg (p.entry_price ⊖ price) p in
      let q = if trail_stop <? p.stop_loss then record p { stop_loss = trail_stop } else p in
      if q.stop_loss ≤? price then exit q trailing else keep q

  unfoldable pub check_long : PositionConfig F → F → F → Position F T → Outcome F T
  check_long cfg r price p =
      if nought <? p.stop_loss && price ≤? p.stop_loss
      then exit p PositionExitReason.stop_loss
      else if nought <? p.take_profit && p.take_profit ≤? price
      then exit p PositionExitReason.take_profit
      else let profit_r = (price ⊖ p.entry_price) ⊘ r in
        let q = activate_trailing cfg profit_r (move_to_breakeven cfg profit_r p) in
        if q.trailing_activated then trail_long cfg price q else keep q

  unfoldable pub check_short : PositionConfig F → F → F → Position F T → Outcome F T
  check_short cfg r price p =
      if nought <? p.stop_loss && p.stop_loss ≤? price
      then exit p PositionExitReason.stop_loss
      else if nought <? p.take_profit && price ≤? p.take_profit
      then exit p PositionExitReason.take_profit
      else let profit_r = (p.entry_price ⊖ price) ⊘ r in
        let q = activate_trailing cfg profit_r (move_to_breakeven cfg profit_r p) in
        if q.trailing_activated then trail_short cfg price q else keep q

  unfoldable pub check_side : Side → PositionConfig F → F → F → Position F T → Outcome F T
  check_side long = check_long
  check_side short = check_short

  unfoldable pub held_too_long : PositionConfig F → T → Position F T → Bool
  held_too_long cfg now p =
      ltb_ℤ (pos 0) cfg.max_hold_secs && ltb_ℤ cfg.max_hold_secs (t.num_seconds now p.opened_at)

  -- The body of the loop in `check_exits`, for a position of the symbol.
  unfoldable pub check_position : PositionConfig F → T → F → Position F T → Outcome F T
  check_position cfg now price p =
      let r = f.abs (p.entry_price ⊖ p.stop_loss) in
      if r ≤? nought
      then keep p
      else if held_too_long cfg now p
      then exit p time_exit
      else check_side p.side cfg r price p

abbrev pub Book : Type 0 → Type 0 → Type 0
Book F T = Dict String (Position F T)

-- What the loop of `check_exits` leaves: the book with its changed positions, the exits, and the
-- ids to remove.
pub record Sweep (F T : Type 0) : Type 0 where
  pub book : Book F T
  pub out : List (Position F T × PositionExitReason)
  pub to_remove : List String

module _ {F T : Type 0} where
  unfoldable pub add_outcome : String → Outcome F T → Sweep F T → Sweep F T
  add_outcome id (keep p) s = record s { book = (id, p) ∷ s.book }
  add_outcome id (exit p why) s = record {
    book = (id, p) ∷ s.book;
    out = (p, why) ∷ s.out;
    to_remove = id ∷ s.to_remove;
  }

  unfoldable pub remove_all : List String → Book F T → Book F T
  remove_all [] m = m
  remove_all (id ∷ ids) m = remove_all ids (remove id m)

  unfoldable pub open_position : Position F T → Book F T → Book F T
  open_position p m = insert p.client_id p m

  unfoldable pub close_position : String → Book F T → Book F T × Option (Position F T)
  close_position id m = (remove id m, lookup id m)

  -- `reconcile` clears the book and inserts what the exchange holds.
  unfoldable pub insert_all : List (Position F T) → Book F T → Book F T
  insert_all [] m = m
  insert_all (p ∷ ps) m = insert_all ps (open_position p m)

  unfoldable pub reconcile : List (Position F T) → Book F T → Book F T
  reconcile positions m = insert_all positions []

module _ {F T : Type 0} ⦃f : Float F⦄ ⦃t : Time T⦄ where
  unfoldable pub track_price : F → Position F T → Position F T
  track_price price p = record p {
    peak_price = if p.peak_price <? price then price else p.peak_price;
    trough_price = if price <? p.trough_price then price else p.trough_price;
  }

  unfoldable pub update_price : String → F → Book F T → Book F T
  update_price symbol price [] = []
  update_price symbol price ((id, p) ∷ m) =
      (id, if str_eq p.symbol symbol then track_price price p else p) ∷ update_price symbol price m

  -- A position of another symbol is passed over.
  unfoldable pub outcome : String → PositionConfig F → T → F → Position F T → Outcome F T
  outcome symbol cfg now price p =
      if str_eq p.symbol symbol then check_position cfg now price p else keep p

  unfoldable pub sweep : String → PositionConfig F → T → F → Book F T → Sweep F T
  sweep symbol cfg now price [] = record { book = []; out = []; to_remove = [] }
  sweep symbol cfg now price ((id, p) ∷ m) =
      add_outcome id (outcome symbol cfg now price p) (sweep symbol cfg now price m)

  -- The new book and the list of exits.
  unfoldable pub check_exits :
      String
      → F
      → PositionConfig F
      → T
      → Book F T
      → Book F T × List (Position F T × PositionExitReason)
  check_exits symbol price cfg now m =
      let s = sweep symbol cfg now price m in (remove_all s.to_remove s.book, s.out)

  unfoldable pub pnl_on : Side → Position F T → F → F
  pnl_on long p exit_price = (exit_price ⊖ p.entry_price) ⊗ p.size
  pnl_on short p exit_price = (p.entry_price ⊖ exit_price) ⊗ p.size

  unfoldable pub pnl_usd : Position F T → F → F
  pnl_usd p exit_price = pnl_on p.side p exit_price
