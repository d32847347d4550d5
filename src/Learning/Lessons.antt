-- ===== src/Learning/Lessons.antt =====
-- src/learning/lessons.rs: a lesson, where it applies and whether it bans a trade.
use crypto_scalper.Prelude.{
  ℕ, String, Bool, true, false, ◌&&◌, Option, none, some, if◌then◌else◌, string_eq,
}
use crypto_scalper.Prelude.Int.{ℤ}
use crypto_scalper.Time.{Time}
use crypto_scalper.Text.{Text}

pub data LessonKind : Type 0 where
  lose_streak strategy_derate strategy_boost regime_blacklist llm_calibration symbol_derate
        drawdown_cooldown :
      LessonKind

pub record Lesson (F T : Type 0) : Type 0 where
  pub kind : LessonKind
  pub strategy : Option String  -- `none` for every strategy; likewise below
  pub regime : Option String
  pub symbol : Option String
  pub size_multiplier : F
  pub ta_threshold_delta : ℤ  -- i16
  pub llm_min_confidence_floor : Option ℕ  -- u8
  pub valid_until : T
  pub reason : Text F

-- `if let Some(s) = &self.strategy { if s != strategy { return false; } }`.
unfoldable pub admits : Option String → String → Bool
admits none name = true
admits (some s) name = string_eq.beq s name

unfoldable pub bans : LessonKind → Bool
bans lose_streak = true
bans regime_blacklist = true
bans drawdown_cooldown = true
bans symbol_derate = true
bans _ = false

module _ {F T : Type 0} ⦃t : Time T⦄ where
  unfoldable pub applies : T → String → String → String → Lesson F T → Bool
  applies now strategy regime symbol l =
      if t.after now l.valid_until
      then false
      else admits l.strategy strategy && (admits l.regime regime && admits l.symbol symbol)

module _ {F T : Type 0} where
  unfoldable pub is_block : Lesson F T → Bool
  is_block l = bans l.kind
