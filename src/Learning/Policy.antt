-- ===== src/Learning/Policy.antt =====
-- src/learning/policy.rs: the verdict of the lessons on a candidate trade.
pub mod Verdict
use crypto_scalper.Prelude.{
  ℕ, zero, suc, ◌+◌, ◌-◌, ◌*◌, ◌/◌, ◌%◌, ◌^◌, ◌≤◌, ◌<◌, String, ◌≡◌, refl, sym, ap, ◌∙◌, ◌≢◌, ◌↔◌,
  ◌⊎◌, inl, inr, Bool, true, false, not, ◌&&◌, ◌||◌, Option, none, some, List, [], ◌∷◌, ◌++◌, map,
  arith, ltb, leb, ◌==◌, if◌then◌else◌, Bool-cases, Option-cases, Result, ok, err, Eq, string_eq,
  is_some, length, get_elem?, set, take_while, drop_while, take, length-append, filter, All,
  All-append,
}
use crypto_scalper.Learning.Lessons.{is_block, applies, Lesson, lose_streak}
use crypto_scalper.Prelude.Int.{
  sub_ℕ, ℤ, pos, negsuc, pos_part, neg_part, ◌+ℤ◌, ◌-ℤ◌, ◌≤ℤ◌, ◌<ℤ◌, ltb_ℤ, leb_ℤ, min_ℤ, clamp_ℤ,
}
use crypto_scalper.Prelude.Dict.{
  Dict, lookup, insert, remove, lookup-insert, lookup-remove, lookup-insert_self, beq_refl,
  IsDistinct, insert-IsDistinct,
}
use crypto_scalper.Float.{
  Float, ◌⊕◌, ◌⊖◌, ◌⊗◌, ◌⊘◌, ◌<?◌, ◌≤?◌, ◌≺◌, ◌≼◌, dec, lit, nought, clamp, IsNumber, IsFinite,
}
use crypto_scalper.Float.Laws.{IsOrdered, IsRounded}
use crypto_scalper.Time.{Time, IsTimeline}
use crypto_scalper.Text.{Text, text_or_default}
use crypto_scalper.Data.Types.{Side, long, short, Candle, Trade}

pub record PolicyVerdict (F : Type 0) : Type 0 where
  pub allowed : Bool
  pub size_multiplier : F
  pub ta_threshold_delta : ℤ  -- i16
  pub llm_min_confidence_floor : Option ℕ  -- u8
  pub matched_lessons : List (Text F)

-- `+=` on an `i16` wraps in a release build.
unfoldable pub add_i16 : ℤ → ℤ → ℤ
add_i16 a b = sub_ℕ (pos_part (a +ℤ b +ℤ pos 98304) % 2 ^ 16) 32768

-- `Some(floor.unwrap_or(0).max(f))` for a lesson that sets a floor.
unfoldable pub raise_floor : Option ℕ → Option ℕ → Option ℕ
raise_floor none floor = floor
raise_floor (some v) none = some v
raise_floor (some v) (some u) = some (if ltb u v then v else u)

module _ {F : Type 0} ⦃f : Float F⦄ where
  unfoldable pub default_verdict : PolicyVerdict F
  default_verdict = record {
    allowed = true;
    size_multiplier = lit 1;
    ta_threshold_delta = pos 0;
    llm_min_confidence_floor = none;
    matched_lessons = [];
  }

module _ {F T : Type 0} ⦃f : Float F⦄ ⦃t : Time T⦄ where
  -- The body of the loop of `evaluate`, for a lesson that applies.
  unfoldable pub consider : Lesson F T → PolicyVerdict F → PolicyVerdict F
  consider l v =
      if is_block l
      then record v {
        allowed = false;
        size_multiplier = nought;
        matched_lessons = v.matched_lessons ++ l.reason ∷ [];
      }
      else record v {
        size_multiplier = v.size_multiplier ⊗ l.size_multiplier;
        ta_threshold_delta = add_i16 v.ta_threshold_delta l.ta_threshold_delta;
        llm_min_confidence_floor =
            raise_floor l.llm_min_confidence_floor v.llm_min_confidence_floor;
        matched_lessons = v.matched_lessons ++ l.reason ∷ [];
      }

  unfoldable pub evaluate_from :
      T → String → String → String → List (Lesson F T) → PolicyVerdict F → PolicyVerdict F
  evaluate_from now strategy regime symbol [] v = v
  evaluate_from now strategy regime symbol (l ∷ ls) v =
      evaluate_from now strategy regime symbol ls
        (if applies now strategy regime symbol l then consider l v else v)

  unfoldable pub evaluate : T → String → String → String → List (Lesson F T) → PolicyVerdict F
  evaluate now strategy regime symbol lessons =
      evaluate_from now strategy regime symbol lessons default_verdict

  -- `active_lessons`: those that expire after now.
  unfoldable pub active_lessons : T → List (Lesson F T) → List (Lesson F T)
  active_lessons now = filter (λ l. t.after l.valid_until now)
