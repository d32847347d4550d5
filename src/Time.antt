-- ===== src/Time.antt =====
-- `chrono`: what the program uses of `DateTime<Utc>` and `NaiveDate`, as an interface. `now` is an
-- argument of each operation that reads the clock.
use crypto_scalper.Prelude.{
  Option, none, some, ℕ, ◌+◌, ◌*◌, ◌/◌, ◌%◌, ◌≡◌, Bool, true, false, not, ltb, arith,
}
use crypto_scalper.Prelude.Int.{pos, negsuc, quot_ℤ, ℤ, sub_ℕ}

pub record Time (T : Type 0) : Type 0 where
  pub after : T → T → Bool  -- `a > b`
  pub num_seconds : T → T → ℤ  -- `(a - b).num_seconds()`
  pub num_minutes : T → T → ℤ  -- `(a - b).num_minutes()`
  pub elapsed_gt_hours : T → T → ℕ → Bool  -- `a - b > Duration::hours(n)`
  pub elapsed_le_minutes : T → T → ℕ → Bool  -- `a - b <= Duration::minutes(n)`
  pub add_minutes : T → ℕ → T
  pub add_hours : T → ℕ → T
  pub date_naive : T → ℕ  -- the number of the day
  pub timestamp_millis : T → ℤ
  pub timestamp : T → ℤ  -- whole seconds since the epoch
  pub at_timestamp : ℤ → Option T  -- `Utc.timestamp_opt(s, 0).single()`
  pub add_seconds : T → ℕ → T
  pub hour : T → ℕ  -- `format("%H")`, read as a number

-- Instants are totally ordered, and an instant is not after what lies minutes or hours behind it.
pub record IsTimeline (T : Type 0) ⦃t : Time T⦄ : Type 0 where
  pub after_irrefl : (a : T) → t.after a a ≡ false
  pub after_trans : (a b c : T) → t.after a b ≡ true → t.after b c ≡ true → t.after a c ≡ true
  pub after_split : (a b c : T) → t.after a b ≡ true → t.after c b ≡ false → t.after a c ≡ true
  pub not_after_add_minutes : (a : T) (n : ℕ) → t.after a (t.add_minutes a n) ≡ false
  pub not_after_add_hours : (a : T) (n : ℕ) → t.after a (t.add_hours a n) ≡ false

-- Seconds since the epoch.
instance abbrev pub seconds_time : Time ℕ
seconds_time = record {
  after = λ a b. ltb b a;
  num_seconds = sub_ℕ;
  num_minutes = λ a b. quot_ℤ (sub_ℕ a b) 60;
  elapsed_gt_hours = λ a b n. ltb (b + 3600 * n) a;
  elapsed_le_minutes = λ a b n. not (ltb (b + 60 * n) a);
  add_minutes = λ a n. a + 60 * n;
  add_hours = λ a n. a + 3600 * n;
  date_naive = λ a. a / 86400;
  timestamp = pos;
  timestamp_millis = λ a. pos (1000 * a);
  at_timestamp = λ s. elim s [ pos n ↦ some n | negsuc n ↦ none ];
  add_seconds = ◌+◌;
  hour = λ a. a / 3600 % 24;
}

pub seconds-IsTimeline : IsTimeline ℕ
seconds-IsTimeline = ground arith
