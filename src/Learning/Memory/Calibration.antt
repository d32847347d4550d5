-- ===== src/Learning/Memory/Calibration.antt =====
-- The buckets of src/learning/memory.rs by the confidence that the language model reported.
use crypto_scalper.Learning.Memory.{update, StrategyStats, ClosedTrade, calibrate, modify_at}
use crypto_scalper.Prelude.{
  ap, ◌≡◌, refl, Option, none, some, List, [], ◌∷◌, string_eq, filter, arith, ℕ, ltb, leb,
  if◌then◌else◌, ◌/◌, ◌==◌, ◌≤◌, zero, suc, Bool, false,
}
use crypto_scalper.Float.{Float}
use mathlib.Core.Option
use crypto_scalper.Learning.Memory.Tally.{stats_of}

abbrev pub is_tenth : ℕ → Option ℕ → Bool
is_tenth i none = false
is_tenth i (some j) = i == j

module _ {F T : Type 0} ⦃f : Float F⦄ where
  -- The bucket of a reported confidence, by tens, the last one all from 90 on.
  abbrev pub tenth : ClosedTrade F T → Option ℕ
  tenth x = Option.map (λ c. if leb 90 c then 9 else c / 10) x.llm_confidence

  abbrev pub reported : ℕ → List (ClosedTrade F T) → StrategyStats F
  reported i xs = stats_of (filter (λ x. is_tenth i (tenth x)) xs)

  abbrev pub calibrated : List (ClosedTrade F T) → List (StrategyStats F)
  calibrated xs =
      reported 0 xs
      ∷ reported 1 xs
      ∷ reported 2 xs
      ∷ reported 3 xs
      ∷ reported 4 xs
      ∷ reported 5 xs
      ∷ reported 6 xs
      ∷ reported 7 xs
      ∷ reported 8 xs
      ∷ reported 9 xs
      ∷ []

  modify-calibrated :
      (x : ClosedTrade F T) (i : ℕ)
      → tenth x ≡ some i
      → i ≤ 9
      → (xs : List (ClosedTrade F T)) → modify_at i (update x) (calibrated xs) ≡ calibrated (x ∷ xs)
  unfolding modify_at
  modify-calibrated x zero e h xs = rw e refl
  modify-calibrated x (suc zero) e h xs = rw e refl
  modify-calibrated x (suc (suc zero)) e h xs = rw e refl
  modify-calibrated x (suc (suc (suc zero))) e h xs = rw e refl
  modify-calibrated x (suc (suc (suc (suc zero)))) e h xs = rw e refl
  modify-calibrated x (suc (suc (suc (suc (suc zero))))) e h xs = rw e refl
  modify-calibrated x (suc (suc (suc (suc (suc (suc zero)))))) e h xs = rw e refl
  modify-calibrated x (suc (suc (suc (suc (suc (suc (suc zero))))))) e h xs = rw e refl
  modify-calibrated x (suc (suc (suc (suc (suc (suc (suc (suc zero)))))))) e h xs = rw e refl
  modify-calibrated x (suc (suc (suc (suc (suc (suc (suc (suc (suc zero))))))))) e h xs = rw e refl
  modify-calibrated x (suc (suc (suc (suc (suc (suc (suc (suc (suc (suc i)))))))))) e h xs =
      absurd (omega arith)

  pub calibrate-calibrated :
      (x : ClosedTrade F T) (c : Option ℕ)
      → x.llm_confidence ≡ c
      → (xs : List (ClosedTrade F T)) → calibrate x c (calibrated xs) ≡ calibrated (x ∷ xs)
  unfolding calibrate
  calibrate-calibrated x none e xs = rw e refl
  calibrate-calibrated x (some c) e xs =
      modify-calibrated x (if ltb (c / 10) 9 then c / 10 else 9) (rw e (ap some (ground arith)))
        (ground arith) xs
