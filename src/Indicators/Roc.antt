-- ===== src/Indicators/Roc.antt =====
-- src/indicators/roc.rs: the change against the value some periods ago.
use crypto_scalper.Prelude.{
  drop, ℕ, ◌+◌, ◌&&◌, Option, none, some, List, [], ◌∷◌, ◌++◌, ltb, leb, if◌then◌else◌, string_eq,
  length,
}
use crypto_scalper.Float.{Float, ◌⊖◌, ◌⊗◌, ◌⊘◌, ◌≤?◌, lit, nought}

-- The newest value of `buf` stands at the end.
pub record Roc (F : Type 0) : Type 0 where
  pub period : ℕ
  pub buf : List F

unfoldable pub new_roc : {F : Type 0} → ℕ → Roc F
new_roc period = record { period = period; buf = [] }

unfoldable pub pop_over : {F : Type 0} → ℕ → List F → List F
pop_over limit xs = if ltb limit (length xs) then drop 1 xs else xs

module _ {F : Type 0} ⦃f : Float F⦄ where
  unfoldable pub change_since : F → List F → Option F
  change_since x [] = none
  change_since x (oldest ∷ rest) =
      if oldest ≤? nought && nought ≤? oldest then none else some ((x ⊖ oldest) ⊘ oldest ⊗ lit 100)

  unfoldable pub next_roc : F → Roc F → Roc F × Option F
  next_roc x r =
      let buf = pop_over (r.period + 1) (r.buf ++ x ∷ []) in
      (record r { buf = buf }, if leb (length buf) r.period then none else change_since x buf)
