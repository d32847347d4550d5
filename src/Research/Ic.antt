-- ===== src/Research/Ic.antt =====
-- src/research/ic.rs: the correlation of signals with the returns that follow them.
use crypto_scalper.Prelude.{
  drop, ℕ, ◌-◌, not, ◌||◌, Option, none, some, List, [], ◌∷◌, ◌++◌, map, ltb, leb, if◌then◌else◌,
  string_eq, length,
}
use crypto_scalper.Portfolio.{correlate, mean, variance}
use crypto_scalper.Float.{Float, ◌⊘◌, ◌≤?◌, nought}

-- The newest observation stands at the end.
pub record IcTracker (F : Type 0) : Type 0 where
  pub observations : List (F × F)
  pub window_ics : List F
  pub window : ℕ

unfoldable pub new_ic : {F : Type 0} → ℕ → IcTracker F
new_ic window = record {
  observations = [];
  window_ics = [];
  window = if ltb window 2 then 2 else window;
}

unfoldable pub signals : {F : Type 0} → List (F × F) → List F
signals observations = map (λ (s, r). s) observations

unfoldable pub forward_returns : {F : Type 0} → List (F × F) → List F
forward_returns observations = map (λ (s, r). r) observations

module _ {F : Type 0} ⦃f : Float F⦄ where
  unfoldable pub pearson : List (F × F) → Option F
  pearson observations =
      let rho = correlate (signals observations) (forward_returns observations) in
      if ltb (length observations) 3 then none else rho

  unfoldable pub push_ic : Option F → List F → List F
  push_ic none ics = ics
  push_ic (some ic) ics = ics ++ ic ∷ []

  unfoldable pub record_observation : F → F → IcTracker F → IcTracker F
  record_observation signal_value forward_return k =
      let observations = k.observations ++ (signal_value, forward_return) ∷ [] in
      let start = length observations - k.window in
      let ics = push_ic (pearson (drop start observations)) k.window_ics in
      if not (f.is_finite signal_value) || not (f.is_finite forward_return) then k else record k {
        observations = observations;
        window_ics = if leb k.window (length observations) then ics else k.window_ics;
      }

  unfoldable pub ic : IcTracker F → Option F
  ic k = pearson k.observations

  unfoldable pub ir : IcTracker F → Option F
  ir k =
      let sd = f.sqrt (variance k.window_ics) in
      if ltb (length k.window_ics) 2 || sd ≤? nought then none else some (mean k.window_ics ⊘ sd)
