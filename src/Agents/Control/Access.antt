-- ===== src/Agents/Control/Access.antt =====
-- Whose commands src/agents/control.rs publishes, and what it remembers of the updates.
use crypto_scalper.Agents.Control.Asks.{Asks, handle_command-Asks}
use crypto_scalper.Agents.Messages.{ControlCommand}
use crypto_scalper.Agents.Control.{contains, same_id, is_refused, poll, Update, on_update}
use crypto_scalper.Execution.Position.{Position}
use crypto_scalper.Execution.Risk.{RiskManager}
use crypto_scalper.Prelude.{
  if◌then◌else◌, String, ◌≡◌, refl, ap, inl, inr, List, [], ◌∷◌, ◌++◌, arith, true, false, ◌⊎◌,
  Bool-cases, string_eq, All,
}
use crypto_scalper.Prelude.Int.{max_ge_ℤ, le_trans_ℤ, ℤ, ◌≤ℤ◌, ltb_ℤ, pos, negsuc}
use crypto_scalper.Float.{Float}

-- The list has the id.
abbrev pub Names : ℤ → List ℤ → Type 0
Names id [] = ⊥
Names id (a ∷ rest) = (id ≡ a) ⊎ Names id rest

-- Whom the list of users lets give commands: everyone where it is empty, and else those it names.
abbrev pub Permits : List ℤ → ℤ → Type 0
Permits allowed id = (allowed ≡ []) ⊎ Names id allowed

same_id-eq : (a b : ℤ) → same_id a b ≡ true → a ≡ b
unfolding same_id
same_id-eq (pos m) (pos n) h = ap pos (ground arith)
same_id-eq (pos m) (negsuc n) h = absurd (ground arith)
same_id-eq (negsuc m) (pos n) h = absurd (ground arith)
same_id-eq (negsuc m) (negsuc n) h = ap negsuc (ground arith)

same_id_refl : (a : ℤ) → same_id a a ≡ true
unfolding same_id
same_id_refl a = ground arith

contains-Names : (id : ℤ) (allowed : List ℤ) → contains id allowed ≡ true → Names id allowed
unfolding contains
contains-Names id [] h = absurd (ground arith)
contains-Names id (a ∷ rest) h = elim (Bool-cases (same_id id a)) [
  | inl same ↦ inl (same_id-eq id a same)
  | inr other ↦ inr (contains-Names id rest (ground arith))
]

Names-contains : (id : ℤ) (allowed : List ℤ) → Names id allowed → contains id allowed ≡ true
unfolding contains
Names-contains id [] h = absurd h
Names-contains id (a ∷ rest) (inl e) = rw (← e) (rw (same_id_refl id) refl)
Names-contains id (a ∷ rest) (inr n) = ground (arith, Names-contains id rest n)

granted-Permits : (allowed : List ℤ) (id : ℤ) → is_refused allowed id ≡ false → Permits allowed id
unfolding is_refused
granted-Permits [] id h = inl refl
granted-Permits (a ∷ rest) id h = inr (contains-Names id (a ∷ rest) (ground arith))

refused-not-Permits :
    (allowed : List ℤ) (id : ℤ) → is_refused allowed id ≡ true → ¬ Permits allowed id
unfolding is_refused
refused-not-Permits [] id h p = ground arith
refused-not-Permits (a ∷ rest) id h (inl e) = ground arith
refused-not-Permits (a ∷ rest) id h (inr n) = ground (arith, Names-contains id (a ∷ rest) n)

module _ {F : Type 0} (normalise : String → String) (allowed : List ℤ) where
  -- What updates may publish: each permitted one what it asks for, in their order, and no other
  -- anything.
  pub data IsGranted : List Update → List (ControlCommand F) → Type 0 where
    nothing : IsGranted [] []
    permitted :
        (u : Update) (us : List Update) (orders sent : List (ControlCommand F))
        → Permits allowed u.from_id
        → Asks (normalise u.text) orders
        → IsGranted us sent
        → IsGranted (u ∷ us) (orders ++ sent)
    stranger :
        (u : Update) (us : List Update) (sent : List (ControlCommand F))
        → ¬ Permits allowed u.from_id
        → IsGranted us sent
        → IsGranted (u ∷ us) sent

module _ {F T : Type 0} ⦃f : Float F⦄ (normalise : String → String) (allowed : List ℤ)
    (risk : RiskManager F) (book : List (Position F T)) where
  on_update-IsGranted :
      (u : Update) (us : List Update) (sent : List (ControlCommand F))
      → IsGranted normalise allowed us sent
      → IsGranted normalise allowed (u ∷ us) ((on_update normalise allowed risk book u).0 ++ sent)
  unfolding on_update
  on_update-IsGranted u us sent g = elim (Bool-cases (is_refused allowed u.from_id)) [
    | inl r ↦ rw r (stranger u us sent (refused-not-Permits allowed u.from_id r) g)
    | inr p ↦ rw p (
        permitted u us _ sent (granted-Permits allowed u.from_id p)
          (handle_command-Asks risk book (normalise u.text)) g)
  ]

  -- A poll publishes exactly what the permitted updates ask for, in the order of the updates, where
  -- an update is permitted if the list of users is empty or names its sender: any other update
  -- publishes nothing. A text asks for a report, a freeze, its end or a flat-all by one of the
  -- words for it, with or without a slash, and any other text asks for nothing.
  pub poll-IsGranted :
      (us : List Update) (last : ℤ)
      → IsGranted normalise allowed us (poll normalise allowed risk book us last).1
  unfolding poll
  poll-IsGranted [] last = nothing
  poll-IsGranted (u ∷ us) last = on_update-IsGranted u us _ (poll-IsGranted us _)

  poll-last_ge :
      (us : List Update) (last : ℤ) → (last ≤ℤ (poll normalise allowed risk book us last).0)
  unfolding poll
  poll-last_ge [] last = omega arith
  poll-last_ge (u ∷ us) last = le_trans_ℤ last _ _ (max_ge_ℤ last u.update_id).0 (poll-last_ge us _)

  -- After a poll the offset is past every update it was given and is never moved back.
  poll-last_bounds :
      (us : List Update) (last : ℤ)
      → (last ≤ℤ (poll normalise allowed risk book us last).0)
        × All (λ u. u.update_id ≤ℤ (poll normalise allowed risk book us last).0) us
  unfolding poll
  poll-last_bounds [] last = (omega arith, tt)
  poll-last_bounds (u ∷ us) last =
      let next = if ltb_ℤ last u.update_id then u.update_id else last in
      (
        poll-last_ge (u ∷ us) last,
        (
          le_trans_ℤ u.update_id next _ (max_ge_ℤ last u.update_id).1 (poll-last_ge us next),
          (poll-last_bounds us next).1,
        ),
      )
