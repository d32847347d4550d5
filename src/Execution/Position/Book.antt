-- ===== src/Execution/Position/Book.antt =====
-- The book of src/execution/position.rs as a finite map: what `check_exits` does to each entry.
use crypto_scalper.Prelude.{
  String, ◌≡◌, refl, Bool, true, false, ◌||◌, Option, none, some, List, [], ◌∷◌, arith,
  if◌then◌else◌, string_eq,
}
use crypto_scalper.Prelude.Dict.{lookup, remove, lookup-remove, IsDistinct}
use crypto_scalper.Float.{Float}
use crypto_scalper.Time.{Time}
use crypto_scalper.Execution.Position.{
  Position, PositionConfig, Outcome, keep, exit, Book, add_outcome, remove_all, outcome, sweep,
  check_exits,
}
use text.Mathlib.Text.{◌==◌ as str_eq}
use text.Mathlib.TextEquality.{eq_iff}

-- What becomes of an entry.
abbrev pub survivor : {F T : Type 0} → Outcome F T → Option (Position F T)
survivor (keep p) = some p
survivor (exit p why) = none

abbrev pub changed : {F T : Type 0} → Outcome F T → Position F T
changed (keep p) = p
changed (exit p why) = p

abbrev pub is_exit : {F T : Type 0} → Outcome F T → Bool
is_exit (keep p) = false
is_exit (exit p why) = true

abbrev pub contains : String → List String → Bool
contains j [] = false
contains j (i ∷ ids) = str_eq i j || contains j ids

module _ {F T : Type 0} where
  pub lookup-remove_all :
      (j : String) (ids : List String) (m : Book F T)
      → lookup j (remove_all ids m) ≡ (if contains j ids then none else lookup j m)
  unfolding remove_all
  lookup-remove_all j [] m = refl
  lookup-remove_all j (i ∷ ids) m =
      rw (lookup-remove_all j ids (remove i m), lookup-remove i j m) (ground arith)

module _ {F T : Type 0} ⦃f : Float F⦄ ⦃t : Time T⦄ where
  abbrev pub exits : String → PositionConfig F → T → F → Option (Position F T) → Bool
  exits symbol cfg now price none = false
  exits symbol cfg now price (some p) = is_exit (outcome symbol cfg now price p)

  abbrev pub moves :
      String → PositionConfig F → T → F → Option (Position F T) → Option (Position F T)
  moves symbol cfg now price none = none
  moves symbol cfg now price (some p) = some (changed (outcome symbol cfg now price p))

  -- What the rules leave of an entry: nothing where there is none or it exits.
  abbrev pub survives :
      String → PositionConfig F → T → F → Option (Position F T) → Option (Position F T)
  survives symbol cfg now price none = none
  survives symbol cfg now price (some p) = survivor (outcome symbol cfg now price p)

  pub lookup-sweep :
      (symbol : String) (cfg : PositionConfig F) (now : T) (price : F) (j : String) (m : Book F T)
      → lookup j (sweep symbol cfg now price m).book ≡ moves symbol cfg now price (lookup j m)
  unfolding sweep add_outcome lookup
  lookup-sweep symbol cfg now price j [] = refl
  lookup-sweep symbol cfg now price j ((i, p) ∷ m) =
      ground (arith, lookup-sweep symbol cfg now price j m)

  pub contains-sweep :
      (symbol : String) (cfg : PositionConfig F) (now : T) (price : F) (j : String) (m : Book F T)
      → IsDistinct m
      → contains j (sweep symbol cfg now price m).to_remove
        ≡ exits symbol cfg now price (lookup j m)
  unfolding sweep add_outcome lookup
  contains-sweep symbol cfg now price j [] d = refl
  contains-sweep symbol cfg now price j ((i, p) ∷ m) (h, d) =
      ground (arith, contains-sweep symbol cfg now price j m d, eq_iff i j, h)

  -- In a book with distinct ids a round of `check_exits` does to each entry what the rules say of its
  -- position alone: it is removed when they close it, holds the changed position when they keep it,
  -- and an id that was not there is not there afterwards.
  pub lookup-check_exits :
      (symbol : String) (price : F) (cfg : PositionConfig F) (now : T) (j : String) (m : Book F T)
      → IsDistinct m
      → lookup j (check_exits symbol price cfg now m).0 ≡ survives symbol cfg now price (lookup j m)
  unfolding check_exits
  lookup-check_exits symbol price cfg now j m d =
      rw (lookup-remove_all, contains-sweep symbol cfg now price j m d, lookup-sweep)
        (exits-moves (lookup j m))
    where
      exits-moves :
          (o : Option (Position F T))
          → (if exits symbol cfg now price o then none else moves symbol cfg now price o)
            ≡ survives symbol cfg now price o
      exits-moves o = ground arith
