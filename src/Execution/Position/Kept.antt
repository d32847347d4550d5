-- ===== src/Execution/Position/Kept.antt =====
-- The book that `check_exits` of src/execution/position.rs leaves, entry by entry.
use crypto_scalper.Prelude.{
  ℕ, ◌+◌, String, ◌≡◌, refl, ap, ◌∙◌, false, none, List, [], ◌∷◌, arith, string_eq, length,
}
use crypto_scalper.Prelude.Dict.{remove-absent, lookup, remove, beq_refl, IsDistinct}
use crypto_scalper.Float.{Float}
use crypto_scalper.Time.{Time}
use crypto_scalper.Execution.Position.Book.{contains-sweep, lookup-sweep, contains}
use crypto_scalper.Execution.Position.{
  Sweep, sweep, add_outcome, check_exits, outcome, Book, Outcome, Position, PositionConfig,
  remove_all, keep, exit,
}
use text.Mathlib.TextEquality.{eq_iff}

module _ {F T : Type 0} where
  remove_all-head :
      (i : String) (p : Position F T) (ids : List String) (m : Book F T)
      → contains i ids ≡ false
      → remove_all ids ((i, p) ∷ m) ≡ (i, p) ∷ remove_all ids m
  unfolding remove_all remove
  remove_all-head i p [] m h = refl
  remove_all-head i p (j ∷ ids) m h =
      ground (arith, eq_iff i j, eq_iff j i, remove_all-head i p ids (remove j m))

  pub remove-head :
      (i : String) (p : Position F T) (m : Book F T) → remove i ((i, p) ∷ m) ≡ remove i m
  unfolding remove
  remove-head i p m = rw (beq_refl i) refl

module _ {F T : Type 0} ⦃f : Float F⦄ ⦃t : Time T⦄ (symbol : String) (cfg : PositionConfig F)
    (now : T) (price : F) where
  -- An entry that leaves is dropped, one that stays holds its changed position.
  abbrev pub push_kept : String → Outcome F T → Book F T → Book F T
  push_kept id (keep p) m = (id, p) ∷ m
  push_kept id (exit p why) m = m

  abbrev pub kept : Book F T → Book F T
  kept [] = []
  kept ((id, p) ∷ m) = push_kept id (outcome symbol cfg now price p) (kept m)

  add_outcome-kept :
      (id : String) (o : Outcome F T) (s : Sweep F T) (k : Book F T)
      → lookup id s.book ≡ none
      → contains id s.to_remove ≡ false
      → remove_all s.to_remove s.book ≡ k
      → remove_all (add_outcome id o s).to_remove (add_outcome id o s).book ≡ push_kept id o k
  unfolding add_outcome remove_all
  add_outcome-kept id (keep p) s k h c e =
      remove_all-head id p s.to_remove s.book c ∙ ap (λ m. (id, p) ∷ m) e
  add_outcome-kept id (exit p why) s k h c e =
      ap (remove_all s.to_remove) (remove-head id p s.book ∙ remove-absent id s.book h) ∙ e

  -- In a book with distinct ids, `check_exits` leaves the entries that the rules keep.
  pub check_exits-kept :
      (m : Book F T) → IsDistinct m → (check_exits symbol price cfg now m).0 ≡ kept m
  unfolding check_exits sweep remove_all
  check_exits-kept [] d = refl
  check_exits-kept ((id, p) ∷ m) (h, d) =
      (add_outcome-kept id (outcome symbol cfg now price p) (sweep symbol cfg now price m) (kept m)
        (rw (lookup-sweep symbol cfg now price id m, h) refl)
        (rw (contains-sweep symbol cfg now price id m d, h) refl) (check_exits-kept m d))

  add_outcome-count :
      (id : String) (o : Outcome F T) (s : Sweep F T) (k : Book F T) (n : ℕ)
      → length k + length s.out ≡ n
      → length (push_kept id o k) + length (add_outcome id o s).out ≡ n + 1
  unfolding add_outcome
  add_outcome-count id (keep p) s k n h = omega arith
  add_outcome-count id (exit p why) s k n h = omega arith

  -- Every position either stays or exits.
  pub check_exits-count :
      (m : Book F T) → length (kept m) + length (check_exits symbol price cfg now m).1 ≡ length m
  unfolding check_exits sweep
  check_exits-count [] = refl
  check_exits-count ((id, p) ∷ m) = omega (
    arith,
    add_outcome-count id (outcome symbol cfg now price p) (sweep symbol cfg now price m) (kept m)
        (length m) (check_exits-count m),
  )

  push_kept-absent :
      (j id : String) (o : Outcome F T) (k : Book F T)
      → string_eq.beq id j ≡ false
      → lookup j k ≡ none
      → lookup j (push_kept id o k) ≡ none
  unfolding lookup
  push_kept-absent j id (keep p) k n h = rw n h
  push_kept-absent j id (exit p why) k n h = h

  kept-absent : (j : String) (m : Book F T) → lookup j m ≡ none → lookup j (kept m) ≡ none
  unfolding lookup
  kept-absent j [] h = refl
  kept-absent j ((id, p) ∷ m) h =
      push_kept-absent j id (outcome symbol cfg now price p) (kept m) (ground arith)
        (kept-absent j m (ground arith))

  push_kept-IsDistinct :
      (id : String) (o : Outcome F T) (k : Book F T)
      → lookup id k ≡ none
      → IsDistinct k
      → IsDistinct (push_kept id o k)
  push_kept-IsDistinct id (keep p) k h d = (h, d)
  push_kept-IsDistinct id (exit p why) k h d = d

  pub kept-IsDistinct : (m : Book F T) → IsDistinct m → IsDistinct (kept m)
  kept-IsDistinct [] d = tt
  kept-IsDistinct ((id, p) ∷ m) (h, d) =
      push_kept-IsDistinct id (outcome symbol cfg now price p) (kept m) (kept-absent id m h)
        (kept-IsDistinct m d)
