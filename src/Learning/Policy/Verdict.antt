-- ===== src/Learning/Policy/Verdict.antt =====
-- What the verdict of src/learning/policy.rs says of the lessons that apply.
use crypto_scalper.Learning.Lessons.{is_block, applies, Lesson}
use crypto_scalper.Learning.Policy.{
  raise_floor, PolicyVerdict, default_verdict, consider, evaluate, evaluate_from,
}
use crypto_scalper.Prelude.{
  if◌then◌else◌, Bool, append_assoc, append-nil, ℕ, ◌≤◌, String, ◌≡◌, refl, sym, ◌∙◌, ◌↔◌, true,
  false, Option, none, some, List, [], ◌∷◌, ◌++◌, map, arith, string_eq, filter, All,
}
use crypto_scalper.Float.{Float}
use crypto_scalper.Time.{Time}

module _ {F T : Type 0} ⦃f : Float F⦄ ⦃t : Time T⦄ (now : T) (strategy regime symbol : String) where
  -- A lesson that does not ban this trade.
  abbrev pub IsPermissive : Lesson F T → Type 0
  IsPermissive l = applies now strategy regime symbol l ≡ true → is_block l ≡ false

  evaluate_from-allowed_to :
      (ls : List (Lesson F T)) (v : PolicyVerdict F)
      → (evaluate_from now strategy regime symbol ls v).allowed ≡ true
      → (v.allowed ≡ true) × All IsPermissive ls
  unfolding evaluate_from consider
  evaluate_from-allowed_to [] v h = (h, tt)
  evaluate_from-allowed_to (l ∷ ls) v h =
      let rest = evaluate_from-allowed_to ls _ h in ground (arith, rest)

  evaluate_from-allowed_of :
      (ls : List (Lesson F T)) (v : PolicyVerdict F)
      → v.allowed ≡ true
      → All IsPermissive ls
      → (evaluate_from now strategy regime symbol ls v).allowed ≡ true
  unfolding evaluate_from consider
  evaluate_from-allowed_of [] v a p = a
  evaluate_from-allowed_of (l ∷ ls) v a (p, ps) =
      evaluate_from-allowed_of ls _ (ground (arith, p)) ps

  -- A trade is allowed exactly when no lesson that applies to its strategy, regime and symbol and
  -- has not expired is of a kind that bans.
  pub evaluate-allowed_iff :
      (ls : List (Lesson F T))
      → ((evaluate now strategy regime symbol ls).allowed ≡ true) ↔ All IsPermissive ls
  unfolding evaluate default_verdict
  evaluate-allowed_iff ls = (
    λ h. (evaluate_from-allowed_to ls default_verdict h).1,
    λ p. evaluate_from-allowed_of ls default_verdict refl p,
  )

  consider-matched :
      (l : Lesson F T) (v : PolicyVerdict F)
      → (consider l v).matched_lessons ≡ v.matched_lessons ++ l.reason ∷ []
  unfolding consider
  consider-matched l v = ground arith

  -- One step of the loop, on the list of matched lessons.
  step-matched :
      (b : Bool) (l : Lesson F T) (rest : List (Lesson F T)) (v : PolicyVerdict F)
      → (if b then consider l v else v).matched_lessons ++ map (λ k. k.reason) rest
        ≡ v.matched_lessons ++ map (λ k. k.reason) (if b then l ∷ rest else rest)
  step-matched true l rest v =
      rw (consider-matched l v) (append_assoc v.matched_lessons (l.reason ∷ []) _)
  step-matched false l rest v = refl

  evaluate_from-matched :
      (ls : List (Lesson F T)) (v : PolicyVerdict F)
      → (evaluate_from now strategy regime symbol ls v).matched_lessons
        ≡ v.matched_lessons ++ map (λ l. l.reason) (filter (applies now strategy regime symbol) ls)
  unfolding evaluate_from
  evaluate_from-matched [] v = sym (append-nil v.matched_lessons)
  evaluate_from-matched (l ∷ ls) v =
      evaluate_from-matched ls _
      ∙ step-matched (applies now strategy regime symbol l) l
          (filter (applies now strategy regime symbol) ls) v

  -- The matched lessons are the reasons of the lessons that apply, in their order.
  evaluate-matched_lessons :
      (ls : List (Lesson F T))
      → (evaluate now strategy regime symbol ls).matched_lessons
        ≡ map (λ l. l.reason) (filter (applies now strategy regime symbol) ls)
  unfolding evaluate default_verdict
  evaluate-matched_lessons ls = evaluate_from-matched ls default_verdict

abbrev pub IsAtLeast : ℕ → Option ℕ → Type 0
IsAtLeast n none = ⊥
IsAtLeast n (some m) = n ≤ m

raise_floor-IsAtLeast : (n : ℕ) (a b : Option ℕ) → IsAtLeast n b → IsAtLeast n (raise_floor a b)
unfolding raise_floor
raise_floor-IsAtLeast n none b h = h
raise_floor-IsAtLeast n (some v) none h = elim h [ ]
raise_floor-IsAtLeast n (some v) (some u) h = ground arith

raise_floor_reaches : (v : ℕ) (b : Option ℕ) → IsAtLeast v (raise_floor (some v) b)
unfolding raise_floor
raise_floor_reaches v none = omega arith
raise_floor_reaches v (some u) = ground arith

module _ {F T : Type 0} ⦃f : Float F⦄ ⦃t : Time T⦄ (now : T) (strategy regime symbol : String) where
  -- The floor that the lesson asks for is met, where the lesson applies and does not ban.
  abbrev pub IsCovered : Option ℕ → Lesson F T → Type 0
  IsCovered floor l =
      (n : ℕ)
      → applies now strategy regime symbol l ≡ true
      → is_block l ≡ false
      → l.llm_min_confidence_floor ≡ some n
      → IsAtLeast n floor

  evaluate_from-floor :
      (n : ℕ) (ls : List (Lesson F T)) (v : PolicyVerdict F)
      → IsAtLeast n v.llm_min_confidence_floor
      → IsAtLeast n (evaluate_from now strategy regime symbol ls v).llm_min_confidence_floor
  unfolding evaluate_from consider
  evaluate_from-floor n [] v h = h
  evaluate_from-floor n (l ∷ ls) v h = evaluate_from-floor n ls _ (
      ground (arith, raise_floor-IsAtLeast n l.llm_min_confidence_floor v.llm_min_confidence_floor))

  consider-reaches :
      (n : ℕ) (l : Lesson F T) (v : PolicyVerdict F)
      → is_block l ≡ false
      → l.llm_min_confidence_floor ≡ some n
      → IsAtLeast n (consider l v).llm_min_confidence_floor
  unfolding consider
  consider-reaches n l v b e = rw (b, e) (raise_floor_reaches n v.llm_min_confidence_floor)

  IsCovered-head :
      (l : Lesson F T) (ls : List (Lesson F T)) (v : PolicyVerdict F)
      → IsCovered (evaluate_from now strategy regime symbol (l ∷ ls) v).llm_min_confidence_floor l
  unfolding evaluate_from
  IsCovered-head l ls v n a b e = evaluate_from-floor n ls _ (rw a (consider-reaches n l v b e))

  evaluate_from-IsCovered :
      (ls : List (Lesson F T)) (v : PolicyVerdict F)
      → All (IsCovered (evaluate_from now strategy regime symbol ls v).llm_min_confidence_floor) ls
  unfolding evaluate_from
  evaluate_from-IsCovered [] v = tt
  evaluate_from-IsCovered (l ∷ ls) v = (IsCovered-head l ls v, evaluate_from-IsCovered ls _)

  -- The floor of the verdict is at least the floor of each lesson that applies and does not ban.
  evaluate-IsCovered :
      (ls : List (Lesson F T))
      → All (IsCovered (evaluate now strategy regime symbol ls).llm_min_confidence_floor) ls
  unfolding evaluate
  evaluate-IsCovered ls = evaluate_from-IsCovered ls default_verdict
