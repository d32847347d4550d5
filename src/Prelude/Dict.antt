-- ===== src/Prelude/Dict.antt =====
-- `HashMap<K, V>` as an association list. The order of iteration is the order of the list.
use crypto_scalper.Prelude.Lists.{All, length}
use crypto_scalper.Prelude.{◌↔◌, ◌&&◌}
use mathlib.Core.Path.{◌≡◌, refl}
use mathlib.Core.Bool.{true, false, ◌&&◌}
use mathlib.Core.Option.{Option, none, some}
use mathlib.Core.Option
use mathlib.Core.Logic.{inl, inr}
use mathlib.Core.List.{List, [], ◌∷◌}
use native.Mathlib.Omega.{arith}
use Prim.Native.Nat.{◌+◌, ◌≤◌}
use crypto_scalper.Prelude.Tests.{if◌then◌else◌, Eq, Bool-cases}

pub beq_refl {ℓ} : {K : Type ℓ} ⦃e : Eq K⦄ (k : K) → e.beq k k ≡ true
beq_refl ⦃e⦄ k = (e.beq_iff k k).1 refl

pub beq_comm_false {ℓ} : {K : Type ℓ} ⦃e : Eq K⦄ (j k : K) → e.beq j k ≡ false → e.beq k j ≡ false
beq_comm_false ⦃e⦄ j k h = ground (arith, e.beq_iff j k, e.beq_iff k j)

abbrev pub Dict {ℓ κ} : Type ℓ → Type κ → Type (ℓ ⊔ κ)
Dict K V = List (K × V)

module _ {ℓ κ} {K : Type ℓ} {V : Type κ} ⦃e : Eq K⦄ where
  unfoldable pub lookup : K → Dict K V → Option V
  lookup k [] = none
  lookup k ((j, v) ∷ m) = if e.beq j k then some v else lookup k m

  unfoldable pub insert : K → V → Dict K V → Dict K V
  insert k v [] = (k, v) ∷ []
  insert k v ((j, w) ∷ m) = if e.beq j k then (k, v) ∷ m else (j, w) ∷ insert k v m

  unfoldable pub remove : K → Dict K V → Dict K V
  remove k [] = []
  remove k ((j, w) ∷ m) = let rest = remove k m in if e.beq j k then rest else (j, w) ∷ rest

  pub lookup-insert :
      (k j : K) (v : V) (m : Dict K V)
      → lookup j (insert k v m) ≡ (if e.beq k j then some v else lookup j m)
  unfolding lookup insert
  lookup-insert k j v [] = refl
  lookup-insert k j v ((i, w) ∷ m) =
      ground (arith, e.beq_iff k j, e.beq_iff i k, e.beq_iff i j, lookup-insert k j v m)

  pub lookup-remove :
      (k j : K) (m : Dict K V) → lookup j (remove k m) ≡ (if e.beq k j then none else lookup j m)
  unfolding lookup remove
  lookup-remove k j [] = ground arith
  lookup-remove k j ((i, w) ∷ m) =
      ground (arith, e.beq_iff k j, e.beq_iff i k, e.beq_iff i j, lookup-remove k j m)

  pub lookup-insert_self : (k : K) (v : V) (m : Dict K V) → lookup k (insert k v m) ≡ some v
  lookup-insert_self k v m = rw (lookup-insert, beq_refl)

  -- No key stands twice.
  abbrev pub IsDistinct : Dict K V → Type κ
  IsDistinct [] = Unit
  IsDistinct ((k, v) ∷ m) = (lookup k m ≡ none) × IsDistinct m

  insert-IsDistinct_none :
      (k : K) (v : V) (j : K) (m : Dict K V)
      → e.beq k j ≡ false
      → lookup j m ≡ none
      → lookup j (insert k v m) ≡ none
  insert-IsDistinct_none k v j m d h = rw (lookup-insert, d) h

  pub insert-IsDistinct : (k : K) (v : V) (m : Dict K V) → IsDistinct m → IsDistinct (insert k v m)
  unfolding insert lookup
  insert-IsDistinct k v [] d = (refl, tt)
  insert-IsDistinct k v ((j, w) ∷ m) (h, d) = elim (Bool-cases (e.beq j k)) [
    | inl same ↦ rw same ((rw (← (e.beq_iff j k).0 same) h), d)
    | inr other ↦
        rw other
          ((insert-IsDistinct_none k v j m (beq_comm_false j k other) h, insert-IsDistinct k v m d))
  ]

  pub remove-absent : (k : K) (m : Dict K V) → lookup k m ≡ none → remove k m ≡ m
  unfolding remove lookup
  remove-absent k [] h = refl
  remove-absent k ((j, w) ∷ m) h = ground (arith, remove-absent k m)

  pub length-insert : (k : K) (v : V) (m : Dict K V) → length (insert k v m) ≤ length m + 1
  unfolding insert
  length-insert k v [] = omega arith
  length-insert k v ((j, w) ∷ m) = ground (arith, length-insert k v m)

module _ {ℓ κ} {K : Type ℓ} {V : Type κ} where
  -- `f` on `values_mut()`.
  unfoldable pub map_values : (V → V) → Dict K V → Dict K V
  map_values f [] = []
  map_values f ((k, v) ∷ m) = (k, f v) ∷ map_values f m

-- A pair of keys.
pub pair_beq_iff {ℓ κ} :
    {A : Type ℓ} {B : Type κ} ⦃a : Eq A⦄ ⦃b : Eq B⦄ (p q : A × B)
    → ((a.beq p.0 q.0 && b.beq p.1 q.1) ≡ true) ↔ (p ≡ q)
pair_beq_iff ⦃a⦄ ⦃b⦄ p q = ground (arith, a.beq_iff p.0 q.0, b.beq_iff p.1 q.1)

instance abbrev pub pair_eq {ℓ κ} : {A : Type ℓ} {B : Type κ} ⦃a : Eq A⦄ ⦃b : Eq B⦄ → Eq (A × B)
pair_eq ⦃a⦄ ⦃b⦄ = record { beq = λ p q. a.beq p.0 q.0 && b.beq p.1 q.1; beq_iff = pair_beq_iff }

module _ {ℓ κ} {K : Type ℓ} {V : Type κ} ⦃e : Eq K⦄ where
  -- `f` on `entry(k).or_default()`.
  unfoldable pub upsert : V → K → (V → V) → Dict K V → Dict K V
  upsert d k f m = insert k (f (Option.get_or (lookup k m) d)) m

  pub All-insert {μ} :
      (P : V → Type μ) (k : K) (v : V) (m : Dict K V)
      → P v
      → All (λ (j, w). P w) m
      → All (λ (j, w). P w) (insert k v m)
  unfolding insert
  All-insert P k v [] p ps = (p, tt)
  All-insert P k v ((j, w) ∷ m) p (q, ps) = elim (Bool-cases (e.beq j k)) [
    | inl same ↦ rw same ((p, ps))
    | inr other ↦ rw other ((q, All-insert P k v m p ps))
  ]

  All-lookup {μ} :
      (P : V → Type μ) (k : K) (d : V) (m : Dict K V)
      → P d
      → All (λ (j, w). P w) m
      → P (Option.get_or (lookup k m) d)
  unfolding lookup
  All-lookup P k d [] p ps = p
  All-lookup P k d ((j, w) ∷ m) p (q, ps) = elim (Bool-cases (e.beq j k)) [
    | inl same ↦ rw same q
    | inr other ↦ rw other (All-lookup P k d m p ps)
  ]

  pub All-upsert {μ} :
      (P : V → Type μ) (d : V) (k : K) (f : V → V) (m : Dict K V)
      → P d
      → ((v : V) → P v → P (f v))
      → All (λ (j, w). P w) m
      → All (λ (j, w). P w) (upsert d k f m)
  unfolding upsert
  All-upsert P d k f m p s ps = All-insert P k _ m (s _ (All-lookup P k d m p ps)) ps

  pub lookup-upsert :
      (d : V) (k j : K) (f : V → V) (m : Dict K V)
      → lookup j (upsert d k f m)
        ≡ (if e.beq k j then some (f (Option.get_or (lookup k m) d)) else lookup j m)
  unfolding upsert
  lookup-upsert d k j f m = lookup-insert k j _ m

  pub lookup-map_values :
      (k : K) (f : V → V) (m : Dict K V) → lookup k (map_values f m) ≡ Option.map f (lookup k m)
  unfolding map_values lookup
  lookup-map_values k f [] = refl
  lookup-map_values k f ((j, v) ∷ m) = ground (arith, lookup-map_values k f m)
