-- ===== src/Prelude/Keys.antt =====
-- Dictionaries whose keys are unique, and sums over their values.
use Prim.Native.Nat.{ℕ, ◌+◌}
use Prim.Native.String.{String}
use mathlib.Core.Path.{◌≡◌, refl, sym, ap, subst, ◌∙◌}
use mathlib.Core.Logic.{◌⊎◌, inl, inr}
use mathlib.Core.Bool.{false}
use mathlib.Core.Option.{Option, none, some, none-ne-some, some-injective}
use mathlib.Core.List.{[], ◌∷◌}
use native.Mathlib.Omega.{arith}
use text.Mathlib.Text.{◌==◌}
use text.Mathlib.TextEquality.{eq_iff}
use text.Mathlib.TextPositions.{eq_refl}
use nervous_bus.Prelude.Tests.{if_same, Bool-cases}
use nervous_bus.Prelude.Dicts.{Dict, lookup, insert, erase, lookup-insert, lookup-erase}

module _ {ℓ} {V : Type ℓ} where
  abbrev pub HasUniqueKeys : Dict V → Type ℓ
  HasUniqueKeys [] = Unit
  HasUniqueKeys ((k, v) ∷ d) = (lookup k d ≡ none) × HasUniqueKeys d

  abbrev pub weigh : (V → ℕ) → Option V → ℕ
  weigh f none = 0
  weigh f (some v) = f v

  abbrev pub sum_values : (V → ℕ) → Dict V → ℕ
  sum_values f [] = 0
  sum_values f ((k, v) ∷ d) = f v + sum_values f d

  lookup-insert_other :
      (k j : String) (v : V) (d : Dict V)
      → (j == k) ≡ false
      → lookup j d ≡ none
      → lookup j (insert k v d) ≡ none
  lookup-insert_other k j v d e h =
      lookup-insert k j v d ∙ ground (arith, h, eq_iff k j, eq_iff j k, e)

  pub insert_unique :
      (k : String) (v : V) (d : Dict V) → HasUniqueKeys d → HasUniqueKeys (insert k v d)
  unfolding insert lookup
  insert_unique k v [] u = (refl, tt)
  insert_unique k v ((j, w) ∷ d) u = elim (Bool-cases (j == k)) [
    | inl e ↦ rw e u
    | inr e ↦ rw e (lookup-insert_other k j v d e u.0, insert_unique k v d u.1)
  ]

  pub erase_unique : (k : String) (d : Dict V) → HasUniqueKeys d → HasUniqueKeys (erase k d)
  unfolding erase
  erase_unique k [] u = tt
  erase_unique k ((j, w) ∷ d) u = elim (Bool-cases (j == k)) [
    | inl e ↦ rw e (erase_unique k d u.1)
    | inr e ↦ rw e (lookup-erase k j d ∙ rw u.0 (if_same _ none), erase_unique k d u.1)
  ]

  pub erase-absent : (k : String) (d : Dict V) → lookup k d ≡ none → erase k d ≡ d
  unfolding erase lookup
  erase-absent k [] h = refl
  erase-absent k ((j, w) ∷ d) h = elim (Bool-cases (j == k)) [
    | inl e ↦ absurd (none-ne-some w (sym (rw e at h)))
    | inr e ↦ rw e (ap (λ r. (j, w) ∷ r) (erase-absent k d (rw e at h)))
  ]

  pub sum_values-insert :
      (f : V → ℕ) (k : String) (v : V) (d : Dict V)
      → sum_values f (insert k v d) + weigh f (lookup k d) ≡ sum_values f d + f v
  unfolding insert lookup
  sum_values-insert f k v [] = omega arith
  sum_values-insert f k v ((j, w) ∷ d) = ground (arith, sum_values-insert f k v d)

  pub sum_values-erase :
      (f : V → ℕ) (k : String) (d : Dict V)
      → HasUniqueKeys d
      → sum_values f (erase k d) + weigh f (lookup k d) ≡ sum_values f d
  unfolding erase lookup
  sum_values-erase f k [] u = refl
  sum_values-erase f k ((j, w) ∷ d) u = elim (Bool-cases (j == k)) [
    | inl e ↦
        rw (e, erase-absent k d (subst (λ i. lookup i d ≡ none) ((eq_iff j k).0 e) u.0))
          (omega arith)
    | inr e ↦ rw e (omega (arith, sum_values-erase f k d u.1))
  ]

  pub all_absent : (d : Dict V) → ((k : String) → lookup k d ≡ none) → d ≡ []
  unfolding lookup
  all_absent [] h = refl
  all_absent ((k, v) ∷ d) h = absurd (none-ne-some v (sym (rw (eq_refl k) at (h k))))

  -- What is left after a key is taken out, and what a written key holds.
  pub lookup-erase-some :
      (k j : String) (v : V) (d : Dict V)
      → lookup j (erase k d) ≡ some v
      → ((k == j) ≡ false) × (lookup j d ≡ some v)
  lookup-erase-some k j v d h = elim (Bool-cases (k == j)) [
    | inl e ↦ absurd (none-ne-some v (rw (lookup-erase k j d, e) at h))
    | inr e ↦ (e, rw (lookup-erase k j d, e) at h)
  ]

  pub lookup-insert-some :
      (k j : String) (v w : V) (d : Dict V)
      → lookup j (insert k v d) ≡ some w
      → ((k ≡ j) × (v ≡ w)) ⊎ (((k == j) ≡ false) × (lookup j d ≡ some w))
  lookup-insert-some k j v w d h = elim (Bool-cases (k == j)) [
    | inl e ↦ inl ((eq_iff k j).0 e, some-injective v w (rw (lookup-insert k j v d, e) at h))
    | inr e ↦ inr (e, rw (lookup-insert k j v d, e) at h)
  ]
