-- ===== src/Argshape/Choice.antt =====
-- Which fix adapters/argshape/core.py chooses (`best_fix`): proofs about Fixes.
use nervous_bus.Prelude.{
  ◌≡◌, refl, subst, Bool, true, false, Option, some, List, [], ◌∷◌, ◌&&◌, not, ◌⊎◌, inl, inr,
  str_eq, eq_refl, keep, Bool-cases, All, arith, String,
}
use mathlib.Core.Option.{some-injective, none-ne-some}
use nervous_bus.Argshape.Fixes.{
  Fix, Spec, Config, Query, is_asked, fix_eligible, insert_fix, sort_fixes, sorts_before, agree_on,
  unambiguous, best_fix,
}

-- `f` is a row of the table.
abbrev pub IsRow : Fix → List Fix → Type 0
IsRow f [] = ⊥
IsRow f (x ∷ xs) = (x ≡ f) ⊎ IsRow f xs

pub All-IsRow : (P : Fix → Type 0) (f : Fix) (xs : List Fix) → All P xs → IsRow f xs → P f
All-IsRow P f [] a r = absurd r
All-IsRow P f (x ∷ xs) a (inl e) = subst P e a.0
All-IsRow P f (x ∷ xs) a (inr r) = All-IsRow P f xs a.1 r

IsRow-keep :
    (p : Fix → Bool) (f : Fix) (xs : List Fix) → IsRow f (keep p xs) → IsRow f xs × (p f ≡ true)
IsRow-keep p f [] r = absurd r
IsRow-keep p f (x ∷ xs) r = elim (Bool-cases (p x)) [
  | inl e ↦ elim (rw e at r) [
    | inl q ↦ (inl q, subst (λ y. p y ≡ true) q e)
    | inr r' ↦ let rest = IsRow-keep p f xs r' in (inr rest.0, rest.1)
  ]
  | inr e ↦ let rest = IsRow-keep p f xs (rw e at r) in (inr rest.0, rest.1)
]

IsRow-insert_fix :
    (ctx : String) (f x : Fix) (ys : List Fix)
    → IsRow f (insert_fix ctx x ys)
    → (x ≡ f) ⊎ IsRow f ys
unfolding insert_fix
IsRow-insert_fix ctx f x [] r = r
IsRow-insert_fix ctx f x (y ∷ ys) r = elim (Bool-cases (sorts_before ctx y x)) [
  | inl e ↦ elim (rw e at r) [
    | inl q ↦ inr (inl q)
    | inr r' ↦ elim (IsRow-insert_fix ctx f x ys r') [ inl q ↦ inl q | inr q ↦ inr (inr q) ]
  ]
  | inr e ↦ rw e at r
]

IsRow-sort_fixes :
    (ctx : String) (f : Fix) (xs : List Fix) → IsRow f (sort_fixes ctx xs) → IsRow f xs
unfolding sort_fixes
IsRow-sort_fixes ctx f [] r = r
IsRow-sort_fixes ctx f (x ∷ xs) r = elim (IsRow-insert_fix ctx f x (sort_fixes ctx xs) r) [
  | inl e ↦ inl e
  | inr r' ↦ inr (IsRow-sort_fixes ctx f xs r')
]

All-insert_fix :
    (P : Fix → Type 0) (ctx : String) (x : Fix) (ys : List Fix)
    → All P (insert_fix ctx x ys)
    → P x × All P ys
unfolding insert_fix
All-insert_fix P ctx x [] a = a
All-insert_fix P ctx x (y ∷ ys) a = elim (Bool-cases (sorts_before ctx y x)) [
  | inl e ↦ let b = rw e at a in let rest = All-insert_fix P ctx x ys b.1 in (rest.0, (b.0, rest.1))
  | inr e ↦ rw e at a
]

All-sort_fixes :
    (P : Fix → Type 0) (ctx : String) (xs : List Fix) → All P (sort_fixes ctx xs) → All P xs
unfolding sort_fixes
All-sort_fixes P ctx [] a = a
All-sort_fixes P ctx (x ∷ xs) a =
    let both = All-insert_fix P ctx x (sort_fixes ctx xs) a in
    (both.0, All-sort_fixes P ctx xs both.1)

-- A test that fails on what is kept, or on what is dropped too.
All-keep :
    (p q : Fix → Bool) (xs : List Fix)
    → All (λ x. q x ≡ false) (keep p xs)
    → All (λ x. (p x && q x) ≡ false) xs
All-keep p q [] a = tt
All-keep p q (x ∷ xs) a = elim (Bool-cases (p x)) [
  | inl e ↦ let b = rw e at a in (rw e b.0, All-keep p q xs b.1)
  | inr e ↦ (rw e refl, All-keep p q xs (rw e at a))
]

-- A row whose replacement is another.
abbrev pub other_good : String → Fix → Bool
other_good good x = not (str_eq x.key.good good)

agree_on-All :
    (good : String) (xs : List Fix)
    → agree_on good xs ≡ true
    → All (λ x. other_good good x ≡ false) xs
unfolding agree_on
agree_on-All good [] h = tt
agree_on-All good (x ∷ xs) h = (ground (arith, h), agree_on-All good xs (ground (arith, h)))

unambiguous_lem :
    (f : Fix) (xs : List Fix)
    → unambiguous xs ≡ some f
    → IsRow f xs × All (λ x. other_good f.key.good x ≡ false) xs
unfolding unambiguous
unambiguous_lem f [] h = absurd (none-ne-some f h)
unambiguous_lem f (x ∷ xs) h = elim (Bool-cases (agree_on x.key.good xs)) [
  | inl e ↦
      let q = some-injective x f (rw e at h) in
      (
        inl q,
        (
          subst (λ (y : Fix). other_good y.key.good x ≡ false) q (rw (eq_refl x.key.good) refl),
          subst (λ (y : Fix). All (λ z. other_good y.key.good z ≡ false) xs) q
              (agree_on-All x.key.good xs e),
        ),
      )
  | inr e ↦ absurd (none-ne-some f (rw e at h))
]

-- What `best_fix` chooses is a fix of the table that was learned for the token, in its context or in
-- none, and is eligible; and no eligible fix for the token has another replacement, since two of them
-- are an ambiguity on which nothing is corrected.
pub best_fix_lem :
    (q : Query) (spec : Option Spec) (cfg : Config) (fixes : List Fix) (f : Fix)
    → best_fix q spec cfg fixes ≡ some f
    → IsRow f fixes
      × (is_asked q f ≡ true)
      × (fix_eligible f spec cfg ≡ true)
      × All
          (λ x. (is_asked q x && (fix_eligible x spec cfg && other_good f.key.good x)) ≡ false)
          fixes
unfolding best_fix
best_fix_lem q spec cfg fixes f h =
    let asked = keep (is_asked q) fixes in
    let u = unambiguous_lem f (keep (λ x. fix_eligible x spec cfg) (sort_fixes q.ctx asked)) h in
    let e = IsRow-keep (λ x. fix_eligible x spec cfg) f (sort_fixes q.ctx asked) u.0 in
    let r = IsRow-keep (is_asked q) f fixes (IsRow-sort_fixes q.ctx f asked e.0) in
    (
      r.0,
      r.1,
      e.1,
      All-keep (is_asked q) (λ x. fix_eligible x spec cfg && other_good f.key.good x) fixes
          (All-sort_fixes (λ x. (fix_eligible x spec cfg && other_good f.key.good x) ≡ false) q.ctx
            asked
            (All-keep (λ x. fix_eligible x spec cfg) (other_good f.key.good)
              (sort_fixes q.ctx asked) u.1)),
    )
