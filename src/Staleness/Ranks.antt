-- ===== src/Staleness/Ranks.antt =====
-- The gaps of adapters/staleness/monitor.py in order, and what their percentiles say of them.
use nervous_bus.Prelude.{
  ℕ, zero, suc, ◌+◌, ◌-◌, ◌*◌, ◌/◌, ◌%◌, ◌≤◌, ◌<◌, ◌≡◌, refl, ap, ◌∙◌, Bool, true, false, List, [],
  ◌∷◌, leb, ◌==◌, length, if◌then◌else◌, Bool-cases, inl, inr, if_both, arith, All,
}
use native.Mathlib.Nat.{mul-le-mul_left}
use nervous_bus.Staleness.Cadence.{insert_gap, sort_gaps, value_at, interpolate, percentile}

module _ (P : ℕ → Type 0) where
  All-insert_gap : (a : ℕ) (bs : List ℕ) → P a → All P bs → All P (insert_gap a bs)
  unfolding insert_gap
  All-insert_gap a [] p ps = (p, tt)
  All-insert_gap a (b ∷ bs) p ps =
      if_both (All P) (leb a b) (p, ps) (ps.0, All-insert_gap a bs p ps.1)

  All-sort_gaps : (as' : List ℕ) → All P as' → All P (sort_gaps as')
  unfolding sort_gaps
  All-sort_gaps [] ps = tt
  All-sort_gaps (a ∷ as') ps = All-insert_gap a (sort_gaps as') ps.0 (All-sort_gaps as' ps.1)

  value_at-All : (as' : List ℕ) (i : ℕ) → i < length as' → All P as' → P (value_at as' i)
  unfolding value_at
  value_at-All [] i h ps = absurd (omega (arith, h))
  value_at-All (a ∷ as') zero h ps = ps.0
  value_at-All (a ∷ as') (suc i) h ps = value_at-All as' i (omega (arith, h)) ps.1

length-insert_gap : (a : ℕ) (bs : List ℕ) → length (insert_gap a bs) ≡ suc (length bs)
unfolding insert_gap
length-insert_gap a [] = refl
length-insert_gap a (b ∷ bs) = ground (arith, length-insert_gap a bs)

length-sort_gaps : (as' : List ℕ) → length (sort_gaps as') ≡ length as'
unfolding sort_gaps
length-sort_gaps [] = refl
length-sort_gaps (a ∷ as') = length-insert_gap a (sort_gaps as') ∙ ap suc (length-sort_gaps as')

interpolate-between :
    (lo hi : ℕ) (s : List ℕ) (rank : ℕ)
    → All (λ a. (lo ≤ a) × (a ≤ hi)) s
    → rank ≤ 100 * (length s - 1)
    → 0 < length s
    → (100 * lo ≤ interpolate s rank) × (interpolate s rank ≤ 100 * hi)
unfolding interpolate
interpolate-between lo hi s rank a r n =
    let Between : ℕ → Type 0 = λ a. (lo ≤ a) × (a ≤ hi) in
    let x = value_at-All Between s (rank / 100) (omega (arith, r, n)) a in
    elim (Bool-cases (rank % 100 == 0)) [
      | inl e ↦ rw e (omega (arith, x.0), omega (arith, x.1))
      | inr e ↦
          let y = value_at-All Between s (rank / 100 + 1) (ground (arith, e, r, n)) a in
          let d = value_at s (rank / 100 + 1) - value_at s (rank / 100) in
          let part = mul-le-mul_left {m = rank % 100} {n = 100} d (omega arith) in
          rw e (omega (arith, x.0), omega (arith, part, x.1, y.1))
    ]

-- A percentile, in hundredths, lies between the smallest and the largest of the values.
pub percentile-between :
    (lo hi : ℕ) (values : List ℕ) (pct : ℕ)
    → All (λ a. (lo ≤ a) × (a ≤ hi)) values
    → pct ≤ 100
    → 0 < length values
    → (100 * lo ≤ percentile values pct) × (percentile values pct ≤ 100 * hi)
unfolding percentile
percentile-between lo hi values pct a p n =
    let some_value : (length values == 0) ≡ false = ground (arith, n) in
    rw some_value (
      interpolate-between lo hi (sort_gaps values) ((length values - 1) * pct)
        (All-sort_gaps (λ v. (lo ≤ v) × (v ≤ hi)) values a)
        (rw (length-sort_gaps values)
          (omega (arith, mul-le-mul_left {m = pct} {n = 100} (length values - 1) p)))
        (rw (length-sort_gaps values) n))

abbrev IsSorted : List ℕ → Type 0
IsSorted [] = Unit
IsSorted (a ∷ as') = All (λ b. a ≤ b) as' × IsSorted as'

All-le : (a b : ℕ) (as' : List ℕ) → a ≤ b → All (λ x. b ≤ x) as' → All (λ x. a ≤ x) as'
All-le a b [] h ps = tt
All-le a b (x ∷ xs) h ps = (omega (arith, h, ps.0), All-le a b xs h ps.1)

insert_gap-IsSorted : (a : ℕ) (bs : List ℕ) → IsSorted bs → IsSorted (insert_gap a bs)
unfolding insert_gap
insert_gap-IsSorted a [] s = (tt, tt)
insert_gap-IsSorted a (b ∷ bs) s = elim (Bool-cases (leb a b)) [
  | inl e ↦ let le : a ≤ b = ground (arith, e) in rw e ((le, All-le a b bs le s.0), s)
  | inr e ↦
      let le : b ≤ a = ground (arith, e) in
      rw e (All-insert_gap (λ x. b ≤ x) a bs le s.0, insert_gap-IsSorted a bs s.1)
]

sort_gaps-IsSorted : (as' : List ℕ) → IsSorted (sort_gaps as')
unfolding sort_gaps
sort_gaps-IsSorted [] = tt
sort_gaps-IsSorted (a ∷ as') = insert_gap-IsSorted a (sort_gaps as') (sort_gaps-IsSorted as')

-- The number of values that satisfy a test.
abbrev pub count_if : (ℕ → Bool) → List ℕ → ℕ
count_if p [] = 0
count_if p (a ∷ as') = (if p a then 1 else 0) + count_if p as'

count_if-insert_gap :
    (p : ℕ → Bool) (a : ℕ) (bs : List ℕ) → count_if p (insert_gap a bs) ≡ count_if p (a ∷ bs)
unfolding insert_gap
count_if-insert_gap p a [] = refl
count_if-insert_gap p a (b ∷ bs) = elim (Bool-cases (leb a b)) [
  | inl e ↦ rw e refl
  | inr e ↦ rw e (omega (arith, count_if-insert_gap p a bs))
]

count_if-sort_gaps : (p : ℕ → Bool) (as' : List ℕ) → count_if p (sort_gaps as') ≡ count_if p as'
unfolding sort_gaps
count_if-sort_gaps p [] = refl
count_if-sort_gaps p (a ∷ as') =
    omega (arith, count_if-insert_gap p a (sort_gaps as'), count_if-sort_gaps p as')

first_le : (a i : ℕ) (as' : List ℕ) → i < length as' → All (λ b. a ≤ b) as' → a ≤ value_at as' i
first_le a i as' h ps = value_at-All (λ b. a ≤ b) as' i h ps

-- Of sorted values those up to an index satisfy a test that all values up to the one there do.
count_if-value_at :
    (p : ℕ → Bool) (as' : List ℕ) (i : ℕ)
    → IsSorted as'
    → i < length as'
    → ((x : ℕ) → x ≤ value_at as' i → p x ≡ true)
    → i < count_if p as'
unfolding value_at
count_if-value_at p [] i s h t = absurd (omega (arith, h))
count_if-value_at p (a ∷ as') zero s h t = rw (t a (omega arith)) (omega arith)
count_if-value_at p (a ∷ as') (suc i) s h t =
    let h' : i < length as' = omega (arith, h) in
    rw (t a (first_le a i as' h' s.0)) (omega (arith, count_if-value_at p as' i s.1 h' t))

value_le-interpolate : (s : List ℕ) (rank : ℕ) → 100 * value_at s (rank / 100) ≤ interpolate s rank
unfolding interpolate
value_le-interpolate s rank = ground arith

-- A percentile is at least as large as that share of the values: more of them than their number less
-- one, times the share, satisfy a test that all values up to the percentile do.
pub count_if-percentile :
    (p : ℕ → Bool) (values : List ℕ) (pct : ℕ)
    → pct ≤ 100
    → 0 < length values
    → ((x : ℕ) → 100 * x ≤ percentile values pct → p x ≡ true)
    → (length values - 1) * pct / 100 < count_if p values
unfolding percentile
count_if-percentile p values pct h n t =
    let rank = (length values - 1) * pct in
    let some_value : (length values == 0) ≡ false = ground (arith, n) in
    let below = value_le-interpolate (sort_gaps values) rank in
    let inside : rank / 100 < length (sort_gaps values) =
      rw (length-sort_gaps values)
        (omega (arith, n, mul-le-mul_left {m = pct} {n = 100} (length values - 1) h)) in
    rw⁻¹ (count_if-sort_gaps p values) (
      count_if-value_at p (sort_gaps values) (rank / 100) (sort_gaps-IsSorted values) inside
        (λ x le. t x (rw some_value (omega (arith, below, le)))))
