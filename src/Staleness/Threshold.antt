-- ===== src/Staleness/Threshold.antt =====
-- When adapters/staleness/monitor.py takes a channel for stale: proofs about Cadence.
use nervous_bus.Prelude.{
  ℕ, ◌+◌, ◌-◌, ◌*◌, ◌/◌, ◌≤◌, ◌<◌, ◌≡◌, ◌⊎◌, refl, sym, ap, subst, ◌∙◌, Bool, true, false, some,
  List, [], ◌∷◌, ltb, ◌==◌, length, if◌then◌else◌, Bool-cases, inl, inr, arith, ltb→lt, lt→ltb,
}
use mathlib.Core.Bool.{false≢true}
use native.Mathlib.Nat.{mul-le-mul_left}
use nervous_bus.Staleness.Cadence.{
  Stream, Settings, Verdict, Result, early, sort_gaps, percentile, gaps_between, expected,
  judge_p95, judge_gaps, evaluate_entries, evaluate_stream,
}
use nervous_bus.Staleness.Ranks.{count_if, count_if-percentile}

-- The gaps between the entries of a stream that are not at one time.
abbrev pub gaps_of : Stream → List ℕ
gaps_of s = gaps_between (sort_gaps s.entries)

-- The gaps that, times the multiplier, are shorter than a silence.
abbrev pub is_short : Settings → ℕ → ℕ → Bool
is_short c silence gap = ltb (gap * c.multiplier) (silence * 1000)

-- What a stale verdict rests on: a history, gaps enough of it, a silence above the floor, and that more
-- than 95 percent of the gaps (of their number less one) are shorter than it by the multiplier.
pub record IsFounded (c : Settings) (now : ℕ) (s : Stream) (r : Result) : Type 0 where
  pub history : c.sparse_min_events ≤ s.lifetime_count
  pub enough : c.sparse_min_events ≤ length (gaps_of s) + 1
  pub last : ℕ
  pub seen : r.last_event_at ≡ some last
  pub above_floor : c.floor < now - last
  pub above_most :
      length (gaps_of s) ≡ 0
      ⊎ ((length (gaps_of s) - 1) * 95 / 100 < count_if (is_short c (now - last)) (gaps_of s))

expected_le_floor : (c : Settings) (p : ℕ) → c.floor * 100000 ≤ expected c p
unfolding expected
expected_le_floor c p = ground arith

expected_le_usual : (c : Settings) (p : ℕ) → p * c.multiplier ≤ expected c p
unfolding expected
expected_le_usual c p = ground arith

stale_if : (b : Bool) → (if b then Verdict.stale else Verdict.ok) ≡ Verdict.stale → b ≡ true
stale_if true h = refl
stale_if false h = ground (arith, h)

abbrev is_stale_verdict : Verdict → Bool
is_stale_verdict Verdict.stale = true
is_stale_verdict _ = false

not_stale : (v : Verdict) → is_stale_verdict v ≡ false → v ≡ Verdict.stale → ⊥
not_stale v h e = false≢true (sym h ∙ ap is_stale_verdict e)

scaled : (x m p silence : ℕ) → 100 * x ≤ p → p * m < silence * 100000 → x * m < silence * 1000
scaled x m p silence le h =
    let grown = mul-le-mul_left {m = 100 * x} {n = p} m le in omega (arith, grown, h)

module _ (c : Settings) (now : ℕ) (s : Stream) where
  above_most_gaps :
      (last : ℕ) (gaps : List ℕ)
      → percentile gaps 95 * c.multiplier < (now - last) * 100000
      → length gaps ≡ 0 ⊎ ((length gaps - 1) * 95 / 100 < count_if (is_short c (now - last)) gaps)
  above_most_gaps last [] h = inl refl
  above_most_gaps last (g ∷ gaps) h = inr (
      count_if-percentile (is_short c (now - last)) (g ∷ gaps) 95 (omega arith) (omega arith)
        (λ x le.
          lt→ltb (x * c.multiplier) ((now - last) * 1000)
            (scaled x c.multiplier (percentile (g ∷ gaps) 95) (now - last) le h)))

  judged_gaps :
      (last : ℕ) (gaps : List ℕ)
      → c.sparse_min_events ≤ s.lifetime_count
      → gaps ≡ gaps_of s
      → (judge_gaps c s last (now - last) gaps).verdict ≡ Verdict.stale
      → IsFounded c now s (judge_gaps c s last (now - last) gaps)
  unfolding judge_gaps judge_p95 early
  judged_gaps last gaps h g v = elim (Bool-cases (ltb (length gaps) (c.sparse_min_events - 1))) [
    | inl e ↦ absurd (not_stale Verdict.sparse refl (rw e at v))
    | inr e ↦
        let over =
          ltb→lt (expected c (percentile gaps 95)) ((now - last) * 100000)
            (stale_if _ (rw e at v)) in
        let usual : percentile gaps 95 * c.multiplier < (now - last) * 100000 =
          omega (arith, over, expected_le_usual c (percentile gaps 95)) in
        rw e (record {
          history = h;
          enough =
              subst (λ (gs : List ℕ). c.sparse_min_events ≤ length gs + 1) g (ground (arith, e));
          last = last;
          seen = refl;
          above_floor = omega (arith, over, expected_le_floor c (percentile gaps 95));
          above_most =
              subst
                (λ (gs : List ℕ).
                  length gs ≡ 0
                  ⊎ ((length gs - 1) * 95 / 100 < count_if (is_short c (now - last)) gs))
                g (above_most_gaps last gaps usual);
        })
  ]

  entries-IsFounded :
      (es : List ℕ)
      → es ≡ s.entries
      → (evaluate_entries c now s es).verdict ≡ Verdict.stale
      → IsFounded c now s (evaluate_entries c now s es)
  unfolding evaluate_entries early
  entries-IsFounded [] same v = absurd (not_stale Verdict.empty refl v)
  entries-IsFounded (last ∷ older) same v =
      let gaps = gaps_between (sort_gaps (last ∷ older)) in
      elim (Bool-cases (ltb s.lifetime_count c.sparse_min_events)) [
        | inl e ↦ absurd (not_stale Verdict.sparse refl (rw e at v))
        | inr e ↦ rw e (
            judged_gaps last gaps (ground (arith, e))
              (ap (λ (es : List ℕ). gaps_between (sort_gaps es)) same) (rw e at v))
      ]

  -- A channel is taken for stale only with enough history and gaps enough to know its cadence, after a
  -- silence that is longer than the floor and, by the multiplier, than more than 95 percent of the gaps
  -- between its entries (of their number less one), if there are any.
  pub evaluate_stream-IsFounded :
      (evaluate_stream c now s).verdict ≡ Verdict.stale
      → IsFounded c now s (evaluate_stream c now s)
  unfolding evaluate_stream early
  evaluate_stream-IsFounded v = elim (Bool-cases (s.lifetime_count == 0)) [
    | inl e ↦ absurd (not_stale Verdict.empty refl (rw e at v))
    | inr e ↦ rw e (entries-IsFounded s.entries refl (rw e at v))
  ]
