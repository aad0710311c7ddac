-- ===== src/Staleness/Cadence.antt =====
-- adapters/staleness/monitor.py: the verdict on one stream. Times and gaps are in milliseconds, the
-- unit of the entry ids. A percentile is kept exact, in hundredths of a millisecond, and the multiplier
-- is in thousandths, so that an expected gap is in units of 10^-5 milliseconds.
use nervous_bus.Prelude.{
  ℕ, zero, suc, ◌+◌, ◌-◌, ◌*◌, ◌/◌, ◌%◌, String, Bool, Option, none, some, List, [], ◌∷◌, ltb, leb,
  ◌==◌, length, if◌then◌else◌,
}

unfoldable pub insert_gap : ℕ → List ℕ → List ℕ
insert_gap a [] = a ∷ []
insert_gap a (b ∷ bs) = let rest = insert_gap a bs in if leb a b then a ∷ b ∷ bs else b ∷ rest

-- `sorted(values)`
unfoldable pub sort_gaps : List ℕ → List ℕ
unfolding insert_gap
sort_gaps [] = []
sort_gaps (a ∷ as') = insert_gap a (sort_gaps as')

-- `s[i]`, where the code stays in range
unfoldable pub value_at : List ℕ → ℕ → ℕ
value_at [] i = 0
value_at (a ∷ as') zero = a
value_at (a ∷ as') (suc i) = value_at as' i

-- Between `s[lo]` and `s[hi]` by the fraction of the rank, which is in hundredths.
unfoldable pub interpolate : List ℕ → ℕ → ℕ
unfolding value_at
interpolate s rank =
    let lo = rank / 100 in
    let frac = rank % 100 in
    if frac == 0
    then 100 * value_at s lo
    else 100 * value_at s lo + (value_at s (lo + 1) - value_at s lo) * frac

-- `percentile`, in hundredths
unfoldable pub percentile : List ℕ → ℕ → ℕ
unfolding sort_gaps interpolate
percentile values pct =
    if length values == 0 then 0 else interpolate (sort_gaps values) ((length values - 1) * pct)

-- What XLEN and XREVRANGE answer: the ids of the newest entries, in milliseconds, the newest first.
pub record Stream : Type 0 where
  pub channel : String
  pub lifetime_count : ℕ
  pub entries : List ℕ

pub record Settings : Type 0 where
  pub multiplier : ℕ
  pub floor : ℕ
  pub sparse_min_events : ℕ
  pub alert_cooldown : ℕ
  pub dry_run : Bool

-- the gaps between neighbours that are not at the same time
unfoldable pub gaps_between : List ℕ → List ℕ
gaps_between [] = []
gaps_between (a ∷ []) = []
gaps_between (a ∷ b ∷ bs) =
    let rest = gaps_between (b ∷ bs) in if ltb a b then (b - a) ∷ rest else rest

pub data Verdict : Type 0 where
  empty sparse ok stale : Verdict

pub record Result : Type 0 where
  pub channel : String
  pub verdict : Verdict
  pub lifetime_count : ℕ
  pub last_event_at : Option ℕ
  pub observed_gap : ℕ
  pub p95_gap : Option ℕ
  pub expected_gap : Option ℕ
  pub baseline_sample_size : Option ℕ

unfoldable pub early : Stream → Verdict → Option ℕ → ℕ → Option ℕ → Result
early s v last observed sample = record {
  channel = s.channel;
  verdict = v;
  lifetime_count = s.lifetime_count;
  last_event_at = last;
  observed_gap = observed;
  p95_gap = none;
  expected_gap = none;
  baseline_sample_size = sample;
}

-- `max(p95_gap * multiplier, floor_seconds)`
unfoldable pub expected : Settings → ℕ → ℕ
expected c p95 =
    if ltb (p95 * c.multiplier) (c.floor * 100000) then c.floor * 100000 else p95 * c.multiplier

-- the verdict of a number of gaps and their percentile
unfoldable pub judge_p95 : Settings → Stream → ℕ → ℕ → ℕ → ℕ → Result
unfolding expected early
judge_p95 c s last observed n p95 =
    let limit = expected c p95 in
    if ltb n (c.sparse_min_events - 1)
    then early s Verdict.sparse (some last) observed (some n)
    else record {
      channel = s.channel;
      verdict = if ltb limit (observed * 100000) then Verdict.stale else Verdict.ok;
      lifetime_count = s.lifetime_count;
      last_event_at = some last;
      observed_gap = observed;
      p95_gap = some p95;
      expected_gap = some limit;
      baseline_sample_size = some n;
    }

unfoldable pub judge_gaps : Settings → Stream → ℕ → ℕ → List ℕ → Result
unfolding judge_p95 percentile
judge_gaps c s last observed gaps = judge_p95 c s last observed (length gaps) (percentile gaps 95)

unfoldable pub evaluate_entries : Settings → ℕ → Stream → List ℕ → Result
unfolding early judge_gaps gaps_between sort_gaps
evaluate_entries c now s [] = early s Verdict.empty none 0 none
evaluate_entries c now s (last ∷ older) =
    if ltb s.lifetime_count c.sparse_min_events
    then early s Verdict.sparse (some last) (now - last) none
    else judge_gaps c s last (now - last) (gaps_between (sort_gaps (last ∷ older)))

unfoldable pub evaluate_stream : Settings → ℕ → Stream → Result
unfolding early evaluate_entries
evaluate_stream c now s =
    if s.lifetime_count == 0
    then early s Verdict.empty none 0 none
    else evaluate_entries c now s s.entries
