-- ===== src/Dlq/Summary.antt =====
-- `SummaryTracker` and `publish_summary_event` of adapters/dlq/dlq.py: the rolling counts for each
-- channel and reason, and the rollups that are published.
use nervous_bus.Prelude.{
  ℕ, ◌+◌, ◌≤◌, String, ◌≡◌, refl, ap, ◌∙◌, Bool, true, false, not, List, [], ◌∷◌, ◌++◌, ◌&&◌,
  str_eq, eq_iff, both_true, and_false, ltb, ◌==◌, arith, Bool-cases, inl, inr, if◌then◌else◌,
}

-- The key is the channel and the failure reason.
abbrev pub Tally : Type 0
Tally = List ((String × String) × ℕ)

pub record Tracker : Type 0 where
  pub counts : Tally
  pub since_start_total : ℕ
  pub window_start : ℕ

pub record Rollup : Type 0 where
  pub window_start : ℕ
  pub window_end : ℕ
  pub total_count : ℕ
  pub by_channel : Tally
  pub since_start_total : ℕ

abbrev or_unknown : String → String
or_unknown t = if str_eq t "" then "unknown" else t

bump : String → String → Tally → Tally
bump c r [] = ((c, r), 1) ∷ []
bump c r (((c', r'), n) ∷ t) =
    if str_eq c' c && str_eq r' r then ((c', r'), n + 1) ∷ t else ((c', r'), n) ∷ bump c r t

-- `SummaryTracker.record`
pub record_letter : String → String → Tracker → Tracker
record_letter channel reason t = record t {
  counts = bump (or_unknown channel) (or_unknown reason) t.counts;
  since_start_total = t.since_start_total + 1;
}

-- `sum(self.counts.values())`
pub total : Tally → ℕ
total [] = 0
total ((k, n) ∷ t) = n + total t

-- `sorted(…, key=lambda kv: -kv[1])` is stable.
insert_largest : (String × String) × ℕ → Tally → Tally
insert_largest e [] = e ∷ []
insert_largest e (d ∷ t) = if ltb e.1 d.1 then d ∷ insert_largest e t else e ∷ d ∷ t

pub largest_first : Tally → Tally
largest_first [] = []
largest_first (e ∷ t) = insert_largest e (largest_first t)

-- `snapshot_and_reset_window`
pub snapshot_and_reset_window : ℕ → Tracker → Rollup × Tracker
snapshot_and_reset_window now t = (
  record {
    window_start = t.window_start;
    window_end = now;
    total_count = total t.counts;
    by_channel = largest_first t.counts;
    since_start_total = t.since_start_total;
  },
  record t { counts = []; window_start = now },
)

-- `publish_summary_event`, with the rollups that the CLI published so far. The window is reset first, so
-- the rollup of a failed publication is lost.
pub publish_summary_event : Bool → ℕ → Tracker × List Rollup → Tracker × List Rollup
publish_summary_event published now (t, sent) =
    let (rollup, t') = snapshot_and_reset_window now t in
    (t', if not (rollup.total_count == 0) && published then sent ++ rollup ∷ [] else sent)

-- What the two threads of the daemon do with the tracker, in the order of its lock.
pub data Op : Type 0 where
  letter : (channel reason : String) → Op
  publish : (published : Bool) (now : ℕ) → Op

pub run : List Op → Tracker × List Rollup → Tracker × List Rollup
run [] s = s
run (letter c r ∷ ops) (t, sent) = run ops (record_letter c r t, sent)
run (publish published now ∷ ops) s = run ops (publish_summary_event published now s)

-- The number of letters in a tally whose channel and reason are asked for.
abbrev pub Asked : Type 0
Asked = String → String → Bool

pub count_in : Asked → Tally → ℕ
count_in p [] = 0
count_in p (((c, r), n) ∷ t) = (if p c r then n else 0) + count_in p t

count_in-bump :
    (p : Asked) (c r : String) (t : Tally)
    → count_in p (bump c r t) ≡ count_in p t + (if p c r then 1 else 0)
unfolding count_in bump
count_in-bump p c r [] = ground arith
count_in-bump p c r (((c', r'), n) ∷ t) = elim (Bool-cases (str_eq c' c && str_eq r' r)) [
  | inl e ↦
      let both = both_true (str_eq c' c) (str_eq r' r) e in
      let same : p c' r' ≡ p c r =
        ap (λ x. p x r') ((eq_iff c' c).0 both.0) ∙ ap (p c) ((eq_iff r' r).0 both.1) in
      rw (e, same) (ground arith)
  | inr e ↦ rw e (omega (arith, count_in-bump p c r t))
]

count_in-insert_largest :
    (p : Asked) (e : (String × String) × ℕ) (t : Tally)
    → count_in p (insert_largest e t) ≡ (if p e.0.0 e.0.1 then e.1 else 0) + count_in p t
unfolding count_in insert_largest
count_in-insert_largest p e [] = refl
count_in-insert_largest p e (d ∷ t) = elim (Bool-cases (ltb e.1 d.1)) [
  | inl h ↦ rw h (omega (arith, count_in-insert_largest p e t))
  | inr h ↦ rw h refl
]

count_in-largest_first : (p : Asked) (t : Tally) → count_in p (largest_first t) ≡ count_in p t
unfolding count_in largest_first
count_in-largest_first p [] = refl
count_in-largest_first p (e ∷ t) =
    omega (arith, count_in-insert_largest p e (largest_first t), count_in-largest_first p t)

count_in-le : (p : Asked) (t : Tally) → count_in p t ≤ total t
unfolding count_in total
count_in-le p [] = omega arith
count_in-le p (((c, r), n) ∷ t) = ground (arith, count_in-le p t)

-- The letters asked for that come in.
pub letters : Asked → List Op → ℕ
letters p [] = 0
letters p (letter c r ∷ ops) = (if p (or_unknown c) (or_unknown r) then 1 else 0) + letters p ops
letters p (publish published now ∷ ops) = letters p ops

-- Those that the published rollups list, channel by channel.
pub reported : Asked → List Rollup → ℕ
reported p [] = 0
reported p (r ∷ rs) = count_in p r.by_channel + reported p rs

-- Those in the windows whose publication failed.
pub lost : Asked → List Op → Tracker → ℕ
lost p [] t = 0
lost p (letter c r ∷ ops) t = lost p ops (record_letter c r t)
lost p (publish published now ∷ ops) t =
    (if published then 0 else count_in p t.counts) + lost p ops (snapshot_and_reset_window now t).1

reported-append :
    (p : Asked) (xs ys : List Rollup) → reported p (xs ++ ys) ≡ reported p xs + reported p ys
unfolding reported
reported-append p [] ys = omega arith
reported-append p (x ∷ xs) ys = omega (arith, reported-append p xs ys)

publish-accounted :
    (p : Asked) (published : Bool) (now : ℕ) (t : Tracker) (sent : List Rollup)
    → reported p (publish_summary_event published now (t, sent)).1
        + (if published then 0 else count_in p t.counts)
      ≡ reported p sent + count_in p t.counts
unfolding publish_summary_event snapshot_and_reset_window reported
publish-accounted p false now t sent = rw (and_false (not (total t.counts == 0))) (omega arith)
publish-accounted p true now t sent = elim (Bool-cases (total t.counts == 0)) [
  | inl e ↦ rw e (ground (arith, e, count_in-le p t.counts))
  | inr e ↦ rw (e, reported-append p sent) (omega (arith, count_in-largest_first p t.counts))
]

reset_empty :
    (p : Asked) (now : ℕ) (t : Tracker) → count_in p (snapshot_and_reset_window now t).1.counts ≡ 0
unfolding snapshot_and_reset_window count_in
reset_empty p now t = refl

-- Whatever the order in which letters are counted and rollups published, and whichever publications
-- fail: of each channel and reason (and of any set of these), each letter is in one place. It is listed
-- in one of the published rollups, or was in a window whose publication failed, or is in the window
-- that is still open.
pub run-accounted :
    (p : Asked) (ops : List Op) (t : Tracker) (sent : List Rollup)
    → let (t', sent') = run ops (t, sent) in
      reported p sent' + lost p ops t + count_in p t'.counts
      ≡ reported p sent + count_in p t.counts + letters p ops
unfolding run letters record_letter lost publish_summary_event
run-accounted p [] t sent = omega arith
run-accounted p (letter c r ∷ ops) t sent = omega (
  arith,
  run-accounted p ops (record_letter c r t) sent,
  count_in-bump p (or_unknown c) (or_unknown r) t.counts,
)
run-accounted p (publish published now ∷ ops) t sent =
    let t' = (snapshot_and_reset_window now t).1 in
    let sent' = (publish_summary_event published now (t, sent)).1 in
    omega (
      arith,
      run-accounted p ops t' sent',
      publish-accounted p published now t sent,
      reset_empty p now t,
    )
