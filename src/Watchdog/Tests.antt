-- ===== src/Watchdog/Tests.antt =====
-- The watchdog on concrete polls, and its theorems there.
use nervous_bus.Prelude.{
  ℕ, ◌≡◌, refl, true, false, none, some, List, [], ◌∷◌, arith, lookup, insert,
}
use nervous_bus.Watchdog.Marker.{problem, recovery, Alternates}
use nervous_bus.Watchdog.Lag.{
  Group, Write, Stored, IsTended, is_alive, known, new_decrease_ts, is_alert, judge, check_group,
  check_lag, watch, watch-Alternates, watch_stuck, is_alerted,
}
use nervous_bus.Watchdog.Growth.{judge_growth, check_growth, watch_growth}

abbrev row : ℕ → Group
row lag = record { name = "a"; lag = lag; reads = true; writes = Write.written }

-- A spike, a poll on which nothing new is said, a recovery, and a stall.
abbrev polls : List (ℕ × Group)
polls = (0, row 2000) ∷ (300, row 1500) ∷ (600, row 0) ∷ (900, row 7) ∷ (1200, row 7) ∷ []

watch-polls : (watch polls none).1 ≡ problem ∷ recovery ∷ problem ∷ []
unfolding watch check_group known new_decrease_ts is_alert judge
watch-polls = refl

-- A problem is reported again when its hash has expired, and when it could not be written.
watch_expired : (watch ((0, row 2000) ∷ (7300, row 2000) ∷ []) none).1 ≡ problem ∷ problem ∷ []
unfolding watch check_group known new_decrease_ts is_alert judge
watch_expired = refl

watch_unwritten :
    (watch ((0, record (row 2000) { writes = Write.failed }) ∷ (300, row 2000) ∷ []) none).1
    ≡ problem ∷ problem ∷ []
unfolding watch check_group known new_decrease_ts is_alert judge
watch_unwritten = refl

check_lag-two :
    (check_lag 0 (row 5 ∷ record (row 1001) { name = "b" } ∷ []) []).1 ≡ ("b", problem) ∷ []
unfolding check_lag check_group known new_decrease_ts is_alert judge lookup insert
check_lag-two = refl

polls-IsTended : IsTended none polls
unfolding is_alive
polls-IsTended = (
  refl,
  refl,
  refl,
  (refl, refl, refl, (refl, refl, refl, (refl, refl, refl, (refl, refl, refl, tt)))),
)

watch-Alternates_example : Alternates false (watch polls none).1
watch-Alternates_example = watch-Alternates polls none polls-IsTended

abbrev stuck : Stored
stuck = record {
  health = record { last_lag = 3; last_decrease_ts = 100; alerted = false };
  until = some 7000;
}

watch_stuck_example : is_alerted (watch ((250, row 3) ∷ (420, row 8) ∷ []) (some stuck)).0 ≡ true
unfolding is_alive
watch_stuck_example =
    watch_stuck ((250, row 3) ∷ (420, row 8) ∷ []) stuck (refl, refl, refl, (refl, refl, refl, tt))
      (omega arith, omega arith, (omega arith, omega arith, tt)) (omega arith)

watch_growth-polls :
    (watch_growth (some 10 ∷ some 100 ∷ none ∷ some 100 ∷ some 151 ∷ []) none).1
    ≡ problem ∷ recovery ∷ problem ∷ []
unfolding watch_growth check_growth judge_growth
watch_growth-polls = refl
