-- ===== src/Staleness/Tests.antt =====
-- The monitor on concrete streams, and its theorems there.
use nervous_bus.Prelude.{ℕ, ◌≡◌, refl, true, false, some, none, List, [], ◌∷◌, lookup, insert}
use nervous_bus.Staleness.Cadence.{
  Stream, Settings, Verdict, evaluate_stream, evaluate_entries, judge_gaps, judge_p95, expected,
  percentile, interpolate, value_at, sort_gaps, insert_gap, gaps_between, early,
}
use nervous_bus.Staleness.Run.{
  Tick, run, runs, last_alert, sweep, loaded, alert_one, after_alert, is_due, set_alert,
  save_latest, set_latest,
}
use nervous_bus.Staleness.Cooldown.{IsSpaced, runs-IsSpaced}
use nervous_bus.Staleness.Threshold.{IsFounded, evaluate_stream-IsFounded}

-- A channel with a message a minute, and the settings of the timer.
abbrev steady : Stream
steady = record {
  channel = "bus.a";
  lifetime_count = 6;
  entries = 300000 ∷ 240000 ∷ 180000 ∷ 120000 ∷ 60000 ∷ 0 ∷ [];
}

abbrev settings : Settings
settings = record {
  multiplier = 3000;
  floor = 1800000;
  sparse_min_events = 5;
  alert_cooldown = 21600000;
  dry_run = false;
}

abbrev dry : Settings
dry = record settings { dry_run = true }

percentile-four : percentile (40 ∷ 10 ∷ 30 ∷ 20 ∷ []) 95 ≡ 3850
unfolding percentile interpolate value_at sort_gaps insert_gap
percentile-four = refl

steady-stale : (evaluate_stream settings 2200000 steady).verdict ≡ Verdict.stale
unfolding evaluate_stream evaluate_entries judge_gaps judge_p95 expected percentile interpolate
    value_at sort_gaps insert_gap gaps_between early
steady-stale = refl

steady-ok : (evaluate_stream settings 2000000 steady).verdict ≡ Verdict.ok
unfolding evaluate_stream evaluate_entries judge_gaps judge_p95 expected percentile interpolate
    value_at sort_gaps insert_gap gaps_between early
steady-ok = refl

evaluate_stream-IsFounded_example :
    IsFounded settings 2200000 steady (evaluate_stream settings 2200000 steady)
evaluate_stream-IsFounded_example = evaluate_stream-IsFounded settings 2200000 steady steady-stale

-- Three runs, of which the second falls into the cooldown of the first.
abbrev at_time : ℕ → Tick
at_time t = record {
  now = t;
  publish = λ channel. true;
  streams = some steady ∷ [];
  loads = true;
  saves = true;
}

abbrev ticks : List Tick
ticks = at_time 30000000 ∷ at_time 30900000 ∷ at_time 52000000 ∷ []

runs-ticks :
    (runs settings ticks []).1
    ≡ record { channel = "bus.a"; at = 30000000 } ∷ record { channel = "bus.a"; at = 52000000 } ∷ []
unfolding runs run sweep alert_one after_alert is_due last_alert set_alert save_latest set_latest
    loaded lookup insert evaluate_stream evaluate_entries judge_gaps judge_p95 expected percentile
    interpolate value_at sort_gaps insert_gap gaps_between early
runs-ticks = refl

-- A stream that Redis does not answer for ends a run after an alert went out and before it is kept: the
-- next run alerts again.
runs_broken :
    (runs settings
      (record (at_time 30000000) { streams = some steady ∷ none ∷ [] } ∷ at_time 30900000 ∷ [])
      []).1
    ≡ record { channel = "bus.a"; at = 30000000 } ∷ record { channel = "bus.a"; at = 30900000 } ∷ []
unfolding runs run sweep alert_one after_alert is_due last_alert set_alert save_latest set_latest
    loaded lookup insert evaluate_stream evaluate_entries judge_gaps judge_p95 expected percentile
    interpolate value_at sort_gaps insert_gap gaps_between early
runs_broken = refl

runs-IsSpaced_example : IsSpaced "bus.a" 21600000 (last_alert "bus.a" []) (runs settings ticks []).1
runs-IsSpaced_example =
    runs-IsSpaced "bus.a" settings ticks []
      ((refl, refl, (refl, tt)), ((refl, refl, (refl, tt)), ((refl, refl, (refl, tt)), tt)))
