-- ===== src/Staleness/Run.antt =====
-- adapters/staleness/monitor.py: one run over the streams, and the table of baselines that it keeps.
-- Whether an event can be published is asked of a function.
use nervous_bus.Prelude.{
  ℕ, ◌+◌, String, Bool, true, false, Option, none, some, List, [], ◌∷◌, ◌++◌, ◌&&◌, not, or_default,
  ltb, if◌then◌else◌, Dict, lookup, insert,
}
use nervous_bus.Staleness.Cadence.{Stream, Settings, Verdict, Result, evaluate_stream}

pub record Baseline : Type 0 where
  pub last_alert_at : Option ℕ
  pub latest : Option Result
  pub updated_at : Option ℕ

abbrev pub no_baseline : Baseline
no_baseline = record { last_alert_at = none; latest = none; updated_at = none }

abbrev pub is_stale : Verdict → Bool
is_stale Verdict.stale = true
is_stale _ = false

-- `prior.get("last_alert_at", 0.0)`
unfoldable pub last_alert : String → Dict Baseline → ℕ
last_alert channel d = or_default (or_default (lookup channel d) no_baseline).last_alert_at 0

unfoldable pub set_alert : String → ℕ → Dict Baseline → Dict Baseline
set_alert channel now d =
    insert channel (record (or_default (lookup channel d) no_baseline) { last_alert_at = some now })
      d

-- `baselines.setdefault(…)` at the end of a run
unfoldable pub set_latest : ℕ → Result → Dict Baseline → Dict Baseline
set_latest now r d =
    insert r.channel
      (record (or_default (lookup r.channel d) no_baseline) {
        latest = some r;
        updated_at = some now;
      })
      d

unfoldable pub save_latest : ℕ → List Result → Dict Baseline → Dict Baseline
unfolding set_latest
save_latest now [] d = d
save_latest now (r ∷ rs) d = save_latest now rs (set_latest now r d)

-- A published alert, and when.
pub record Alert : Type 0 where
  pub channel : String
  pub at : ℕ

unfoldable pub is_due : Settings → ℕ → Result → Dict Baseline → Bool
unfolding last_alert
is_due c now r d = is_stale r.verdict && not (ltb now (last_alert r.channel d + c.alert_cooldown))

unfoldable pub after_alert : Bool → ℕ → Result → Dict Baseline → Dict Baseline × List Alert
unfolding set_alert
after_alert false now r d = (d, [])
after_alert true now r d =
    (set_alert r.channel now d, record { channel = r.channel; at = now } ∷ [])

-- In a dry run nothing is published and nothing is kept.
unfoldable pub alert_one :
    Settings → (String → Bool) → ℕ → Result → Dict Baseline → Dict Baseline × List Alert
unfolding is_due after_alert
alert_one c publish now r d =
    after_alert (is_due c now r d && (publish r.channel && not c.dry_run)) now r d

-- The loop over the streams, up to one that Redis does not answer for (`none`): the results, the alerts
-- and whether the end was reached. Each stream is judged and alerted before the next is read.
pub record Sweep : Type 0 where
  pub baselines : Dict Baseline
  pub results : List Result
  pub sent : List Alert
  pub done : Bool

unfoldable pub sweep : Settings → (String → Bool) → ℕ → List (Option Stream) → Dict Baseline → Sweep
unfolding alert_one evaluate_stream
sweep c publish now [] d = record { baselines = d; results = []; sent = []; done = true }
sweep c publish now (none ∷ ss) d = record { baselines = d; results = []; sent = []; done = false }
sweep c publish now (some s ∷ ss) d =
    let r = evaluate_stream c now s in
    let one = alert_one c publish now r d in
    let rest = sweep c publish now ss one.0 in
    record {
      baselines = rest.baselines;
      results = r ∷ rest.results;
      sent = one.1 ++ rest.sent;
      done = rest.done;
    }

-- What one run finds: the time, which channels' alerts can be published, the streams, and whether the
-- file of baselines can be read and written.
pub record Tick : Type 0 where
  pub now : ℕ
  pub publish : String → Bool
  pub streams : List (Option Stream)
  pub loads : Bool
  pub saves : Bool

-- `load_baselines`
unfoldable pub loaded : Bool → Dict Baseline → Dict Baseline
loaded true d = d
loaded false d = []

-- One run: the file of baselines that it leaves, and the alerts that it published.
unfoldable pub run : Settings → Tick → Dict Baseline → Dict Baseline × List Alert
unfolding sweep save_latest loaded
run c t d =
    let s = sweep c t.publish t.now t.streams (loaded t.loads d) in
    (if s.done && t.saves then save_latest t.now s.results s.baselines else d, s.sent)

-- Runs one after the other, each with the file that the last one left.
unfoldable pub runs : Settings → List Tick → Dict Baseline → Dict Baseline × List Alert
unfolding run
runs c [] d = (d, [])
runs c (t ∷ ts) d =
    let (d', sent) = run c t d in let (end, rest) = runs c ts d' in (end, sent ++ rest)
