-- ===== src/Router/Route.antt =====
-- adapters/signal-router/router.py: where a signal goes by its confidence, and what a verdict on it
-- changes. Confidences are in thousandths and deviations in hundredths.
use nervous_bus.Prelude.{
  ℕ, ◌+◌, ◌-◌, ◌*◌, ◌/◌, String, Bool, true, false, Option, none, some, List, [], ◌∷◌, ◌&&◌, not,
  Dict, lookup, insert, erase, str_eq, leb, ltb, or_default, if◌then◌else◌, length, take,
  take_chars,
}
use nervous_bus.Router.Calibration.{
  CalibrationState, Verdict, reject, modify, load_calibration, save_calibration, record_verdict,
}

-- The channels are `none` when the signal has no such field. The deviation is without its sign.
pub record Signal : Type 0 where
  pub signal_id : String
  pub signal_type : String
  pub severity : String
  pub confidence : ℕ
  pub channels : Option (List String)
  pub description : String
  pub project_hint : String
  pub deviation_sigma : Option ℕ

pub record Annotation : Type 0 where
  pub signal_type : String
  pub severity : String
  pub confidence : ℕ
  pub channels : List String
  pub description : String
  pub ts : ℕ

pub record Draft : Type 0 where
  pub signal_id : String
  pub signal_type : String
  pub confidence : ℕ
  pub project_hint : String
  pub description : String

pub record Fingerprint : Type 0 where
  pub last_seen : ℕ
  pub dismissed : ℕ

pub record Recent : Type 0 where
  pub ts : ℕ
  pub signal_type : String
  pub description : String

-- The keys of Redis the router writes, the beads it has filed and the failures it has printed.
pub record Store : Type 0 where
  pub alert_sigma : Dict ℕ
  pub annotations : Dict Annotation
  pub drafts : List Draft
  pub calibrations : Dict CalibrationState
  pub fingerprints : Dict (Dict Fingerprint)
  pub recent : Dict (List Recent)
  pub beads : List String
  pub printed : ℕ

-- What follows a step that may raise.
unfoldable pub on_some : (Store → Store) → Option Store → Option Store
on_some f none = none
on_some f (some st) = some (f st)

-- `signal.get("channels", [])`
unfoldable pub channels_of : Signal → List String
channels_of s = or_default s.channels []

-- max(1.5, 0.95 * cur + 0.05 * dev), to the nearest hundredth.
unfoldable pub blended : ℕ → ℕ → ℕ
blended cur dev = let sum = 95 * cur + 5 * dev in if ltb sum 15000 then 150 else (sum + 50) / 100

unfoldable pub update_each : ℕ → List String → Dict ℕ → Dict ℕ
update_each dev [] sigmas = sigmas
update_each dev (ch ∷ chs) sigmas =
    update_each dev chs (insert ch (blended (or_default (lookup ch sigmas) 300) dev) sigmas)

unfoldable pub update_by : Option ℕ → Signal → Store → Store
update_by none s st = st
update_by (some dev) s st =
    if ltb s.confidence 500 && str_eq s.signal_type "anomaly"
    then record st { alert_sigma = update_each dev (channels_of s) st.alert_sigma }
    else st

unfoldable pub update_thresholds : Signal → Store → Store
update_thresholds s st = update_by s.deviation_sigma s st

-- The keys of the annotations by time, the oldest first.
unfoldable pub insert_by_ts :
    String × Annotation → List (String × Annotation) → List (String × Annotation)
insert_by_ts e [] = e ∷ []
insert_by_ts e (e' ∷ es) =
    let rest = insert_by_ts e es in if leb e.1.ts e'.1.ts then e ∷ e' ∷ es else e' ∷ rest

unfoldable pub sort_by_ts : List (String × Annotation) → List (String × Annotation)
sort_by_ts [] = []
sort_by_ts (e ∷ es) = insert_by_ts e (sort_by_ts es)

unfoldable pub erase_all : List (String × Annotation) → Dict Annotation → Dict Annotation
erase_all [] d = d
erase_all (e ∷ es) d = erase_all es (erase e.0 d)

unfoldable pub write_annotation : ℕ → Signal → Store → Store
write_annotation now s st =
    let annotation : Annotation = record {
      signal_type = s.signal_type;
      severity = s.severity;
      confidence = s.confidence;
      channels = channels_of s;
      description = take_chars 200 s.description;
      ts = now;
    } in
    let all = insert s.signal_id annotation st.annotations in
    record st { annotations = erase_all (take (length all - 50) (sort_by_ts all)) all }

-- The stream keeps about 500 entries; the trimming is Redis's own and is left out.
unfoldable pub create_draft : Signal → Store → Store
create_draft s st = record st {
  drafts =
      record {
        signal_id = s.signal_id;
        signal_type = s.signal_type;
        confidence = s.confidence;
        project_hint = s.project_hint;
        description = take_chars 500 s.description;
      }
      ∷ st.drafts;
}

unfoldable pub printed_failure : Option (List String) → Store → Option Store
printed_failure (some []) st = none
printed_failure chs st = some (record st { printed = st.printed + 1 })

-- An empty list of channels raises out of the function. Past that the name `os` is not bound, so the
-- command is never run and the failure is printed.
unfoldable pub auto_create_bead : Signal → Store → Option Store
auto_create_bead s st = printed_failure s.channels st

-- `_TIER2_CONFIDENCE`
unfoldable pub tier2 : String → ℕ
tier2 signal_type =
    if str_eq signal_type "anomaly"
    then 750
    else if str_eq signal_type "pattern"
    then 750
    else if str_eq signal_type "correlation"
    then 700
    else if str_eq signal_type "recovery"
    then 650
    else if str_eq signal_type "silence"
    then 1100
    else 800

unfoldable pub first_channel : List String → String
first_channel [] = ""
first_channel (ch ∷ chs) = ch

unfoldable pub push_recent : Recent → List String → Dict (List Recent) → Dict (List Recent)
push_recent x [] d = d
push_recent x (ch ∷ chs) d =
    push_recent x chs (insert ch (take 5 (x ∷ or_default (lookup ch d) [])) d)

unfoldable pub save_in : CalibrationState → Store → Store
save_in state st = record st { calibrations = save_calibration state st.calibrations }

-- The part of `route` for a confidence of the second tier: `none` when it raises.
unfoldable pub file_signal : Signal → Store → Option Store
file_signal s st =
    let state = load_calibration st.calibrations s.signal_type (first_channel (channels_of s)) in
    if state.auto_enabled
    then on_some (save_in state) (auto_create_bead s st)
    else some (save_in state (create_draft s st))

unfoldable pub remember : ℕ → Signal → Store → Store
remember now s st = record st {
  recent =
      push_recent
        (record {
          ts = now;
          signal_type = s.signal_type;
          description = take_chars 200 s.description;
        })
        (channels_of s) st.recent;
}

unfoldable pub annotated : ℕ → Signal → Store → Store
annotated now s st =
    if leb 500 s.confidence && not (str_eq s.signal_type "silence")
    then write_annotation now s st
    else st

unfoldable pub route : ℕ → Signal → Store → Option Store
route now s st =
    let st' = annotated now s (update_thresholds s st) in
    on_some (remember now s)
      (if leb (tier2 s.signal_type) s.confidence then file_signal s st' else some st')

-- `_mark_dismissed_fps`, on the fingerprints of one channel: those seen in the last day.
unfoldable pub dismiss : ℕ → Dict Fingerprint → Dict Fingerprint
dismiss now [] = []
dismiss now ((fp, entry) ∷ d) =
    let rest = dismiss now d in
    if ltb now (entry.last_seen + 86400)
    then (fp, record entry { dismissed = entry.dismissed + 1 }) ∷ rest
    else (fp, entry) ∷ rest

unfoldable pub mark_dismissed_fps :
    ℕ → List String → Dict (Dict Fingerprint) → Dict (Dict Fingerprint)
mark_dismissed_fps now [] fps = fps
mark_dismissed_fps now (ch ∷ chs) fps =
    mark_dismissed_fps now chs
      (elim (lookup ch fps) [ none ↦ fps | some d ↦ insert ch (dismiss now d) fps ])

unfoldable pub judge_each :
    String → Verdict → List String → Dict CalibrationState → Dict CalibrationState
judge_each signal_type v [] hashes = hashes
judge_each signal_type v (ch ∷ chs) hashes =
    judge_each signal_type v chs
      (save_calibration (record_verdict v (load_calibration hashes signal_type ch)) hashes)

unfoldable pub dismisses : Verdict → Bool
dismisses reject = true
dismisses modify = true
dismisses v = false

unfoldable pub annotated_channels : Option Annotation → List String
annotated_channels none = []
annotated_channels (some a) = a.channels

-- The verdict on the signal of an id; a feedback without a verdict returns at once.
unfoldable pub process_feedback : ℕ → String → String → Option Verdict → Store → Store
process_feedback now signal_id signal_type none st = st
process_feedback now signal_id signal_type (some v) st =
    let chs = annotated_channels (lookup signal_id st.annotations) in
    record st {
      calibrations = judge_each signal_type v chs st.calibrations;
      fingerprints =
          (if dismisses v then mark_dismissed_fps now chs st.fingerprints else st.fingerprints);
    }
