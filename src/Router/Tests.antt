-- ===== src/Router/Tests.antt =====
-- adapters/signal-router run on small inputs.
use nervous_bus.Prelude.{List, ◌≡◌, refl, true, none, some, [], ◌∷◌, insert, lookup, take_chars}
use nervous_bus.Router.Calibration.{
  CalibrationState, Verdict, accept, reject, after, auto_enabled-after, accepts, rejects, streak,
  earned, thresholds, key, load_calibration, save_calibration,
}
use nervous_bus.Router.Route.{
  Signal, Store, tier2, route, remember, channels_of, first_channel, file_signal, annotated,
  write_annotation, update_thresholds, update_by, push_recent, auto_create_bead, printed_failure,
  on_some, save_in, sort_by_ts, erase_all, insert_by_ts,
}

abbrev trusted : CalibrationState
trusted = record {
  signal_type = "anomaly";
  channel = "bus";
  accept_count = 20;
  reject_count = 1;
  last_reject_idx = 3;
  auto_enabled = true;
}

abbrev store : Store
store = record {
  alert_sigma = [];
  annotations = [];
  drafts = [];
  calibrations = ("pattern:calibration:anomaly", trusted) ∷ [];
  fingerprints = [];
  recent = [];
  beads = [];
  printed = 0;
}

abbrev silence : Signal
silence = record {
  signal_id = "s1";
  signal_type = "silence";
  severity = "high";
  confidence = 1000;
  channels = some ("bus" ∷ []);
  description = "nothing heard";
  project_hint = "";
  deviation_sigma = none;
}

abbrev anomaly : Signal
anomaly = record silence { signal_type = "anomaly"; confidence = 900 }

abbrev lost : Store
lost = record store {
  annotations =
      (
        "s1",
        record {
          signal_type = "anomaly";
          severity = "high";
          confidence = 900;
          channels = "bus" ∷ [];
          description = "nothing heard";
          ts = 5;
        },
      )
      ∷ [];
  calibrations =
      ("pattern:calibration:anomaly", trusted)
      ∷ ("pattern:calibration:anomaly:bus", record trusted { channel = "bus" })
      ∷ [];
  recent =
      ("bus", record { ts = 5; signal_type = "anomaly"; description = "nothing heard" } ∷ []) ∷ [];
  printed = 1;
}

abbrev eight : List Verdict
eight = accept ∷ accept ∷ accept ∷ reject ∷ accept ∷ accept ∷ accept ∷ accept ∷ []

auto_enabled-after_example :
    (after "recovery" "bus" (accept ∷ eight)).auto_enabled ≡ earned "recovery" (accept ∷ eight)
auto_enabled-after_example = auto_enabled-after "recovery" "bus" accept eight

earned_recovery : earned "recovery" (accept ∷ eight) ≡ true
unfolding earned thresholds accepts rejects streak
earned_recovery = refl

routed : route 5 anomaly store ≡ some lost
unfolding route file_signal load_calibration save_calibration key lookup insert annotated
    write_annotation update_thresholds update_by remember push_recent channels_of first_channel
    auto_create_bead printed_failure on_some save_in tier2 take_chars sort_by_ts erase_all
    insert_by_ts
routed = refl
