-- ===== src/Bundler/Tests.antt =====
-- adapters/pattern-bundler run on small inputs.
use nervous_bus.Prelude.{ℕ, ◌≡◌, refl, true, false, List, [], ◌∷◌, String, map, starts_with}
use nervous_bus.Bundler.Window.{Config, ingest, ingest_log, channel_triggers}
use nervous_bus.Bundler.Loop.{not_json, not_object, event, Moment, Bundle, turns, idle}
use nervous_bus.Bundler.Balance.{turns-accounted, events_of}

abbrev cfg : Config
cfg = record {
  channel_overrides = record { pattern = "gpu."; count_trigger = 2; time_trigger = 9000 } ∷ [];
  log_count_trigger = 100;
  log_time_trigger = 300000;
  bus_count_trigger = 50;
  bus_time_trigger = 900000;
}

override_first : channel_triggers "gpu.load.v1" cfg ≡ (2, 9000)
unfolding channel_triggers starts_with
override_first = refl

log_default : channel_triggers "log:app:db" cfg ≡ (100, 300000)
unfolding channel_triggers starts_with
log_default = refl

abbrev moment : Moment
moment = record {
  now = 1000;
  bus_arrivals =
      event "gpu.load.v1" "a" ∷ not_json ∷ event "gpu.load.v1" "b" ∷ event "ci.run.v1" "c" ∷ [];
  logs_arrivals = (("log_source", "app") ∷ ("service", "db") ∷ ("level", "error") ∷ []) ∷ [];
  bus_answers = true;
  logs_answers = true;
  loads = λ ch. true;
  inits = λ ch. true;
  emits = λ key. true;
  dumps = λ e. "{}";
}

-- The first pass is cut short by an entry that is not an object; the second goes on after it.
abbrev moments : List Moment
moments = record moment { bus_arrivals = event "gpu.load.v1" "z" ∷ not_object ∷ [] } ∷ moment ∷ []

abbrev counts : List Bundle → List (String × ℕ)
counts = map (λ b. (b.channel, b.event_count))

-- The windows that hit their count are emitted, here that of gpu.load.v1 with three events.
emitted : counts (turns cfg moments idle).bundles ≡ ("gpu.load.v1", 3) ∷ []
unfolding turns ingest channel_triggers starts_with ingest_log
emitted = refl

-- A baseline that cannot be loaded for a new window costs the event.
lost : events_of (turns cfg (record moment { loads = λ ch. false } ∷ []) idle) ≡ 3
unfolding turns
lost = refl

turns-accounted_example : events_of (turns cfg moments idle) ≡ 6
turns-accounted_example =
    turns-accounted cfg moments idle ((λ ch. (refl, refl)), ((λ ch. (refl, refl)), tt))
