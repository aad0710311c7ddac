-- ===== src/Bundler/Window.antt =====
-- adapters/pattern-bundler/window.py and the triggers of bundler.py: one open window of a channel, its
-- samples and errors. Times are in milliseconds. The statistics per field and the distribution of
-- fingerprints are left out. Parameter: the text that `json.dumps` makes of a dictionary of texts.
use nervous_bus.Prelude.{
  ℕ, ◌+◌, ◌-◌, String, Bool, Option, none, some, List, [], ◌∷◌, ◌++◌, ◌||◌, leb, if◌then◌else◌,
  codes, starts_with, take_chars, one_of, or_default, length, drop, Dict, lookup,
}

pub record Override : Type 0 where
  pub pattern : String
  pub count_trigger : ℕ
  pub time_trigger : ℕ

-- the configuration, with `windows` after its defaults are filled in
pub record Config : Type 0 where
  pub channel_overrides : List Override
  pub log_count_trigger : ℕ
  pub log_time_trigger : ℕ
  pub bus_count_trigger : ℕ
  pub bus_time_trigger : ℕ

unfoldable pub override_for : String → List Override → Option (ℕ × ℕ)
override_for channel [] = none
override_for channel (o ∷ os) =
    let rest = override_for channel os in
    if starts_with (codes channel) (codes o.pattern)
    then some (o.count_trigger, o.time_trigger)
    else rest

-- `_channel_triggers`
unfoldable pub channel_triggers : String → Config → ℕ × ℕ
unfolding override_for
channel_triggers channel cfg = or_default (override_for channel cfg.channel_overrides) (
    if starts_with (codes channel) (codes "log:")
    then (cfg.log_count_trigger, cfg.log_time_trigger)
    else (cfg.bus_count_trigger, cfg.bus_time_trigger))

pub record Window : Type 0 where
  pub channel : String
  pub source_stream : String
  pub count_trigger : ℕ
  pub time_trigger : ℕ
  pub opened_at : ℕ
  pub events : List String
  pub count : ℕ
  pub error_count : ℕ
  pub error_events : List String

-- `Window(channel, source, *_channel_triggers(channel, cfg))`
unfoldable pub fresh : Config → ℕ → String → String → Window
fresh cfg now channel source =
    let triggers = channel_triggers channel cfg in
    record {
      channel = channel;
      source_stream = source;
      count_trigger = triggers.0;
      time_trigger = triggers.1;
      opened_at = now;
      events = [];
      count = 0;
      error_count = 0;
      error_events = [];
    }

-- the last twenty: a deque with `maxlen=20`, and `error_events[-20:]`
unfoldable pub last_twenty : List String → List String
last_twenty xs = drop (length xs - 20) xs

-- `ingest`
unfoldable pub ingest : String → Window → Window
unfolding last_twenty take_chars
ingest raw w = record w {
  count = w.count + 1;
  events = last_twenty (w.events ++ (take_chars 500 raw ∷ []));
}

abbrev pub Entry : Type 0
Entry = Dict String

-- `entry.get(key, "")`
unfoldable pub get_text : String → Entry → String
unfolding lookup
get_text key entry = or_default (lookup key entry) ""

unfoldable pub snapshot : Entry → Entry
unfolding get_text
snapshot entry =
    ("service", get_text "service" entry)
    ∷ ("level", get_text "level" entry)
    ∷ ("message", take_chars 300 (get_text "message" entry))
    ∷ ("log_source", get_text "log_source" entry)
    ∷ []

unfoldable pub is_error : Entry → Bool
unfolding get_text one_of
is_error entry = one_of (get_text "level" entry) ("error" ∷ "critical" ∷ [])

unfoldable pub count_error : (Entry → String) → Entry → Window → Window
unfolding last_twenty snapshot
count_error dumps entry w = record w {
  error_count = w.error_count + 1;
  error_events = last_twenty (w.error_events ++ (dumps (snapshot entry) ∷ []));
}

-- `ingest_log`
unfoldable pub ingest_log : (Entry → String) → Entry → Window → Window
unfolding ingest count_error is_error
ingest_log dumps entry w =
    let counted = ingest (dumps entry) w in
    if is_error entry then count_error dumps entry counted else counted

-- `should_close`
unfoldable pub should_close : ℕ → Window → Bool
should_close now w = leb w.count_trigger w.count || leb (w.opened_at + w.time_trigger) now
