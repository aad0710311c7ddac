-- ===== src/Bundler/Loop.antt =====
-- adapters/pattern-bundler/bundler.py: the loop over the two streams and the closing of windows. A
-- stream is the list of the entries after the last id that was read, and one clock value stands for a
-- whole pass. What Redis answers is given for each pass. An exception ends its pass.
use nervous_bus.Prelude.{
  ℕ, zero, suc, String, Bool, true, false, Option, none, some, List, [], ◌∷◌, ◌++◌, not,
  if◌then◌else◌, str_append, one_of, or_default, take, Dict, lookup, insert,
}
use nervous_bus.Bundler.Window.{Config, Window, fresh, ingest, ingest_log, should_close, Entry}

-- An entry of nbus:all: text that is not JSON, JSON that is not an object, or an event of a type.
pub data BusEntry : Type 0 where
  not_json not_object : BusEntry
  event : String → String → BusEntry

-- What a pass finds: the new entries, whether each read is answered, and whether Redis answers the
-- calls for a channel's baseline, its thresholds and a window's bundle.
pub record Moment : Type 0 where
  pub now : ℕ
  pub bus_arrivals : List BusEntry
  pub logs_arrivals : List Entry
  pub bus_answers : Bool
  pub logs_answers : Bool
  pub loads : String → Bool
  pub inits : String → Bool
  pub emits : String → Bool
  pub dumps : Entry → String

-- The windows by key, and the channels that have a baseline.
pub record Core : Type 0 where
  pub windows : Dict Window
  pub known : List String

-- A new window and its channel's baseline and thresholds: true if nothing was raised.
unfoldable pub set_up : Config → Moment → String → String → String → Bool → Core → Core × Bool
unfolding insert one_of
set_up cfg m key channel source inits c =
    let opened = insert key (fresh cfg m.now channel source) c.windows in
    if one_of channel c.known
    then (record { windows = opened; known = c.known }, inits)
    else if m.loads channel
    then (record { windows = opened; known = channel ∷ c.known }, inits)
    else (record { windows = opened; known = c.known }, false)

unfoldable pub set_up_if :
    Config → Moment → String → String → String → Bool → Core → Option Window → Core × Bool
unfolding set_up
set_up_if cfg m key channel source inits c none = set_up cfg m key channel source inits c
set_up_if cfg m key channel source inits c (some w) = (c, true)

-- `if key not in windows: ...`
unfoldable pub ready : Config → Moment → String → String → String → Bool → Core → Core × Bool
unfolding lookup set_up_if
ready cfg m key channel source inits c =
    set_up_if cfg m key channel source inits c (lookup key c.windows)

unfoldable pub change_found : String → (Window → Window) → Core → Option Window → Core
unfolding insert
change_found key f c none = c
change_found key f c (some w) = record c { windows = insert key (f w) c.windows }

-- `windows[key].ingest(...)`
unfoldable pub change_window : String → (Window → Window) → Core → Core
unfolding lookup change_found
change_window key f c = change_found key f c (lookup key c.windows)

-- The first component is the state after the entry, the second is true if an exception was raised.
unfoldable pub take_event : Config → Moment → String → String → Core → Core × Bool
unfolding ready change_window one_of
take_event cfg m channel raw c =
    let key = str_append "bus:" channel in
    let opened = ready cfg m key channel "bus" (m.inits channel) c in
    let taken = change_window key (ingest raw) opened.0 in
    if opened.1 then (taken, not (one_of channel taken.known)) else (opened.0, true)

unfoldable pub take_bus : Config → Moment → BusEntry → Core → Core × Bool
unfolding take_event
take_bus cfg m not_json c = (c, false)
take_bus cfg m not_object c = (c, true)
take_bus cfg m (event channel raw) c = take_event cfg m channel raw c

unfoldable pub log_channel : Entry → String
unfolding lookup
log_channel entry =
    let src = or_default (lookup "log_source" entry) "unknown" in
    let svc = or_default (lookup "service" entry) "unknown" in
    str_append "log:" (str_append src (str_append ":" svc))

unfoldable pub take_log : Config → Moment → Entry → Core → Core × Bool
unfolding log_channel ready change_window
take_log cfg m entry c =
    let channel = log_channel entry in
    let key = str_append "logs:" channel in
    let opened = ready cfg m key channel "logs" true c in
    if opened.1
    then (change_window key (ingest_log m.dumps entry) opened.0, false)
    else (opened.0, true)

pub record Read (E : Type 0) : Type 0 where
  pub left : List E
  pub core : Core
  pub raised : Bool

-- The entries of one XREAD, of which there are at most n, up to the one that raises.
unfoldable pub read_some : {E : Type 0} → (E → Core → Core × Bool) → ℕ → List E → Core → Read E
read_some step zero left c = record { left = left; core = c; raised = false }
read_some step (suc n) [] c = record { left = []; core = c; raised = false }
read_some step (suc n) (e ∷ es) c =
    let r = step e c in
    let rest = read_some step n es r.0 in
    if r.1 then record { left = es; core = r.0; raised = true } else rest

pub record Bundle : Type 0 where
  pub source_stream : String
  pub channel : String
  pub window_start : ℕ
  pub window_end : ℕ
  pub event_count : ℕ
  pub sample_events : List String
  pub error_events : List String

-- `_emit`, of the counts and samples
unfoldable pub bundle_of : ℕ → Window → Bundle
bundle_of now w = record {
  source_stream = w.source_stream;
  channel = w.channel;
  window_start = w.opened_at;
  window_end = now;
  event_count = w.count;
  sample_events = w.events;
  error_events = take 20 w.error_events;
}

pub record Closed : Type 0 where
  pub windows : Dict Window
  pub bundles : List Bundle
  pub raised : Bool

-- The check of the windows: one that is due is emitted and opened anew, up to the one that raises.
unfoldable pub close_due : Config → Moment → Dict Window → Closed
unfolding should_close bundle_of fresh
close_due cfg m [] = record { windows = []; bundles = []; raised = false }
close_due cfg m ((key, w) ∷ ws) =
    let rest = close_due cfg m ws in
    if should_close m.now w
    then if m.emits key
      then record {
        windows = (key, fresh cfg m.now w.channel w.source_stream) ∷ rest.windows;
        bundles = bundle_of m.now w ∷ rest.bundles;
        raised = rest.raised;
      }
      else record { windows = (key, w) ∷ ws; bundles = []; raised = true }
    else record { windows = (key, w) ∷ rest.windows; bundles = rest.bundles; raised = rest.raised }

pub record Bundler : Type 0 where
  pub core : Core
  pub bus : List BusEntry
  pub logs : List Entry
  pub bundles : List Bundle

unfoldable pub read_bus : Config → Moment → Bundler → Bundler × Bool
unfolding read_some take_bus
read_bus cfg m b =
    let r = read_some (take_bus cfg m) 100 b.bus b.core in
    if m.bus_answers then (record b { core = r.core; bus = r.left }, r.raised) else (b, true)

unfoldable pub read_logs : Config → Moment → Bundler → Bundler × Bool
unfolding read_some take_log
read_logs cfg m b =
    let r = read_some (take_log cfg m) 200 b.logs b.core in
    if m.logs_answers then (record b { core = r.core; logs = r.left }, r.raised) else (b, true)

unfoldable pub check_windows : Config → Moment → Bundler → Bundler
unfolding close_due
check_windows cfg m b =
    let closed = close_due cfg m b.core.windows in
    record b {
      core = record { windows = closed.windows; known = b.core.known };
      bundles = b.bundles ++ closed.bundles;
    }

unfoldable pub arrive : Moment → Bundler → Bundler
arrive m b = record b { bus = b.bus ++ m.bus_arrivals; logs = b.logs ++ m.logs_arrivals }

-- One turn of the loop.
unfoldable pub turn : Config → Moment → Bundler → Bundler
unfolding arrive read_bus read_logs check_windows
turn cfg m b =
    let after_bus = read_bus cfg m (arrive m b) in
    let after_logs = read_logs cfg m after_bus.0 in
    if after_bus.1
    then after_bus.0
    else if after_logs.1
    then after_logs.0
    else check_windows cfg m after_logs.0

unfoldable pub turns : Config → List Moment → Bundler → Bundler
unfolding turn
turns cfg [] b = b
turns cfg (m ∷ ms) b = turns cfg ms (turn cfg m b)

abbrev pub idle : Bundler
idle = record { core = record { windows = []; known = [] }; bus = []; logs = []; bundles = [] }
