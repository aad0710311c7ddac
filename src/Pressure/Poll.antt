-- ===== src/Pressure/Poll.antt =====
-- One poll of `main` in adapters/system-pressure/watch.py: which findings are published, and the
-- state that the next poll reads.
use nervous_bus.Prelude.{
  ℕ, ◌+◌, ◌-◌, ◌<◌, String, ◌≡◌, refl, Bool, true, false, Option, none, some, List, [], ◌∷◌, ◌++◌,
  ◌&&◌, not, Dict, lookup, insert, str_eq, ◌==◌, is_none, arith, if◌then◌else◌, eq_refl,
}
use nervous_bus.Pressure.Level.{Level, ok, critical, level_eq, restarts_level, should_emit}

-- An entry of the persisted items.
pub record Item : Type 0 where
  pub level : Level
  pub last_emit_ts : ℕ

-- A finding, by its key "<kind>:<key>" in the state.
pub record Finding : Type 0 where
  pub key : String
  pub level : Level

-- What is handed to the CLI: the level and the one before it (`none` is "unknown"), and for a
-- critical level a notification beside it.
pub data Event : Type 0 where
  pressure : String → Level → Option Level → Event
  notify : String → Event

-- The finding of a systemd unit; `none` where the unit is skipped to keep the state small.
unfoldable pub unit_level : Option ℕ → ℕ → String → Option Level
unit_level before restarts active_state =
    let level =
      restarts_level (elim before [ none ↦ none | some b ↦ some (restarts - b) ]) active_state in
    if level_eq level ok && restarts == 0 && not (str_eq active_state "failed") && is_none before
    then none
    else some level

unfoldable pub emits : ℕ → Option Item → Level → Bool
emits now none level = not (level_eq level ok)
emits now (some item) level = should_emit item.level level item.last_emit_ts now

unfoldable pub last_emit : Option Item → ℕ
last_emit none = 0
last_emit (some item) = item.last_emit_ts

unfoldable pub next_item : ℕ → Option Item → Level → Item
unfolding last_emit
next_item now before level = record {
  level = level;
  last_emit_ts = if emits now before level then now else last_emit before;
}

abbrev pub level_before : Option Item → Option Level
level_before none = none
level_before (some item) = some item.level

unfoldable pub events_of : Option Item → Finding → List Event
events_of before f =
    pressure f.key f.level (level_before before)
    ∷ (if level_eq f.level critical then notify f.key ∷ [] else [])

-- The loop over the findings. The new items are built from this poll's findings alone.
unfoldable pub poll_from :
    ℕ → Bool → List Finding → Dict Item → Dict Item → List Event → Dict Item × List Event
poll_from now dry_run [] before items sent = (items, sent)
poll_from now dry_run (f ∷ fs) before items sent =
    let item = lookup f.key before in
    poll_from now dry_run fs before (insert f.key (next_item now item f.level) items)
      (if emits now item f.level && not dry_run then sent ++ events_of item f else sent)

unfoldable pub poll : ℕ → Bool → List Finding → Dict Item → Dict Item × List Event
poll now dry_run fs before = poll_from now dry_run fs before [] []

level_eq_self : (l : Level) → level_eq l l ≡ true
unfolding level_eq
level_eq_self l = ground arith

quiet_after :
    (now later : ℕ) (before : Option Item) (l : Level)
    → emits now before l ≡ true
    → later < now + 21600
    → emits later (some (next_item now before l)) l ≡ false
unfolding emits next_item should_emit
quiet_after now later before l e h = rw (e, level_eq_self l) (ground arith)

-- A dry run uses up the transition that it shows: the real run that follows within six hours, on
-- the same finding, publishes nothing.
pub poll_after_dry :
    (now later : ℕ) (f : Finding) (before : Dict Item)
    → emits now (lookup f.key before) f.level ≡ true
    → later < now + 21600
    → (poll later false (f ∷ []) (poll now true (f ∷ []) before).0).1 ≡ []
unfolding poll poll_from lookup insert
poll_after_dry now later f before e h =
    rw (eq_refl f.key, quiet_after now later (lookup f.key before) f.level e h) refl
