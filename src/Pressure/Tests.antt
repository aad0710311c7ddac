-- ===== src/Pressure/Tests.antt =====
-- The host-pressure watchdog on concrete polls, and its theorems there.
use nervous_bus.Prelude.{ℕ, ◌*◌, ◌≡◌, refl, false, none, some, List, [], ◌∷◌, lookup, insert, Dict}
use nervous_bus.Pressure.Level.{
  ok, warn, critical, level_eq, growth_gb_per_hour, rate_reaches, dir_level, restarts_level,
  should_emit,
}
use nervous_bus.Pressure.Reminders.{polls, events_on}
use nervous_bus.Pressure.Poll.{
  Item, next_item, Finding, pressure, notify, unit_level, emits, events_of, poll_from, poll,
}

-- 30 GB in an hour is critical, 10 GB a warning, and a directory of 50 GB is one at rest.
dir_level-rates :
    (dir_level 1000 (growth_gb_per_hour (some 0) (30 * 1073741824) 3600) ≡ critical)
    × (dir_level 1000 (growth_gb_per_hour (some 0) (10 * 1073741824) 3600) ≡ warn)
    × (dir_level (50 * 1073741824) none ≡ warn)
    × (dir_level 1000 (growth_gb_per_hour (some 5000) 1000 3600) ≡ ok)
unfolding dir_level growth_gb_per_hour rate_reaches
dir_level-rates = (refl, refl, refl, refl)

unit_level-idle :
    (unit_level none 0 "active" ≡ none)
    × (unit_level none 0 "failed" ≡ some warn)
    × (unit_level (some 2) 9 "active" ≡ some critical)
unfolding unit_level restarts_level level_eq
unit_level-idle = (refl, refl, refl)

abbrev full : Finding
full = record { key = "disk:/home"; level = critical }

poll-full :
    (poll 0 false (full ∷ []) []).1 ≡ pressure "disk:/home" critical none ∷ notify "disk:/home" ∷ []
unfolding poll poll_from emits level_eq events_of lookup
poll-full = refl

abbrev on_record : Dict Item
on_record = ("disk:/home", record { level = warn; last_emit_ts = 0 }) ∷ []

-- Every hour the disk is at its warning level.
abbrev warned : ℕ → ℕ × List Finding
warned now =
    (now, record { key = "unit:a"; level = ok } ∷ record { key = "disk:/home"; level = warn } ∷ [])

abbrev hours : List (ℕ × List Finding)
hours = warned 300 ∷ warned 21600 ∷ warned 43000 ∷ warned 43300 ∷ []

reminded_twice : events_on "disk:/home" (polls hours on_record).1 ≡ 2
unfolding polls poll_from emits should_emit level_eq next_item events_of lookup insert
reminded_twice = refl

-- A poll that misses the disk drops its item, and the next one publishes at once.
forgotten :
    events_on "disk:/home" (polls (warned 300 ∷ (600, []) ∷ warned 900 ∷ []) on_record).1 ≡ 1
unfolding polls poll_from emits should_emit level_eq next_item events_of lookup insert
forgotten = refl
