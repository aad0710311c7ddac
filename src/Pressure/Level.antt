-- ===== src/Pressure/Level.antt =====
-- The pure classification of adapters/system-pressure/watch.py. A percentage is in tenths, which is
-- how `measure_disks` rounds it; a growth rate is kept as its two bytes counts and the time between.
use nervous_bus.Prelude.{
  ℕ, ◌-◌, ◌*◌, ◌≤◌, ◌^◌, String, ◌≡◌, Bool, true, false, Option, none, some, ◌&&◌, ◌||◌, not,
  str_eq, leb, ◌==◌, arith, if◌then◌else◌,
}

pub data Level : Type 0 where
  ok warn critical : Level

-- `LEVELS`
abbrev pub rank : Level → ℕ
rank ok = 0
rank warn = 1
rank critical = 2

unfoldable pub level_eq : Level → Level → Bool
level_eq a b = rank a == rank b

unfoldable pub disk_level : ℕ → Level
disk_level used = if leb 950 used then critical else if leb 900 used then warn else ok

-- A rate in GB per hour: `grown` bytes in `elapsed` seconds. A directory that shrinks has a negative
-- rate, which passes no threshold: there `grown` is 0.
pub record Rate : Type 0 where
  pub grown : ℕ
  pub elapsed : ℕ

unfoldable pub growth_gb_per_hour : Option ℕ → ℕ → ℕ → Option Rate
growth_gb_per_hour none cur elapsed = none
growth_gb_per_hour (some prev) cur elapsed =
    if elapsed == 0 then none else some (record { grown = cur - prev; elapsed = elapsed })

abbrev pub gigabyte : ℕ
gigabyte = 1024 ^ 3

-- `gbh >= n`, multiplied out
unfoldable pub rate_reaches : ℕ → Option Rate → Bool
rate_reaches n none = false
rate_reaches n (some r) = leb (n * gigabyte * r.elapsed) (r.grown * 3600)

unfoldable pub dir_level : ℕ → Option Rate → Level
dir_level size rate =
    if rate_reaches 20 rate
    then critical
    else if leb (50 * gigabyte) size || rate_reaches 5 rate
    then warn
    else ok

-- `delta` is `none` where there is no earlier count; a count that fell is no storm, and is 0 here.
unfoldable pub restarts_level : Option ℕ → String → Level
restarts_level delta active_state =
    if (elim delta [ none ↦ false | some d ↦ leb 5 d ])
    then critical
    else if str_eq active_state "failed"
    then warn
    else ok

abbrev pub remind_interval : ℕ
remind_interval = 21600

unfoldable pub should_emit : Level → Level → ℕ → ℕ → Bool
should_emit prev level last_emit now =
    if not (level_eq level prev)
    then true
    else if not (level_eq level ok) && leb remind_interval (now - last_emit)
    then true
    else false

-- More disk in use never lowers the level.
pub disk_level_mono : (a b : ℕ) → a ≤ b → rank (disk_level a) ≤ rank (disk_level b)
unfolding disk_level
disk_level_mono a b h = ground arith

rate_mono : (r : Option Rate) → rate_reaches 20 r ≡ true → rate_reaches 5 r ≡ true
unfolding rate_reaches
rate_mono none h = h
rate_mono (some r) h = ground arith

-- A larger directory, or one that has grown by more in the same time, is never at a lower level.
pub dir_level_mono :
    (a b prev elapsed : ℕ)
    → a ≤ b
    → rank (dir_level a (growth_gb_per_hour (some prev) a elapsed))
      ≤ rank (dir_level b (growth_gb_per_hour (some prev) b elapsed))
unfolding dir_level growth_gb_per_hour rate_reaches
dir_level_mono a b prev elapsed h = grind arith
