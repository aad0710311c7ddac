-- ===== src/Watchdog/Growth.antt =====
-- `_check_dead_letter_growth` of adapters/pattern-watchdog/watchdog.py, on the counter
-- entries-added of the dead-letter stream. Every poll here reads and writes the hash before it expires:
-- its two hours and failed calls on it are left out.
use nervous_bus.Prelude.{
  ℕ, ◌+◌, ◌<◌, ◌≡◌, refl, Bool, true, false, Option, none, some, List, [], ◌∷◌, ◌++◌, ◌&&◌, not,
  leb, ltb, arith, if◌then◌else◌,
}
use nervous_bus.Watchdog.Marker.{Marker, problem, recovery, Alternates}

-- The hash nbus:watchdog:dlq:growth.
pub record Growth : Type 0 where
  pub last_entries_added : ℕ
  pub alerted : Bool

-- The three branches, on whether the growth is above the threshold and whether there is none.
unfoldable pub judge_growth : (above idle alerted : Bool) → Bool × List Marker
judge_growth above idle alerted =
    if above && not alerted
    then (true, problem ∷ [])
    else if idle && alerted
    then (false, recovery ∷ [])
    else (alerted, [])

-- `none` for the counter is a failed XINFO STREAM, which leaves the hash alone; `none` for the hash
-- is the first run.
unfoldable pub check_growth : Option ℕ → Option Growth → Option Growth × List Marker
check_growth none state = (state, [])
check_growth (some added) none = (some (record { last_entries_added = added; alerted = false }), [])
check_growth (some added) (some g) =
    let (alerted, markers) =
      judge_growth (ltb (g.last_entries_added + 50) added) (leb added g.last_entries_added)
        g.alerted in
    (some (record { last_entries_added = added; alerted = alerted }), markers)

unfoldable pub watch_growth : List (Option ℕ) → Option Growth → Option Growth × List Marker
watch_growth [] state = (state, [])
watch_growth (added ∷ polls) state =
    let (state', markers) = check_growth added state in
    let (end, rest) = watch_growth polls state' in (end, markers ++ rest)

abbrev pub has_alert : Option Growth → Bool
has_alert none = false
has_alert (some g) = g.alerted

judge_growth-Alternates :
    (above idle alerted : Bool) (ms : List Marker)
    → Alternates (judge_growth above idle alerted).0 ms
    → Alternates alerted ((judge_growth above idle alerted).1 ++ ms)
unfolding judge_growth
judge_growth-Alternates true true true ms h = h
judge_growth-Alternates true true false ms h = h
judge_growth-Alternates true false true ms h = h
judge_growth-Alternates true false false ms h = h
judge_growth-Alternates false true true ms h = h
judge_growth-Alternates false true false ms h = h
judge_growth-Alternates false false true ms h = h
judge_growth-Alternates false false false ms h = h

-- Failed reads of the counter and first runs included, the alerts on the dead-letter stream do not
-- storm while the hash is kept from poll to poll: problems and recoveries take turns.
pub watch_growth-Alternates :
    (polls : List (Option ℕ)) (state : Option Growth)
    → Alternates (has_alert state) (watch_growth polls state).1
unfolding watch_growth check_growth
watch_growth-Alternates [] state = tt
watch_growth-Alternates (none ∷ polls) state = watch_growth-Alternates polls state
watch_growth-Alternates (some added ∷ polls) none =
    watch_growth-Alternates polls (some (record { last_entries_added = added; alerted = false }))
watch_growth-Alternates (some added ∷ polls) (some g) =
    let state' = (check_growth (some added) (some g)).0 in
    judge_growth-Alternates (ltb (g.last_entries_added + 50) added) (leb added g.last_entries_added)
      g.alerted (watch_growth polls state').1 (watch_growth-Alternates polls state')

-- The counter goes up between any two polls.
abbrev pub IsGrowing : ℕ → List (Option ℕ) → Type 0
IsGrowing last [] = Unit
IsGrowing last (none ∷ polls) = IsGrowing last polls
IsGrowing last (some added ∷ polls) = (last < added) × IsGrowing added polls

judge_open : (above alerted : Bool) → alerted ≡ true → judge_growth above false alerted ≡ (true, [])
unfolding judge_growth
judge_open above alerted h = ground arith

not_idle : (last added : ℕ) → last < added → leb added last ≡ false
not_idle last added h = ground arith

-- After an alert the watchdog is silent for as long as each poll finds at least one new dead letter:
-- the usual trickle keeps the alert open, so that a later burst, of any size, is not reported.
pub watch_growth_silent :
    (polls : List (Option ℕ)) (g : Growth)
    → g.alerted ≡ true
    → IsGrowing g.last_entries_added polls
    → (watch_growth polls (some g)).1 ≡ []
unfolding watch_growth check_growth
watch_growth_silent [] g a h = refl
watch_growth_silent (none ∷ polls) g a h = watch_growth_silent polls g a h
watch_growth_silent (some added ∷ polls) g a h =
    rw (not_idle _ _ h.0, judge_open _ g.alerted a)
      (watch_growth_silent polls (record { last_entries_added = added; alerted = true }) refl h.1)
