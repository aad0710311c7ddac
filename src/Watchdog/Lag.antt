-- ===== src/Watchdog/Lag.antt =====
-- `_check_nbus_all_lag` of adapters/pattern-watchdog/watchdog.py: for each consumer group the lag
-- seen last, the time at which it last went down, and whether an alert is open.
use nervous_bus.Prelude.{
  ℕ, ◌+◌, ◌-◌, ◌≤◌, ◌<◌, String, ◌≡◌, refl, ap, Bool, true, false, Option, none, some, List, [],
  ◌∷◌, ◌++◌, ◌&&◌, ◌||◌, not, Dict, lookup, insert, subst, sym, or_default, leb, ltb, ◌==◌, arith,
  if◌then◌else◌,
}
use nervous_bus.Watchdog.Marker.{Marker, problem, recovery, Alternates}

-- The hash nbus:watchdog:lag:<group>. Its three fields are written together.
pub record Health : Type 0 where
  pub last_lag : ℕ
  pub last_decrease_ts : ℕ
  pub alerted : Bool

-- What the writing of the hash comes to: both commands, HSET without the EXPIRE, or neither.
pub data Write : Type 0 where
  written unexpired failed : Write

-- A row of XINFO GROUPS, and whether the group's hash can be read and written.
pub record Group : Type 0 where
  pub name : String
  pub lag : ℕ
  pub reads : Bool
  pub writes : Write

-- A hash, and when it expires, if it does.
pub record Stored : Type 0 where
  pub health : Health
  pub until : Option ℕ

abbrev pub health_key_ttl : ℕ
health_key_ttl = 7200

unfoldable pub is_alive : ℕ → Option ℕ → Bool
is_alive now none = true
is_alive now (some until) = ltb now until

-- `r.hgetall(state_key)`, nothing where it raises
unfoldable pub found : ℕ → Bool → Option Stored → Option Health
unfolding is_alive
found now reads none = none
found now reads (some s) = if reads && is_alive now s.until then some s.health else none

unfoldable pub old_deadline : ℕ → Option Stored → Option ℕ
unfolding is_alive
old_deadline now none = none
old_deadline now (some s) = if is_alive now s.until then s.until else none

-- `r.hset(…)` and `r.expire(…)`, whose failures are ignored
unfoldable pub store : ℕ → Write → Health → Option Stored → Option Stored
unfolding old_deadline
store now Write.written h s = some (record { health = h; until = some (now + health_key_ttl) })
store now Write.unexpired h s = some (record { health = h; until = old_deadline now s })
store now Write.failed h s = s

abbrev pub lag_error_threshold : ℕ
lag_error_threshold = 1000

abbrev pub lag_stall_window : ℕ
lag_stall_window = 300

-- The defaults of `state.get(…)`, for a group whose hash is missing, expired or unreadable.
unfoldable pub known : ℕ → Option Health → Health
known now h = or_default h (record { last_lag = 0; last_decrease_ts = now; alerted = false })

unfoldable pub new_decrease_ts : ℕ → Health → ℕ → ℕ
new_decrease_ts now h lag = if ltb lag h.last_lag || lag == 0 then now else h.last_decrease_ts

-- A lag spike, or a lag that is not zero and has not gone down for the window.
unfoldable pub is_alert : ℕ → Health → ℕ → Bool
is_alert now h lag =
    let stall_duration = now - new_decrease_ts now h lag in
    ltb lag_error_threshold lag || ltb 0 lag && leb lag_stall_window stall_duration

-- The three branches: a problem that is not yet reported, a recovery, or nothing new.
unfoldable pub judge : (alert zero alerted : Bool) → Bool × List Marker
judge alert zero alerted =
    if alert && not alerted
    then (true, problem ∷ [])
    else if zero && alerted
    then (false, recovery ∷ [])
    else (alerted, [])

-- One group, from what is known of it: the new hash, and the marker that is published.
unfoldable pub judge_group : ℕ → Option Health → ℕ → Health × List Marker
judge_group now state lag =
    let h = known now state in
    let (alerted, markers) = judge (is_alert now h lag) (lag == 0) h.alerted in
    (
      record { last_lag = lag; last_decrease_ts = new_decrease_ts now h lag; alerted = alerted },
      markers,
    )

unfoldable pub check_group : ℕ → Group → Option Stored → Option Stored × List Marker
unfolding judge_group found store
check_group now g state =
    let (h, markers) = judge_group now (found now g.reads state) g.lag in
    (store now g.writes h state, markers)

unfoldable pub put : String → Option Stored → Dict Stored → Dict Stored
unfolding insert
put name none d = d
put name (some s) d = insert name s d

unfoldable pub tag : String → List Marker → List (String × Marker)
tag name [] = []
tag name (m ∷ ms) = (name, m) ∷ tag name ms

-- The loop over the groups: the hashes, the groups that have an issue, and the markers.
unfoldable pub check_lag : ℕ → List Group → Dict Stored → Dict Stored × List (String × Marker)
unfolding tag put
check_lag now [] healths = (healths, [])
check_lag now (g ∷ groups) healths =
    let (s, markers) = check_group now g (lookup g.name healths) in
    let (healths', rest) = check_lag now groups (put g.name s healths) in
    (healths', tag g.name markers ++ rest)

-- A polling history of one group: the times and rows, from the hash that is there.
unfoldable pub watch : List (ℕ × Group) → Option Stored → Option Stored × List Marker
watch [] state = (state, [])
watch ((now, g) ∷ polls) state =
    let (s, markers) = check_group now g state in
    let (end, rest) = watch polls s in (end, markers ++ rest)

abbrev pub is_alerted : Option Stored → Bool
is_alerted state = elim state [ none ↦ false | some s ↦ s.health.alerted ]

abbrev pub deadline : Option Stored → Option ℕ
deadline none = none
deadline (some s) = s.until

-- Each poll reads and writes the hash, before it expires: two hours after the poll before.
abbrev pub IsTended : Option ℕ → List (ℕ × Group) → Type 0
IsTended until [] = Unit
IsTended until ((now, g) ∷ polls) =
    (g.reads ≡ true)
    × (g.writes ≡ Write.written)
    × (is_alive now until ≡ true)
    × IsTended (some (now + health_key_ttl)) polls

abbrev health_of : Option Stored → Option Health
health_of none = none
health_of (some s) = some s.health

-- What a tended poll makes of the hash.
abbrev stored : ℕ → Health → Option Stored
stored now h = some (record { health = h; until = some (now + health_key_ttl) })

found_tended :
    (now : ℕ) (reads : Bool) (state : Option Stored)
    → reads ≡ true
    → is_alive now (deadline state) ≡ true
    → found now reads state ≡ health_of state
unfolding found
found_tended now reads none r a = refl
found_tended now reads (some s) r a = rw (r, a) refl

store_tended :
    (now : ℕ) (w : Write) (h : Health) (state : Option Stored)
    → w ≡ Write.written
    → store now w h state ≡ stored now h
unfolding store
store_tended now w h state e = rw e refl

check_group_tended :
    (now : ℕ) (g : Group) (state : Option Stored)
    → g.reads ≡ true
    → g.writes ≡ Write.written
    → is_alive now (deadline state) ≡ true
    → check_group now g state ≡ (
      stored now (judge_group now (health_of state) g.lag).0,
      (judge_group now (health_of state) g.lag).1,
    )
unfolding check_group
check_group_tended now g state r w a = rw (found_tended now g.reads state r a) (
    ap (λ (x : Option Stored). (x, (judge_group now (health_of state) g.lag).1))
      (store_tended now g.writes (judge_group now (health_of state) g.lag).0 state w))

judge-Alternates :
    (alert zero alerted : Bool) (ms : List Marker)
    → Alternates (judge alert zero alerted).0 ms
    → Alternates alerted ((judge alert zero alerted).1 ++ ms)
unfolding judge
judge-Alternates true true true ms h = h
judge-Alternates true true false ms h = h
judge-Alternates true false true ms h = h
judge-Alternates true false false ms h = h
judge-Alternates false true true ms h = h
judge-Alternates false true false ms h = h
judge-Alternates false false true ms h = h
judge-Alternates false false false ms h = h

alerted-known :
    (now : ℕ) (state : Option Stored) → (known now (health_of state)).alerted ≡ is_alerted state
unfolding known
alerted-known now none = refl
alerted-known now (some s) = refl

judge_group-Alternates :
    (now : ℕ) (state : Option Stored) (lag : ℕ) (ms : List Marker)
    → Alternates (judge_group now (health_of state) lag).0.alerted ms
    → Alternates (is_alerted state) ((judge_group now (health_of state) lag).1 ++ ms)
unfolding judge_group
judge_group-Alternates now state lag ms h =
    subst (λ b. Alternates b ((judge_group now (health_of state) lag).1 ++ ms))
      (alerted-known now state)
      (judge-Alternates (is_alert now (known now (health_of state)) lag) (lag == 0)
        (known now (health_of state)).alerted ms h)

-- However the lag of a group moves, its alerts do not storm: while each poll can read and write the
-- group's hash and comes less than two hours after the one before, a problem is reported only while
-- none is open, and a recovery only while one is.
pub watch-Alternates :
    (polls : List (ℕ × Group)) (state : Option Stored)
    → IsTended (deadline state) polls
    → Alternates (is_alerted state) (watch polls state).1
unfolding watch
watch-Alternates [] state t = tt
watch-Alternates ((now, g) ∷ polls) state (r, w, a, t) =
    let j = judge_group now (health_of state) g.lag in
    rw (check_group_tended now g state r w a) (
      judge_group-Alternates now state g.lag (watch polls (stored now j.0)).1
        (watch-Alternates polls (stored now j.0) t))

-- The lag of a history is never zero and never goes down.
abbrev pub IsStuck : ℕ → List (ℕ × Group) → Type 0
IsStuck last [] = Unit
IsStuck last ((now, g) ∷ polls) = (0 < g.lag) × (last ≤ g.lag) × IsStuck g.lag polls

-- The last poll of a history is at least so late.
abbrev pub EndsAfter : ℕ → List (ℕ × Group) → Type 0
EndsAfter t [] = ⊥
EndsAfter t ((now, g) ∷ []) = t ≤ now
EndsAfter t ((now, g) ∷ p ∷ polls) = EndsAfter t (p ∷ polls)

judge_alert : (alerted : Bool) → (judge true false alerted).0 ≡ true
unfolding judge
judge_alert true = refl
judge_alert false = refl

stuck_ts :
    (now lag : ℕ) (h : Health)
    → 0 < lag
    → h.last_lag ≤ lag
    → new_decrease_ts now h lag ≡ h.last_decrease_ts
unfolding new_decrease_ts
stuck_ts now lag h a b = ground arith

stuck_alert :
    (now lag : ℕ) (h : Health)
    → 0 < lag
    → h.last_lag ≤ lag
    → h.last_decrease_ts + 300 ≤ now
    → is_alert now h lag ≡ true
unfolding is_alert
stuck_alert now lag h a b c = rw (stuck_ts now lag h a b) (ground arith)

zero_test : (lag : ℕ) → 0 < lag → (lag == 0) ≡ false
zero_test lag h = ground arith

-- A group whose lag is never zero and does not go down is reported: once a poll comes 300 seconds
-- after the lag last went down, an alert is open, while each poll can read and write the group's hash
-- and comes less than two hours after the one before.
pub watch_stuck :
    (polls : List (ℕ × Group)) (s : Stored)
    → IsTended s.until polls
    → IsStuck s.health.last_lag polls
    → EndsAfter (s.health.last_decrease_ts + 300) polls
    → is_alerted (watch polls (some s)).0 ≡ true
unfolding watch known judge_group
watch_stuck [] s tended stuck late = absurd late
watch_stuck ((now, g) ∷ []) s (r, w, a, t) stuck late =
    rw
      (
        check_group_tended now g (some s) r w a,
        stuck_alert now g.lag s.health stuck.0 stuck.1 late,
        zero_test g.lag stuck.0,
      )
      (judge_alert s.health.alerted)
watch_stuck ((now, g) ∷ p ∷ polls) s (r, w, a, t) stuck late =
    let next : Stored = record {
      health = (judge_group now (some s.health) g.lag).0;
      until = some (now + health_key_ttl);
    } in
    rw (check_group_tended now g (some s) r w a) (
      watch_stuck (p ∷ polls) next t stuck.2 (
        subst (λ t. EndsAfter (t + 300) (p ∷ polls))
          (sym (stuck_ts now g.lag s.health stuck.0 stuck.1)) late))
